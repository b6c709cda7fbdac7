-- ===== src/Notification.antt =====
-- hw12_13_14_15_16_calendar/internal/notification/notification.go, and the errors that the scheduler
-- and the storer tell apart: `%w` keeps what `errors.Is` finds, so it is not written.
use golang_hw.Calendar.Event.{Time, is_zero}
use golang_hw.Prelude.{ℕ, Bool, true, false, Option, none, some, if◌then◌else◌, Text, is_blank}

pub record Notification : Type 0 where
  pub event_id : Text
  pub title : Text
  pub event_at : Time
  pub user_id : Text

-- The field that `Validate` finds first.
pub data Invalid : Type 0 where
  empty_event_id empty_title zero_event_at empty_user_id : Invalid

unfoldable pub validate : Notification → Option Invalid
unfolding is_blank
validate n =
    if is_blank n.event_id
    then some empty_event_id
    else if is_blank n.title
    then some empty_title
    else if is_zero n.event_at
    then some zero_event_at
    else if is_blank n.user_id
    then some empty_user_id
    else none

pub data Failure : Type 0 where
  canceled : Failure
  invalid : Invalid → Failure
  fault : ℕ → Failure

-- `errors.Is(err, context.Canceled)`
abbrev pub is_canceled : Failure → Bool
is_canceled canceled = true
is_canceled _ = false
