-- ===== src/Calendar/Event.antt =====
-- internal/storage/event.go. An instant is the number of nanoseconds from the zero time on, and so is a
-- duration a number of nanoseconds; `After`, `Before` and `Equal` compare instants.
use golang_hw.Prelude.Int.{ℤ, pos, ltb_ℤ}
use golang_hw.Prelude.{Bool, ◌&&◌, ◌||◌, not, false, Text, is_blank, ◌==◌}

abbrev pub Time : Type 0
Time = ℤ

abbrev pub Duration : Type 0
Duration = ℤ

-- The errors of the storages, and those of a context.
pub data Error : Type 0 where
  event_already_exists event_not_found date_busy invalid_event : Error
  canceled deadline_exceeded : Error
  not_connected : Error
  database : Error

pub record Event : Type 0 where
  pub id : Text
  pub title : Text
  pub start_at : Time
  pub end_at : Time
  pub description : Text
  pub user_id : Text
  pub notify_before : Duration

-- `a.Before(b)`, which is also `b.After(a)`
abbrev pub time_before : Time → Time → Bool
time_before a b = ltb_ℤ a b

abbrev pub is_zero : Time → Bool
is_zero (pos n) = n == 0
is_zero (ℤ.negsuc n) = false

-- `ValidateEvent`: whether there is no error.
unfoldable pub validate_event : Event → Bool
validate_event e = not (
    is_blank e.id
    || is_blank e.title
    || is_blank e.user_id
    || is_zero e.start_at
    || is_zero e.end_at
    || not (time_before e.start_at e.end_at)
    || ltb_ℤ e.notify_before (pos 0))

-- `intervalsOverlap` of internal/storage/memory/storage.go
abbrev pub intervals_overlap : (first_start first_end second_start second_end : Time) → Bool
intervals_overlap a b c d = time_before a d && time_before c b
