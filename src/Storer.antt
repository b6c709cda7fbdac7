-- ===== src/Storer.antt =====
-- hw12_13_14_15_16_calendar/internal/storer/storer.go. The JSON decoder is a parameter: what its first
-- call gives for a payload, and what its second call finds behind it. The storage's answer is data.
pub mod Handling
mod Tests
use golang_hw.Notification.{Notification, validate, Failure, invalid, fault}
use golang_hw.Prelude.{
  ℕ, Bool, true, false, not, ◌&&◌, Option, none, some, List, [], ◌∷◌, ◌++◌, ◌⊎◌, inl, inr,
  if◌then◌else◌, Text,
}

-- The second call of `Decode`.
pub data Trailing : Type 0 where
  eof : Trailing
  value : Trailing
  broken : Failure → Trailing

abbrev pub more_than_one : Failure
more_than_one = fault 1

pub data Call : Type 0 where
  logged : Call
  invalid_notification : Call
  saved : Notification → Call
  stored : Bool → Call

module _ (decode : Text → (Failure ⊎ Notification) × Trailing) where
  unfoldable pub decode_notification : Text → Failure ⊎ Notification
  unfolding validate
  decode_notification payload = elim (decode payload).0 [
    | inl err ↦ inl err
    | inr n ↦ elim (decode payload).1 [
      | broken err ↦ inl err
      | value ↦ inl more_than_one
      | eof ↦ elim (validate n) [ some err ↦ inl (invalid err) | none ↦ inr n ]
    ]
  ]

  -- What it returns and calls. `save_err` is what SaveNotification returns, `ctx_done` says whether
  -- that is the error of the ended context.
  unfoldable pub handle :
      (save_err : Option Failure) (ctx_done : Bool) → Text → Option Failure × List Call
  unfolding decode_notification
  handle save_err ctx_done payload = elim (decode_notification payload) [
    | inl err ↦ (none, logged ∷ invalid_notification ∷ [])
    | inr n ↦ elim save_err [
      | none ↦ (none, saved n ∷ stored true ∷ [])
      | some err ↦
          if ctx_done then (some err, saved n ∷ []) else (some err, saved n ∷ stored false ∷ [])
    ]
  ]
