-- ===== src/Storer/Handling.antt =====
-- What internal/storer/storer.go saves.
use golang_hw.Notification.{Notification, validate, Failure}
use golang_hw.Storer.{Trailing, eof, Call, saved, decode_notification, handle}
use golang_hw.Prelude.{Bool, Option, none, List, [], ◌∷◌, ◌≡◌, ◌↔◌, ◌⊎◌, inr, arith, Text}

-- The notifications that are saved.
unfoldable pub saves : List Call → List Notification
saves [] = []
saves (saved n ∷ calls) = n ∷ saves calls
saves (c ∷ calls) = saves calls

module _ (decode : Text → (Failure ⊎ Notification) × Trailing) where
  decode_notification_lem :
      (payload : Text) (n : Notification)
      → (decode_notification decode payload ≡ inr n)
        ↔ (((decode payload).0 ≡ inr n) × ((decode payload).1 ≡ eof) × (validate n ≡ none))
  unfolding decode_notification
  decode_notification_lem payload n = ground arith

  -- What is saved is what is decoded.
  saves-handle :
      (save_err : Option Failure) (ctx_done : Bool) (payload : Text) (n : Notification)
      → (saves (handle decode save_err ctx_done payload).1 ≡ n ∷ [])
        ↔ (decode_notification decode payload ≡ inr n)
  unfolding handle saves
  saves-handle save_err ctx_done payload n = ground arith

  -- `handle` saves a notification exactly where the payload decodes to it with nothing behind it,
  -- and it is valid.
  pub handle-saves :
      (save_err : Option Failure) (ctx_done : Bool) (payload : Text) (n : Notification)
      → (saves (handle decode save_err ctx_done payload).1 ≡ n ∷ [])
        ↔ (((decode payload).0 ≡ inr n) × ((decode payload).1 ≡ eof) × (validate n ≡ none))
  handle-saves save_err ctx_done payload n =
      let a = saves-handle save_err ctx_done payload n in
      let b = decode_notification_lem payload n in (λ h. b.0 (a.0 h), λ h. a.1 (b.1 h))

  -- `handle` returns nil, so that the message is committed, exactly where the storage has accepted
  -- the notification or none was given to it.
  handle_acknowledges :
      (save_err : Option Failure) (ctx_done : Bool) (payload : Text)
      → ((handle decode save_err ctx_done payload).0 ≡ none)
        ↔ ((save_err ≡ none) ⊎ (saves (handle decode save_err ctx_done payload).1 ≡ []))
  unfolding handle saves
  handle_acknowledges save_err ctx_done payload = ground arith
