-- ===== src/Storer/Tests.antt =====
-- A payload that decodes to a notification.
use golang_hw.Notification.{Notification, Failure, validate}
use golang_hw.Prelude.Int.{pos}
use golang_hw.Prelude.{Option, none, [], ◌∷◌, ◌≡◌, ◌↔◌, ◌⊎◌, inr, false, codes, Text}
use golang_hw.Storer.Handling.{saves, handle-saves}
use golang_hw.Storer.{Trailing, eof, handle}

abbrev no_error : Option Failure
no_error = none

abbrev reminder : Notification
reminder = record {
  event_id = codes "e1";
  title = codes "Call";
  event_at = pos 500;
  user_id = codes "u1";
}

abbrev decode : Text → (Failure ⊎ Notification) × Trailing
decode payload = (inr reminder, eof)

handle-saves_example :
    (saves (handle decode none false []).1 ≡ reminder ∷ [])
    ↔ (((decode []).0 ≡ inr reminder) × ((decode []).1 ≡ eof) × (validate reminder ≡ none))
handle-saves_example = handle-saves decode none false [] reminder
