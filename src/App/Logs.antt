-- ===== src/App/Logs.antt =====
-- What the use cases of internal/app/app.go log.
use golang_hw.App.{Store, error, Command, create_event, update_event, delete_event, logged, perform}
use golang_hw.Calendar.Event.{Error}
use golang_hw.Prelude.{Option, none, some, [], ◌∷◌, ◌≡◌, ◌↔◌, arith, ◌≢◌}

logged_lem : (r : Option Error) → (r ≢ none) ↔ (logged r ≡ error ∷ [])
logged_lem none = ground arith
logged_lem (some err) = ground arith

module _ {S : Type 0} (store : Store S) where
  -- A command of the application fails exactly where it logs an error, and this is all it logs.
  perform_logs :
      (c : Command) (s : S)
      → ((perform store c s).0.0 ≢ none) ↔ ((perform store c s).1 ≡ error ∷ [])
  unfolding perform
  perform_logs (create_event event) s = logged_lem (store.create event s).0
  perform_logs (update_event event) s = logged_lem (store.update event s).0
  perform_logs (delete_event id) s = logged_lem (store.delete id s).0
