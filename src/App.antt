-- ===== src/App.antt =====
-- hw12_13_14_15_16_calendar/internal/app/app.go. The storage is an interface, and so is the calendar
-- arithmetic of the time package; the logger's lines are a list beside each result.
pub mod Logs
mod Tests
use golang_hw.Calendar.Event.{Time, Error, Event}
use golang_hw.Prelude.{ℕ, Option, none, some, List, [], ◌∷◌, ◌⊎◌, inl, inr, Text}

-- The `Storage` interface over a state `S`.
pub record Store (S : Type 0) : Type 0 where
  pub create : Event → S → Option Error × S
  pub update : Event → S → Option Error × S
  pub delete : Text → S → Option Error × S
  pub list : Text → Time → Time → S → Error ⊎ List Event

-- The fields of an instant in its location, midnight of a date there, and `AddDate`.
pub record Clock : Type 0 where
  pub year : Time → ℕ
  pub month : Time → ℕ
  pub day : Time → ℕ
  pub date : (year month day : ℕ) → Time
  pub add_date : (years months days : ℕ) → Time → Time

pub data Log : Type 0 where
  debug error : Log

-- The logged lines of a call that returns this error.
abbrev pub logged : Option Error → List Log
logged none = debug ∷ []
logged (some err) = error ∷ []

pub data Command : Type 0 where
  create_event update_event : Event → Command
  delete_event : Text → Command

module _ {S : Type 0} (store : Store S) where
  unfoldable pub perform : Command → S → (Option Error × S) × List Log
  perform (create_event event) s = let r = store.create event s in (r, logged r.0)
  perform (update_event event) s = let r = store.update event s in (r, logged r.0)
  perform (delete_event id) s = let r = store.delete id s in (r, logged r.0)

  unfoldable pub list_events : Text → Time → Time → S → (Error ⊎ List Event) × List Log
  list_events user_id from to s = elim (store.list user_id from to s) [
    | inl err ↦ (inl err, error ∷ [])
    | inr events ↦ (inr events, [])
  ]

  module _ (clock : Clock) where
    unfoldable pub list_events_for_day : Text → Time → S → (Error ⊎ List Event) × List Log
    unfolding list_events
    list_events_for_day user_id date s =
        let from = clock.date (clock.year date) (clock.month date) (clock.day date) in
        list_events user_id from (clock.add_date 0 0 1 from) s

    unfoldable pub list_events_for_week : Text → Time → S → (Error ⊎ List Event) × List Log
    unfolding list_events
    list_events_for_week user_id week_start s =
        let from =
          clock.date (clock.year week_start) (clock.month week_start) (clock.day week_start) in
        list_events user_id from (clock.add_date 0 0 7 from) s

    unfoldable pub list_events_for_month : Text → Time → S → (Error ⊎ List Event) × List Log
    unfolding list_events
    list_events_for_month user_id date s =
        let from = clock.date (clock.year date) (clock.month date) 1 in
        list_events user_id from (clock.add_date 0 1 0 from) s
