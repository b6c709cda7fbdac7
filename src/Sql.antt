-- ===== src/Sql.antt =====
-- hw12_13_14_15_16_calendar/internal/storage/sql: what each method checks, which statement it gives to
-- the database, and what it makes of the answer. The database is what it answers; the storage is
-- whether it has a connection.
pub mod Guards
pub mod Pool
pub mod Table
mod Tests
use golang_hw.Calendar.Event.{
  Time, Error, event_already_exists, event_not_found, date_busy, invalid_event, not_connected,
  database, Event, time_before, is_zero, validate_event,
}
use golang_hw.Notification.{Notification, validate}
use golang_hw.Prelude.Int.{ℤ, pos, leb_ℤ}
use golang_hw.Prelude.{
  ℕ, Bool, true, false, not, ◌&&◌, ◌||◌, Option, none, some, List, [], ◌∷◌, ◌++◌, ◌⊎◌, inl, inr,
  ◌==◌, if◌then◌else◌, Text, codes, text_eq, is_blank,
}

-- The statements, with their arguments.
pub data Statement : Type 0 where
  insert_event : Event → Statement
  replace_event : Event → Statement
  erase_event : Text → Statement
  select_overlapping : Text → Time → Time → Statement
  select_due : Time → ℤ → Statement
  mark_sent : Event → Time → Statement
  erase_before : Time → Statement
  upsert_notification : Notification → Statement

-- A failure of the database: with the code of a `pq.Error`, where it is one.
pub record DbError : Type 0 where
  pub code : Option Text

-- What `mapDatabaseError` gives; `database` is the failure itself, wrapped.
unfoldable pub map_database_error : DbError → Error
map_database_error err = elim err.code [
  | none ↦ database
  | some code ↦
      if text_eq code (codes "23505")
      then event_already_exists
      else if text_eq code (codes "23P01")
      then date_busy
      else if text_eq code (codes "23514")
      then invalid_event
      else database
]

-- The answer to `ExecContext`, and to the `RowsAffected` of its result.
pub record Executed : Type 0 where
  pub failure : Option DbError
  pub rows_affected : DbError ⊎ ℕ

-- The answer to `QueryContext`, the rows that `Scan` gives, and `rows.Err()`.
pub record Queried : Type 0 where
  pub failure : Option DbError
  pub rows : List (DbError ⊎ Event)
  pub rows_err : Option DbError

-- `scanEvents`
unfoldable pub scan_events :
    List Event → List (DbError ⊎ Event) → Option DbError → Error ⊎ List Event
scan_events events [] none = inr events
scan_events events [] (some err) = inl database
scan_events events (inl err ∷ rows) rows_err = inl database
scan_events events (inr event ∷ rows) rows_err = scan_events (events ++ event ∷ []) rows rows_err

-- `s.database()` and the statement behind it, for a storage that is connected or not.
abbrev pub with_database :
    {A : Type 0} → (connected : Bool) → Statement → (Error ⊎ A) → (Error ⊎ A) × List Statement
with_database connected statement answer =
    if connected then (answer, statement ∷ []) else (inl not_connected, [])

-- A check that fails returns before the database is asked.
abbrev pub guarded :
    {A : Type 0} → Bool → (Error ⊎ A) × List Statement → (Error ⊎ A) × List Statement
guarded good rest = if good then rest else (inl invalid_event, [])

abbrev pub affected : (failed : DbError → Error) → Executed → Error ⊎ ℕ
affected failed x = elim x.failure [
  | some err ↦ inl (failed err)
  | none ↦ elim x.rows_affected [ inl err ↦ inl database | inr n ↦ inr n ]
]

-- Nothing affected means that the event does not exist.
abbrev found : Error ⊎ ℕ → Error ⊎ Unit {0}
found (inl err) = inl err
found (inr n) = if n == 0 then inl event_not_found else inr tt

abbrev done : (failed : DbError → Error) → Option DbError → Error ⊎ Unit {0}
done failed none = inr tt
done failed (some err) = inl (failed err)

abbrev pub other : DbError → Error
other err = database

abbrev pub scanned : Queried → Error ⊎ List Event
scanned q = elim q.failure [ some err ↦ inl database | none ↦ scan_events [] q.rows q.rows_err ]

module _ (connected : Bool) where
  unfoldable pub create_event : Event → Executed → (Error ⊎ Unit {0}) × List Statement
  unfolding map_database_error
  create_event event x =
      guarded (validate_event event)
        (with_database connected (insert_event event) (done map_database_error x.failure))

  unfoldable pub update_event : Event → Executed → (Error ⊎ Unit {0}) × List Statement
  unfolding map_database_error
  update_event event x =
      guarded (validate_event event)
        (with_database connected (replace_event event) (found (affected map_database_error x)))

  unfoldable pub delete_event : Text → Executed → (Error ⊎ Unit {0}) × List Statement
  delete_event id x =
      guarded (not (is_blank id))
        (with_database connected (erase_event id) (found (affected other x)))

  unfoldable pub list_events : Text → Time → Time → Queried → (Error ⊎ List Event) × List Statement
  unfolding scan_events
  list_events user_id from to q = guarded (not (is_blank user_id)) (
      guarded (not (is_zero from || is_zero to || not (time_before from to)))
        (with_database connected (select_overlapping user_id from to) (scanned q)))

  unfoldable pub list_events_for_notification :
      Time → ℤ → Queried → (Error ⊎ List Event) × List Statement
  unfolding scan_events
  list_events_for_notification now limit q = guarded (not (is_zero now)) (
      guarded (not (leb_ℤ limit (pos 0)))
        (with_database connected (select_due now limit) (scanned q)))

  -- Whether one row was marked.
  unfoldable pub mark_notification_sent : Event → Time → Executed → (Error ⊎ Bool) × List Statement
  mark_notification_sent event sent_at x = guarded (validate_event event) (
      guarded (not (is_zero sent_at)) (
        with_database connected (mark_sent event sent_at)
          (elim (affected other x) [ inl err ↦ inl err | inr n ↦ inr (n == 1) ])))

  unfoldable pub delete_events_before : Time → Executed → (Error ⊎ Unit {0}) × List Statement
  delete_events_before cutoff x =
      guarded (not (is_zero cutoff))
        (with_database connected (erase_before cutoff) (done other x.failure))

  -- A notification that is not valid gives an error of its own, `invalid_event` here.
  unfoldable pub save_notification : Notification → Executed → (Error ⊎ Unit {0}) × List Statement
  unfolding validate
  save_notification n x = elim (validate n) [
    | some err ↦ (inl invalid_event, [])
    | none ↦ with_database connected (upsert_notification n) (done other x.failure)
  ]
