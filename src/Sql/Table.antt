-- ===== src/Sql/Table.antt =====
-- The statements of internal/storage/sql/scheduler.go on the table of the events. Two things that
-- PostgreSQL settles are parameters: whether `start_at <= $1 + (notify_before_ns...) * INTERVAL` holds,
-- and how its collation orders two IDs. A table is the list of its rows, and no row stands twice with
-- one ID, the primary key.
pub mod Due
pub mod Good
pub mod Listing
use golang_hw.Calendar.Event.{Time, Duration, Event, Error, time_before, validate_event}
use golang_hw.Prelude.Int.{ℤ, pos, pos_part, ltb_ℤ, eq_ℤ}
use golang_hw.Prelude.Sort.{sort_slice}
use golang_hw.Prelude.{
  ℕ, ◌+◌, ◌-◌, Bool, true, false, not, ◌&&◌, ◌||◌, Option, none, some, List, [], ◌∷◌, ◌⊎◌, inl, inr,
  ◌≡◌, if◌then◌else◌, take, map, length, All, Text, text_eq, text_mem,
}
use golang_hw.Sql.{
  DbError, Statement, Executed, Queried, select_due, mark_sent, erase_before,
  list_events_for_notification, mark_notification_sent, delete_events_before,
}

pub record Row : Type 0 where
  pub event : Event
  pub notification_sent_at : Option Time

abbrev pub is_null : Option Time → Bool
is_null none = true
is_null (some t) = false

abbrev pub ids : List Row → List Text
ids rows = map (λ r. r.event.id) rows

-- No two rows with one ID.
abbrev pub Distinct : List Row → Type 0
Distinct [] = Unit
Distinct (r ∷ rows) = (text_mem r.event.id (ids rows) ≡ false) × Distinct rows

-- The condition of the UPDATE of `MarkNotificationSent`.
unfoldable pub is_snapshot : Event → Row → Bool
unfolding text_eq
is_snapshot e r =
    text_eq e.id r.event.id
    && (text_eq e.title r.event.title
        && (eq_ℤ e.start_at r.event.start_at
            && (text_eq e.user_id r.event.user_id
                && (eq_ℤ e.notify_before r.event.notify_before && is_null r.notification_sent_at))))

unfoldable pub mark_rows : Event → Time → List Row → ℕ × List Row
unfolding is_snapshot
mark_rows e sent_at [] = (0, [])
mark_rows e sent_at (r ∷ rows) =
    let rest = mark_rows e sent_at rows in
    if is_snapshot e r
    then (1 + rest.0, record { event = r.event; notification_sent_at = some sent_at } ∷ rest.1)
    else (rest.0, r ∷ rest.1)

-- `DELETE FROM events WHERE start_at < $1`
unfoldable pub keep_rows : Time → List Row → List Row
keep_rows cutoff [] = []
keep_rows cutoff (r ∷ rows) =
    let rest = keep_rows cutoff rows in
    if time_before r.event.start_at cutoff then rest else r ∷ rest

abbrev changed : ℕ → Executed
changed n = record { failure = none; rows_affected = inr n }

-- No answer.
abbrev pub unanswered : Executed
unanswered = record { failure = some (record { code = none }); rows_affected = inr 0 }

-- The statements of the scheduler that change rows, and the answers to them. The others have none here.
unfoldable pub run_statement : Statement → List Row → Executed × List Row
unfolding mark_rows keep_rows
run_statement (mark_sent e sent_at) rows = let m = mark_rows e sent_at rows in (changed m.0, m.1)
run_statement (erase_before cutoff) rows =
    let kept = keep_rows cutoff rows in (changed (length rows - length kept), kept)
run_statement _ rows = (unanswered, rows)

-- A method issues one statement, or none.
unfoldable pub execute : List Statement → List Row → Executed × List Row
unfolding run_statement
execute [] rows = (unanswered, rows)
execute (statement ∷ more) rows = run_statement statement rows

abbrev pub lost : Queried
lost = record { failure = some (record { code = none }); rows = []; rows_err = none }

module _ (reached : Time → Event → Bool) (id_before : Text → Text → Bool) where
  -- `ORDER BY start_at, id`
  unfoldable pub before : Event → Event → Bool
  before a b =
      time_before a.start_at b.start_at
      || (not (time_before b.start_at a.start_at) && id_before a.id b.id)

  -- The condition of the SELECT of `ListEventsForNotification`.
  unfoldable pub is_pending : Time → Row → Bool
  is_pending now r =
      ltb_ℤ (pos 0) r.event.notify_before
      && (is_null r.notification_sent_at
          && (time_before now r.event.start_at && reached now r.event))

  unfoldable pub pending : Time → List Row → List Event
  unfolding is_pending
  pending now [] = []
  pending now (r ∷ rows) =
      let rest = pending now rows in if is_pending now r then r.event ∷ rest else rest

  -- The events of the pending rows, in the order of the query.
  unfoldable pub due : Time → List Row → List Event
  unfolding pending before
  due now rows = sort_slice before (pending now rows)

  unfoldable pub query : List Statement → List Row → Queried
  unfolding due
  query (select_due now limit ∷ []) rows = record {
    failure = none;
    rows = map inr (take (pos_part limit) (due now rows));
    rows_err = none;
  }
  query _ rows = lost

  -- A method that runs with the answer to the statement that it issues.
  abbrev pub on_rows :
      {A : Type 0} → (Queried → (Error ⊎ A) × List Statement) → List Row → Error ⊎ A
  on_rows method rows = (method (query (method lost).1 rows)).0

-- The same for a method that changes rows.
abbrev pub change_rows :
    {A : Type 0} → (Executed → (Error ⊎ A) × List Statement) → List Row → List Row × (Error ⊎ A)
change_rows method rows = let x = execute (method unanswered).1 rows in (x.1, (method x.0).0)
