-- ===== src/Sql/Guards.antt =====
-- When the methods of internal/storage/sql succeed, and with which errors they fail.
use golang_hw.Calendar.Event.{Time, date_busy, Event, is_zero, validate_event}
use golang_hw.Prelude.Int.{ℤ, pos, leb_ℤ}
use golang_hw.Prelude.{
  subst, outcome-cases, Option-cases, ℕ, ◌≤◌, Bool, true, false, Option, none, some, List, [], ◌∷◌,
  ◌++◌, ◌≡◌, ◌↔◌, ◌⊎◌, inl, inr, Text, codes, arith, refl, append_assoc, append-nil, text_eq_iff,
  ap, ◌∙◌, sym,
}
use golang_hw.Sql.{
  DbError, map_database_error, Executed, Queried, scan_events, create_event, update_event,
  list_events_for_notification,
}

-- All rows are scanned, into these events.
unfoldable pub Scans : List (DbError ⊎ Event) → List Event → Type 0
Scans [] [] = Unit
Scans [] (e ∷ events) = ⊥
Scans (inl err ∷ rows) events = ⊥
Scans (inr e ∷ rows) [] = ⊥
Scans (inr e ∷ rows) (e' ∷ events) = (e ≡ e') × Scans rows events

scan_to :
    (acc : List Event) (rows : List (DbError ⊎ Event)) (err : Option DbError) (events : List Event)
    → scan_events acc rows err ≡ inr events
    → (found : List Event) × (Scans rows found) × (acc ++ found ≡ events) × (err ≡ none)
unfolding scan_events Scans
scan_to acc [] none events h = ([], tt, append-nil acc ∙ ground arith, refl)
scan_to acc [] (some err) events h = absurd (ground arith)
scan_to acc (inl e ∷ rows) err events h = absurd (ground arith)
scan_to acc (inr e ∷ rows) err events h =
    let r = scan_to (acc ++ e ∷ []) rows err events h in
    (e ∷ r.0, (refl, r.1), sym (append_assoc acc (e ∷ []) r.0) ∙ r.2, r.3)

scan_from :
    (acc : List Event) (rows : List (DbError ⊎ Event)) (events : List Event)
    → Scans rows events
    → scan_events acc rows none ≡ inr (acc ++ events)
unfolding scan_events Scans
scan_from acc [] (e ∷ events) h = absurd h
scan_from acc (inl err ∷ rows) events h = absurd h
scan_from acc (inr e ∷ rows) [] h = absurd h
scan_from acc [] [] h = ap inr (sym (append-nil acc))
scan_from acc (inr e ∷ rows) (e' ∷ events) (p, h) =
    scan_from (acc ++ e ∷ []) rows events h
    ∙ ap inr (append_assoc acc (e ∷ []) events ∙ ap (λ x. acc ++ x ∷ events) p)

Scans-unique :
    (rows : List (DbError ⊎ Event)) (a b : List Event) → Scans rows a → a ≡ b → Scans rows b
Scans-unique rows a b h p = subst (Scans rows) p h

-- `scanEvents` gives the events of the rows in their order, or fails.
scan_events_lem :
    (rows : List (DbError ⊎ Event)) (err : Option DbError) (events : List Event)
    → (scan_events [] rows err ≡ inr events) ↔ ((err ≡ none) × Scans rows events)
scan_events_lem rows err events = (
  λ h. let r = scan_to [] rows err events h in (r.3, Scans-unique rows r.0 events r.1 r.2),
  λ h. rw (h.0) (scan_from [] rows events h.1),
)

due_guards :
    (connected : Bool) (now : Time) (limit : ℤ) (q : Queried) (events : List Event)
    → (list_events_for_notification connected now limit q).0 ≡ inr events
    → (is_zero now ≡ false)
      × (leb_ℤ limit (pos 0) ≡ false)
      × (connected ≡ true)
      × (q.failure ≡ none)
      × (scan_events [] q.rows q.rows_err ≡ inr events)
unfolding list_events_for_notification
due_guards connected now limit q events h = ground arith

due_from :
    (connected : Bool) (now : Time) (limit : ℤ) (q : Queried) (events : List Event)
    → (is_zero now ≡ false)
      × (leb_ℤ limit (pos 0) ≡ false)
      × (connected ≡ true)
      × (q.failure ≡ none)
      × (scan_events [] q.rows q.rows_err ≡ inr events)
    → (list_events_for_notification connected now limit q).0 ≡ inr events
unfolding list_events_for_notification
due_from connected now limit q events h = ground arith

-- `ListEventsForNotification` gives a list of events exactly where the time is not zero, the limit is
-- positive, the storage is connected, the database accepts the query, and the rows, which all scan,
-- are these events in this order.
pub list_events_for_notification-Scans :
    (connected : Bool) (now : Time) (limit : ℤ) (q : Queried) (events : List Event)
    → ((list_events_for_notification connected now limit q).0 ≡ inr events) ↔ (
        (is_zero now ≡ false)
        × (leb_ℤ limit (pos 0) ≡ false)
        × (connected ≡ true)
        × (q.failure ≡ none)
        × (q.rows_err ≡ none)
        × Scans q.rows events)
list_events_for_notification-Scans connected now limit q events = (
  λ h.
      let g = due_guards connected now limit q events h in
      let r = (scan_events_lem q.rows q.rows_err events).0 g.4 in (g.0, g.1, g.2, g.3, r.0, r.1),
  λ g.
      due_from connected now limit q events
        (g.0, g.1, g.2, g.3, (scan_events_lem q.rows q.rows_err events).1 (g.4, g.5)),
)

-- The answer says that at least one row was changed.
unfoldable pub Changed : DbError ⊎ ℕ → Type 0
Changed (inl err) = ⊥
Changed (inr n) = 1 ≤ n

-- An update succeeds exactly where the event is valid, the storage is connected, the database accepts
-- the statement and says that it has changed at least one row.
update_event-Changed :
    (connected : Bool) (event : Event) (x : Executed)
    → ((update_event connected event x).0 ≡ inr tt) ↔ (
        (validate_event event ≡ true)
        × (connected ≡ true)
        × (x.failure ≡ none)
        × Changed x.rows_affected)
unfolding update_event Changed
update_event-Changed connected event x = elim (outcome-cases x.rows_affected) [
  | inl (e, p) ↦ rw (p) (ground arith)
  | inr (n, p) ↦ rw (p) (ground arith)
]

-- The failure is a `pq.Error` with this code.
unfoldable pub HasCode : Option DbError → Text → Type 0
HasCode none code = ⊥
HasCode (some err) code = err.code ≡ some code

-- `CreateEvent` says that the date is busy exactly where the event is valid, the storage is connected
-- and the database fails with the code 23P01 of an exclusion constraint.
create_event-date_busy :
    (connected : Bool) (event : Event) (x : Executed)
    → ((create_event connected event x).0 ≡ inl date_busy)
      ↔ ((validate_event event ≡ true) × (connected ≡ true) × HasCode x.failure (codes "23P01"))
unfolding create_event map_database_error HasCode
create_event-date_busy connected event x = elim (Option-cases x.failure) [
  | inl p ↦ rw (p) (ground arith)
  | inr (err, p) ↦ elim (Option-cases err.code) [
    | inl q ↦ rw (p, q) (ground arith)
    | inr (c, q) ↦
        rw (p, q)
          (ground (
            arith,
            text_eq_iff c (codes "23505"),
            text_eq_iff c (codes "23P01"),
            text_eq_iff c (codes "23514"),
          ))
  ]
]
