-- ===== src/Sql/Table/Listing.antt =====
-- What the methods of internal/storage/sql/scheduler.go give and do on a table.
use golang_hw.Calendar.Event.{Time, Event, Error, is_zero, validate_event}
use golang_hw.Prelude.Int.{ℤ, pos, pos_part, leb_ℤ}
use golang_hw.Prelude.{
  Bool, true, false, ◌≡◌, refl, sym, ap, ◌∙◌, List, [], ◌∷◌, ◌++◌, ◌⊎◌, inl, inr, none, Text, map,
  take, append_assoc, append-nil, ◌==◌,
}
use golang_hw.Sql.{
  Executed, Queried, select_due, mark_sent, scanned, affected, other, scan_events,
  list_events_for_notification, mark_notification_sent, delete_events_before,
}
use golang_hw.Sql.Table.{
  Row, due, query, execute, run_statement, on_rows, change_rows, lost, unanswered, mark_rows,
  keep_rows,
}

scan_events-map :
    (acc events : List Event) → scan_events acc (map inr events) none ≡ inr (acc ++ events)
unfolding scan_events
scan_events-map acc [] = ap inr (sym (append-nil acc))
scan_events-map acc (e ∷ events) =
    scan_events-map (acc ++ e ∷ []) events ∙ ap inr (append_assoc acc (e ∷ []) events)

-- What the method does behind its guards.
asked :
    (now : Time) (limit : ℤ) (q : Queried)
    → is_zero now ≡ false
    → leb_ℤ limit (pos 0) ≡ false
    → list_events_for_notification true now limit q ≡ (scanned q, select_due now limit ∷ [])
unfolding list_events_for_notification
asked now limit q z p = rw (z, p) refl

abbrev given : Error ⊎ List Event → List Event
given (inl err) = []
given (inr events) = events

module _ (reached : Time → Event → Bool) (id_before : Text → Text → Bool) where
  pub listed_due :
      (now : Time) (limit : ℤ) (rows : List Row)
      → is_zero now ≡ false
      → leb_ℤ limit (pos 0) ≡ false
      → on_rows reached id_before (list_events_for_notification true now limit) rows
        ≡ inr (take (pos_part limit) (due reached id_before now rows))
  unfolding query
  listed_due now limit rows z p =
      let q = query reached id_before (list_events_for_notification true now limit lost).1 rows in
      ap (λ x. x.0) (asked now limit q z p)
      ∙ ap (λ x. scanned (query reached id_before x.1 rows)) (asked now limit lost z p)
      ∙ scan_events-map [] (take (pos_part limit) (due reached id_before now rows))

abbrev one_marked : Executed → Error ⊎ Bool
one_marked x = elim (affected other x) [ inl err ↦ inl err | inr n ↦ inr (n == 1) ]

marking :
    (e : Event) (sent_at : Time) (x : Executed)
    → validate_event e ≡ true
    → is_zero sent_at ≡ false
    → mark_notification_sent true e sent_at x ≡ (one_marked x, mark_sent e sent_at ∷ [])
unfolding mark_notification_sent
marking e sent_at x v z = rw (v, z) refl

-- The marking of an event on a table.
pub marked_rows :
    (e : Event) (sent_at : Time) (rows : List Row)
    → validate_event e ≡ true
    → is_zero sent_at ≡ false
    → change_rows (mark_notification_sent true e sent_at) rows
      ≡ ((mark_rows e sent_at rows).1, inr ((mark_rows e sent_at rows).0 == 1))
unfolding execute run_statement
marked_rows e sent_at rows v z =
    let x = execute (mark_notification_sent true e sent_at unanswered).1 rows in
    ap (λ y. (x.1, y.0)) (marking e sent_at x.0 v z)
    ∙ ap (λ y. ((execute y.1 rows).1, one_marked (execute y.1 rows).0))
        (marking e sent_at unanswered v z)

pub kept_rows :
    (cutoff : Time) (rows : List Row)
    → is_zero cutoff ≡ false
    → change_rows (delete_events_before true cutoff) rows ≡ (keep_rows cutoff rows, inr tt)
unfolding delete_events_before execute run_statement
kept_rows cutoff rows z = rw (z) refl
