-- ===== src/Sql/Table/Good.antt =====
-- What the statements of internal/storage/sql/scheduler.go keep: one row per ID, and valid events.
use golang_hw.Calendar.Event.{Time, Event, Error, time_before, validate_event}
use golang_hw.Prelude.Sort.{insert, sort_slice}
use golang_hw.Prelude.{
  Bool, true, false, List, [], ◌∷◌, ◌≡◌, ◌⊎◌, inl, inr, refl, sym, subst, All, Text, text_mem,
  Bool-cases, arith,
}
use golang_hw.Sql.{
  Statement, insert_event, replace_event, erase_event, select_overlapping, select_due, mark_sent,
  erase_before, upsert_notification, Executed,
}
use golang_hw.Sql.Table.Due.{ids-mark_rows}
use golang_hw.Sql.Table.{
  Row, ids, Distinct, is_snapshot, mark_rows, keep_rows, run_statement, execute, change_rows,
  unanswered, pending, due, is_pending, before,
}

-- Every event of the table is valid, as its CHECK constraints have it.
abbrev pub Valid : List Row → Type 0
Valid rows = All (λ r. validate_event r.event ≡ true) rows

abbrev pub Good : List Row → Type 0
Good rows = Distinct rows × Valid rows

Good-mark_rows :
    (e : Event) (at : Time) (rows : List Row) → Good rows → Good (mark_rows e at rows).1
unfolding mark_rows
Good-mark_rows e at [] g = g
Good-mark_rows e at (r ∷ rows) ((a, d), (v, w)) =
    let (d', w') = Good-mark_rows e at rows (d, w) in
    let a' = subst (λ x. text_mem r.event.id x ≡ false) (sym (ids-mark_rows e at rows)) a in
    elim (Bool-cases (is_snapshot e r)) [
      | inl p ↦ rw (p, mark_rows) ((a', d'), (v, w'))
      | inr p ↦ rw (p, mark_rows) ((a', d'), (v, w'))
    ]

text_mem-keep_rows :
    (cutoff : Time) (s : Text) (rows : List Row)
    → text_mem s (ids rows) ≡ false
    → text_mem s (ids (keep_rows cutoff rows)) ≡ false
unfolding keep_rows text_mem
text_mem-keep_rows cutoff s [] h = refl
text_mem-keep_rows cutoff s (r ∷ rows) h =
    let tail : text_mem s (ids rows) ≡ false = ground (arith, h) in
    let ih = text_mem-keep_rows cutoff s rows tail in
    elim (Bool-cases (time_before r.event.start_at cutoff)) [
      | inl p ↦ rw (p, keep_rows) ih
      | inr p ↦ rw (p, keep_rows) (ground (arith, h, ih))
    ]

Good-keep_rows : (cutoff : Time) (rows : List Row) → Good rows → Good (keep_rows cutoff rows)
unfolding keep_rows
Good-keep_rows cutoff [] g = g
Good-keep_rows cutoff (r ∷ rows) ((a, d), (v, w)) =
    let (d', w') = Good-keep_rows cutoff rows (d, w) in
    elim (Bool-cases (time_before r.event.start_at cutoff)) [
      | inl p ↦ rw (p, keep_rows) (d', w')
      | inr p ↦ rw (p, keep_rows) ((text_mem-keep_rows cutoff r.event.id rows a, d'), (v, w'))
    ]

Good-run_statement : (st : Statement) (rows : List Row) → Good rows → Good (run_statement st rows).1
unfolding run_statement
Good-run_statement (mark_sent e at) rows g = Good-mark_rows e at rows g
Good-run_statement (erase_before cutoff) rows g = Good-keep_rows cutoff rows g
Good-run_statement (insert_event e) rows g = g
Good-run_statement (replace_event e) rows g = g
Good-run_statement (erase_event id) rows g = g
Good-run_statement (select_overlapping u a b) rows g = g
Good-run_statement (select_due now limit) rows g = g
Good-run_statement (upsert_notification n) rows g = g

Good-execute : (st : List Statement) (rows : List Row) → Good rows → Good (execute st rows).1
unfolding execute
Good-execute [] rows g = g
Good-execute (st ∷ more) rows g = Good-run_statement st rows g

pub change_rows-Good :
    {A : Type 0} (method : Executed → (Error ⊎ A) × List Statement) (rows : List Row)
    → Good rows
    → Good (change_rows method rows).0
change_rows-Good method rows g = Good-execute (method unanswered).1 rows g

All-insert :
    {A : Type 0} (P : A → Type 0) (lt : A → A → Bool) (x : A) (l : List A)
    → P x
    → All P l
    → All P (insert lt x l)
unfolding insert
All-insert P lt x [] p a = (p, tt)
All-insert P lt x (y ∷ l) p (q, a) = elim (Bool-cases (lt x y)) [
  | inl b ↦ rw (b) (p, (q, a))
  | inr b ↦ rw (b) (q, All-insert P lt x l p a)
]

module _ (reached : Time → Event → Bool) (id_before : Text → Text → Bool) where
  -- What is due is valid.
  pub due-Valid :
      (now : Time) (rows : List Row)
      → Valid rows
      → All (λ e. validate_event e ≡ true) (due reached id_before now rows)
  unfolding due pending sort_slice
  due-Valid now [] v = tt
  due-Valid now (r ∷ rows) (v, w) =
      let ih = due-Valid now rows w in
      elim (Bool-cases (is_pending reached id_before now r)) [
        | inl p ↦
            rw (p, pending)
              (All-insert (λ e. validate_event e ≡ true) (before reached id_before) r.event
                (due reached id_before now rows) v ih)
        | inr p ↦ rw (p, pending) ih
      ]
