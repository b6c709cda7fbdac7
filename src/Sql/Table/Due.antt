-- ===== src/Sql/Table/Due.antt =====
-- A mark takes the first due event away, and only that.
use golang_hw.Calendar.Event.{Time, Event, time_before}
use golang_hw.Prelude.Int.{leb_ℤ}
use golang_hw.Prelude.Sort.{sort_slice, insert}
use golang_hw.Prelude.{
  Bool, true, false, some, List, [], ◌∷◌, ◌≡◌, ◌≢◌, ◌⊎◌, inl, inr, refl, sym, ap, ◌∙◌, arith, Text,
  text_eq, text_eq_refl, text_eq_iff, text_mem, Bool-cases, subst,
}
use golang_hw.Sql.Table.{
  Row, is_null, ids, Distinct, is_snapshot, mark_rows, keep_rows, before, is_pending, pending, due,
}

abbrev head_or : {A : Type 0} → A → List A → A
head_or a [] = a
head_or a (x ∷ l) = x

abbrev tail_of : {A : Type 0} → List A → List A
tail_of [] = []
tail_of (x ∷ l) = l

-- Where a list begins after an insertion: with the new element, or as before.
insert-head :
    {A : Type 0} (lt : A → A → Bool) (x e : A) (l rest : List A)
    → insert lt x l ≡ e ∷ rest
    → ((x ≡ e) × (l ≡ rest)) ⊎ ((m : List A) × (l ≡ e ∷ m) × (insert lt x m ≡ rest))
unfolding insert
insert-head lt x e [] rest h = inl (ap (head_or x) h, ap tail_of h)
insert-head lt x e (y ∷ l) rest h = elim (Bool-cases (lt x y)) [
  | inl p ↦
      let k : x ∷ y ∷ l ≡ e ∷ rest = ground (arith, p, h) in inl (ap (head_or x) k, ap tail_of k)
  | inr p ↦
      let k : y ∷ insert lt x l ≡ e ∷ rest = ground (arith, p, h) in
      inr (l, ap (λ z. z ∷ l) (ap (head_or y) k), ap tail_of k)
]

mark_rows-absent :
    (e : Event) (at : Time) (rows : List Row)
    → text_mem e.id (ids rows) ≡ false
    → mark_rows e at rows ≡ (0, rows)
unfolding mark_rows is_snapshot text_mem
mark_rows-absent e at [] h = refl
mark_rows-absent e at (r ∷ rows) h = ground (arith, mark_rows-absent e at rows)

-- A row with another ID stays as it is.
mark_rows-other :
    (e : Event) (at : Time) (r : Row) (rows : List Row)
    → text_eq e.id r.event.id ≡ false
    → mark_rows e at (r ∷ rows) ≡ ((mark_rows e at rows).0, r ∷ (mark_rows e at rows).1)
unfolding mark_rows is_snapshot
mark_rows-other e at r rows h = ground arith

-- The row of the event itself is marked, alone.
mark_rows-own :
    (at : Time) (r : Row) (rows : List Row)
    → is_null r.notification_sent_at ≡ true
    → text_mem r.event.id (ids rows) ≡ false
    → mark_rows r.event at (r ∷ rows)
      ≡ (1, record { event = r.event; notification_sent_at = some at } ∷ rows)
unfolding mark_rows is_snapshot
mark_rows-own at r rows n h = ground (
  arith,
  text_eq_refl r.event.id,
  text_eq_refl r.event.title,
  text_eq_refl r.event.user_id,
  mark_rows-absent r.event at rows h,
)

-- Two IDs of which one stands in the list.
differ :
    (s t : Text) (l : List Text) → text_mem t l ≡ false → text_mem s l ≡ true → text_eq s t ≡ false
differ s t l h k = elim (Bool-cases (text_eq s t)) [
  | inr p ↦ p
  | inl p ↦
      let q = subst (λ x. text_mem x l ≡ true) ((text_eq_iff s t).0 p) k in
      absurd (ground (arith, h, q))
]

module _ (reached : Time → Event → Bool) (id_before : Text → Text → Bool) (now : Time) where
  due-pending :
      (r : Row) (rows : List Row)
      → is_pending reached id_before now r ≡ true
      → due reached id_before now (r ∷ rows)
        ≡ insert (before reached id_before) r.event (due reached id_before now rows)
  unfolding due pending sort_slice
  due-pending r rows p = rw (p, pending) refl

  due-other :
      (r : Row) (rows : List Row)
      → is_pending reached id_before now r ≡ false
      → due reached id_before now (r ∷ rows) ≡ due reached id_before now rows
  unfolding due pending
  due-other r rows p = rw (p, pending) refl

  pending_null :
      (r : Row) → is_pending reached id_before now r ≡ true → is_null r.notification_sent_at ≡ true
  unfolding is_pending
  pending_null r p = ground arith

  sent_other :
      (e : Event) (at : Time)
      → is_pending reached id_before now (record { event = e; notification_sent_at = some at })
        ≡ false
  unfolding is_pending
  sent_other e at = ground arith

  -- What a mark of the first due event does.
  Marked : (e : Event) (at : Time) (rest : List Event) → List Row → Type 0
  Marked e at rest rows =
      (text_mem e.id (ids rows) ≡ true)
      × (due reached id_before now (mark_rows e at rows).1 ≡ rest)
      × ((mark_rows e at rows).0 ≡ 1)

  Marked-other :
      (e : Event) (at : Time) (rest : List Event) (r : Row) (rows : List Row)
      → is_pending reached id_before now r ≡ false
      → text_mem r.event.id (ids rows) ≡ false
      → Marked e at rest rows
      → Marked e at rest (r ∷ rows)
  unfolding Marked text_mem
  Marked-other e at rest r rows p a (m, d, n) =
      let u = mark_rows-other e at r rows (differ e.id r.event.id (ids rows) a m) in
      (
        ground (arith, m),
        ap (λ x. due reached id_before now x.1) u ∙ due-other r (mark_rows e at rows).1 p ∙ d,
        ap (λ x. x.0) u ∙ n,
      )

  Marked-behind :
      (e : Event) (at : Time) (m rest : List Event) (r : Row) (rows : List Row)
      → is_pending reached id_before now r ≡ true
      → text_mem r.event.id (ids rows) ≡ false
      → insert (before reached id_before) r.event m ≡ rest
      → Marked e at m rows
      → Marked e at rest (r ∷ rows)
  unfolding Marked text_mem
  Marked-behind e at m rest r rows p a s (k, d, n) =
      let u = mark_rows-other e at r rows (differ e.id r.event.id (ids rows) a k) in
      (
        ground (arith, k),
        ap (λ x. due reached id_before now x.1) u
            ∙ due-pending r (mark_rows e at rows).1 p
            ∙ ap (insert (before reached id_before) r.event) d
            ∙ s,
        ap (λ x. x.0) u ∙ n,
      )

  Marked-own :
      (at : Time) (rest : List Event) (r : Row) (rows : List Row)
      → is_pending reached id_before now r ≡ true
      → text_mem r.event.id (ids rows) ≡ false
      → due reached id_before now rows ≡ rest
      → Marked r.event at rest (r ∷ rows)
  unfolding Marked text_mem
  Marked-own at rest r rows p a q =
      let u = mark_rows-own at r rows (pending_null r p) a in
      let marked : Row = record { event = r.event; notification_sent_at = some at } in
      (
        ground (arith, text_eq_refl r.event.id),
        ap (λ x. due reached id_before now x.1) u
            ∙ due-other marked rows (sent_other r.event at)
            ∙ q,
        ap (λ x. x.0) u,
      )

  no_due : (e : Event) (rest : List Event) → due reached id_before now [] ≢ e ∷ rest
  unfolding due pending sort_slice
  no_due e rest h = absurd (ground arith)

  -- The mark of the first due event changes one row, and leaves due what came behind the event.
  due-mark_rows :
      (at : Time) (rows : List Row) (e : Event) (rest : List Event)
      → Distinct rows
      → due reached id_before now rows ≡ e ∷ rest
      → Marked e at rest rows
  due-mark_rows at [] e rest d h = absurd (no_due e rest h)
  due-mark_rows at (r ∷ rows) e rest (a, d) h =
      elim (Bool-cases (is_pending reached id_before now r)) [
        | inr p ↦
            Marked-other e at rest r rows p a
              (due-mark_rows at rows e rest d (sym (due-other r rows p) ∙ h))
        | inl p ↦
            elim (insert-head (before reached id_before) r.event e (due reached id_before now rows)
              rest (sym (due-pending r rows p) ∙ h)) [
                | inl (q, t) ↦
                    subst (λ x. Marked x at rest (r ∷ rows)) q (Marked-own at rest r rows p a t)
                | inr (m, q, t) ↦
                    Marked-behind e at m rest r rows p a t (due-mark_rows at rows e m d q)
              ]
      ]

  pub due-mark :
      (at : Time) (rows : List Row) (e : Event) (rest : List Event)
      → Distinct rows
      → due reached id_before now rows ≡ e ∷ rest
      → (due reached id_before now (mark_rows e at rows).1 ≡ rest) × ((mark_rows e at rows).0 ≡ 1)
  unfolding Marked
  due-mark at rows e rest d h = let (m, a, b) = due-mark_rows at rows e rest d h in (a, b)

  -- Events before a time that has passed are not pending.
  old_other :
      (cutoff : Time) (r : Row)
      → leb_ℤ cutoff now ≡ true
      → time_before r.event.start_at cutoff ≡ true
      → is_pending reached id_before now r ≡ false
  unfolding is_pending
  old_other cutoff r h k = ground (arith, h, k)

  pub due-keep_rows :
      (cutoff : Time) (rows : List Row)
      → leb_ℤ cutoff now ≡ true
      → due reached id_before now (keep_rows cutoff rows) ≡ due reached id_before now rows
  unfolding keep_rows
  due-keep_rows cutoff [] h = refl
  due-keep_rows cutoff (r ∷ rows) h =
      let rest = keep_rows cutoff rows in
      let ih = due-keep_rows cutoff rows h in
      elim (Bool-cases (time_before r.event.start_at cutoff)) [
        | inl old ↦ rw (old, keep_rows) (ih ∙ sym (due-other r rows (old_other cutoff r h old)))
        | inr new ↦ elim (Bool-cases (is_pending reached id_before now r)) [
          | inl p ↦
              rw (new, keep_rows)
                (due-pending r rest p
                  ∙ ap (insert (before reached id_before) r.event) ih
                  ∙ sym (due-pending r rows p))
          | inr p ↦ rw (new, keep_rows) (due-other r rest p ∙ ih ∙ sym (due-other r rows p))
        ]
      ]

-- The statements keep the IDs apart.
pub ids-mark_rows :
    (e : Event) (at : Time) (rows : List Row) → ids (mark_rows e at rows).1 ≡ ids rows
unfolding mark_rows
ids-mark_rows e at [] = refl
ids-mark_rows e at (r ∷ rows) = elim (Bool-cases (is_snapshot e r)) [
  | inl p ↦ rw (p, mark_rows) (ap (◌∷◌ r.event.id) (ids-mark_rows e at rows))
  | inr p ↦ rw (p, mark_rows) (ap (◌∷◌ r.event.id) (ids-mark_rows e at rows))
]
