-- ===== src/Lru/Queue/Move.antt =====
-- `MoveToFront`.
use golang_hw.Lru.Queue.Link.{
  relink_next, relink_prev, relink_next-Out, relink_prev-Out, Seg-relink_prev, set_next-last,
  set_prev-first, close_back-bypass, set_next_at, set_prev_at,
}
use golang_hw.Lru.Queue.Remove.{
  Around, Chain-Around, bypass, bypass-Seg, bypass-item, after-relink, Around-Out, Around-Distinct,
  below-bypass,
}
use golang_hw.Lru.Queue.Seg.{
  Items, first, last, Seg, Out, Distinct, Seg-frame, last-append, Chain, queue_of, IsQueue,
}
use golang_hw.Lru.Queue.{node, Cells, update, Queue, splice, move_to_front}
use golang_hw.Prelude.{
  ℕ, ◌<◌, ◌≡◌, ◌≢◌, refl, none, some, [], ◌∷◌, ◌++◌, arith, length, length-append, All-right, ◌∙◌,
  ap,
}

module _ {A : Type 0} (c : Cells A) (n : ℕ) (x : ℕ × A) (xs : Items A) (a : ℕ) (v : A)
    (ys : Items A) where
  -- The store when the item is bypassed and points at the front.
  abbrev lifted : Cells A
  lifted =
      update (update (bypass c (x ∷ xs) ys) a (node v (first ys none) none)) a
        (node v (some x.0) none)

  abbrev moved : Cells A
  moved = relink_prev lifted (some x.0) (some a)

  lifted-Seg : Around c (x ∷ xs) a v ys → Seg lifted none none (x ∷ (xs ++ ys))
  lifted-Seg w = Seg-frame _ (x ∷ (xs ++ ys)) none none a (node v (some x.0) none) out (
      Seg-frame _ (x ∷ (xs ++ ys)) none none a (node v (first ys none) none) out
        (bypass-Seg c (x ∷ xs) a v ys w))
    where
      out : Out a (x ∷ (xs ++ ys))
      out = Around-Out c (x ∷ xs) a v ys w

  splice_state :
      Around c (x ∷ xs) a v ys
      → splice a (queue_of c n ((x ∷ xs) ++ (a, v) ∷ ys))
        ≡ some (record {
          cell = moved;
          fresh = n;
          length = length ((x ∷ xs) ++ (a, v) ∷ ys);
          front = some a;
          back = last (last none (x ∷ xs)) ys;
        })
  splice_state w = ground (
    arith,
    w.item,
    set_next-last c x xs (some a) (first ys none) q₀ refl w.before,
    relink_next-Out c (first ys none) a (x ∷ xs) w.out_before,
    close_back-bypass c₁ ys v (some a) (last none (x ∷ xs)) q₁ refl
        (last-append (x ∷ xs) ((a, v) ∷ ys) none) (after-relink c (x ∷ xs) a v ys w),
    bypass-item c (x ∷ xs) a v ys w,
    set_prev_at a (node v (first ys none) (last none (x ∷ xs))) none q₂
        (bypass-item c (x ∷ xs) a v ys w),
    set_next_at a (node v (first ys none) none) (some x.0) q₃ (ground arith),
    set_prev-first lifted x (xs ++ ys) none (some a) q₄ refl (lifted-Seg w),
  )
    where
      c₁ : Cells A
      c₁ = relink_next c (last none (x ∷ xs)) (first ys none)

      q₀ : Queue A
      q₀ = queue_of c n ((x ∷ xs) ++ (a, v) ∷ ys)

      q₁ : Queue A
      q₁ = record q₀ { cell = c₁ }

      q₂ : Queue A
      q₂ = record q₁ { cell = bypass c (x ∷ xs) ys; back = last (last none (x ∷ xs)) ys }

      q₃ : Queue A
      q₃ = record q₂ { cell = update (bypass c (x ∷ xs) ys) a (node v (first ys none) none) }

      q₄ : Queue A
      q₄ = record q₃ { cell = lifted }

  queue_of-moved :
      (c' : Cells A)
      → ◌≡◌ {A = Queue A}
          (record {
            cell = c';
            fresh = n;
            length = length ((x ∷ xs) ++ (a, v) ∷ ys);
            front = some a;
            back = last (last none (x ∷ xs)) ys;
          })
          (queue_of c' n ((a, v) ∷ x ∷ (xs ++ ys)))
  queue_of-moved c' =
      ground
        (arith, last-append xs ys (some x.0), length-append xs ys, length-append xs ((a, v) ∷ ys))

  splice-Chain :
      Chain c n ((x ∷ xs) ++ (a, v) ∷ ys)
      → (c' : Cells A) × (splice a (queue_of c n ((x ∷ xs) ++ (a, v) ∷ ys))
          ≡ some (queue_of c' n ((a, v) ∷ x ∷ (xs ++ ys))))
        × Chain c' n ((a, v) ∷ x ∷ (xs ++ ys))
  splice-Chain w = (
    moved,
    splice_state around ∙ ap some (queue_of-moved moved),
    record {
      linked = (
        ground (arith, relink_prev-Out lifted (some a) a (x ∷ []) (around.out_before.0, tt)),
        Seg-relink_prev lifted (x ∷ (xs ++ ys)) none (some a) distinct (lifted-Seg around),
      );
      distinct = (Around-Out c (x ∷ xs) a v ys around, distinct);
      below = (here, below-bypass n (x ∷ xs) a v ys w.below);
    },
  )
    where
      around : Around c (x ∷ xs) a v ys
      around = Chain-Around c n (x ∷ xs) a v ys w

      distinct : Distinct (x ∷ (xs ++ ys))
      distinct = Around-Distinct c (x ∷ xs) a v ys around

      here : a < n
      here = (All-right _ (x ∷ xs) ((a, v) ∷ ys) w.below).0

module _ {A : Type 0} where
  move_to_front-Chain :
      (c : Cells A) (n : ℕ) (xs : Items A) (a : ℕ) (v : A) (ys : Items A)
      → Chain c n (xs ++ (a, v) ∷ ys)
      → (c' : Cells A) × (move_to_front a (queue_of c n (xs ++ (a, v) ∷ ys))
          ≡ some (queue_of c' n ((a, v) ∷ (xs ++ ys))))
        × Chain c' n ((a, v) ∷ (xs ++ ys))
  unfolding move_to_front
  move_to_front-Chain c n [] a v ys w = (c, ground arith, w)
  move_to_front-Chain c n (x ∷ xs) a v ys w =
      let (c', e, h) = splice-Chain c n x xs a v ys w in
      let o : x.0 ≢ a = (Chain-Around c n (x ∷ xs) a v ys w).out_before.0 in
      let e' : move_to_front a (queue_of c n ((x ∷ xs) ++ (a, v) ∷ ys))
          ≡ splice a (queue_of c n ((x ∷ xs) ++ (a, v) ∷ ys)) =
        ground arith in
      (c', e' ∙ e, h)

  -- `MoveToFront` brings any item of a list to its front and keeps the order of the others: it
  -- follows no nil pointer, and `Front`, `Back` and the links in both directions are right.
  pub move_to_front-IsQueue :
      (q : Queue A) (xs : Items A) (a : ℕ) (v : A) (ys : Items A)
      → IsQueue q (xs ++ (a, v) ∷ ys)
      → (q' : Queue A) × (move_to_front a q ≡ some q')
        × IsQueue q' ((a, v) ∷ (xs ++ ys))
        × (q'.fresh ≡ q.fresh)
  move_to_front-IsQueue q xs a v ys w =
      let (c, e, h) = move_to_front-Chain q.cell q.fresh xs a v ys w.chain in
      (
        queue_of c q.fresh ((a, v) ∷ (xs ++ ys)),
        ap (move_to_front a) w.fields ∙ e,
        record { fields = refl; chain = h },
        refl,
      )
