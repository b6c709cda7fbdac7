-- ===== src/Lru/Queue/Push.antt =====
-- `NewList`, `PushFront` and `PushBack`.
use golang_hw.Lru.Queue.Link.{
  relink_next, relink_prev, relink_next-Out, relink_prev-Out, Seg-relink_next, Seg-relink_prev,
  set_next-last, set_prev-first, last_loaded,
}
use golang_hw.Lru.Queue.Seg.{
  Items, first, last, Seg, Out, Distinct, Seg-join, Seg-frame, last-concat, Chain, queue_of,
  IsQueue, Out-of_below,
}
use golang_hw.Lru.Queue.{node, Cells, update, Queue, new_list, push_front, push_back}
use golang_hw.Prelude.{
  ℕ, suc, ◌<◌, ◌≡◌, refl, none, some, [], ◌∷◌, ◌++◌, All, arith, length-append, All-append, All-map,
  ◌∙◌, ap,
}

module _ {A : Type 0} where
  pub new_list-IsQueue : (c : Cells A) (n : ℕ) → IsQueue (new_list c n) []
  unfolding new_list
  new_list-IsQueue c n = record {
    fields = refl;
    chain = record { linked = tt; distinct = tt; below = tt };
  }

  below_suc : (xs : Items A) (n : ℕ) → All (λ e. e.0 < n) xs → All (λ e. e.0 < suc n) xs
  below_suc xs n h = All-map _ _ xs (λ e p. omega arith) h

  Distinct-concat :
      (xs : Items A) (b : ℕ) (w : A) → Distinct xs → Out b xs → Distinct (xs ++ (b, w) ∷ [])
  Distinct-concat [] b w d o = (tt, tt)
  Distinct-concat (x ∷ xs) b w (o', d) (h, o) =
      (All-append _ xs ((b, w) ∷ []) o' (ground arith, tt), Distinct-concat xs b w d o)

  pub push_front-Chain :
      (v : A) (c : Cells A) (n : ℕ) (xs : Items A)
      → Chain c n xs
      → (c' : Cells A) × (push_front v (queue_of c n xs)
          ≡ some (queue_of c' (suc n) ((n, v) ∷ xs), n))
        × Chain c' (suc n) ((n, v) ∷ xs)
  unfolding push_front
  push_front-Chain v c n xs w = (
    linked-cells,
    state xs w.linked fresh,
    record {
      linked = (
        relink_prev-Out c₁ (some n) n xs fresh ∙ ground arith,
        Seg-relink_prev c₁ xs none (some n) w.distinct
            (Seg-frame c xs none none n _ fresh w.linked),
      );
      distinct = (fresh, w.distinct);
      below = (omega arith, below_suc xs n w.below);
    },
  )
    where
      c₁ : Cells A
      c₁ = update c n (node v (first xs none) none)

      linked-cells : Cells A
      linked-cells = relink_prev c₁ (first xs none) (some n)

      fresh : Out n xs
      fresh = Out-of_below xs n w.below

      state :
          (zs : Items A)
          → Seg c none none zs
          → Out n zs
          → push_front v (queue_of c n zs)
            ≡ some (
              queue_of
                  (relink_prev (update c n (node v (first zs none) none)) (first zs none) (some n))
                  (suc n)
                  ((n, v) ∷ zs),
              n,
            )
      state [] s o = ground arith
      state (z ∷ zs) s o = ground (
        arith,
        set_prev-first (update c n (node v (some z.0) none)) z zs none (some n)
            (record (queue_of c n (z ∷ zs)) {
              cell = update c n (node v (some z.0) none);
              fresh = suc n;
            })
            refl (Seg-frame c (z ∷ zs) none none n (node v (some z.0) none) o s),
      )

  pub push_back-Chain :
      (v : A) (c : Cells A) (n : ℕ) (xs : Items A)
      → Chain c n xs
      → (c' : Cells A) × (push_back v (queue_of c n xs)
          ≡ some (queue_of c' (suc n) (xs ++ (n, v) ∷ []), n))
        × Chain c' (suc n) (xs ++ (n, v) ∷ [])
  unfolding push_back
  push_back-Chain v c n xs w = (
    relink_next c₁ (last none xs) (some n),
    state xs w.linked fresh,
    record {
      linked =
          Seg-join _ xs ((n, v) ∷ []) none none
            (Seg-relink_next c₁ xs none (some n) w.distinct
              (Seg-frame c xs none none n _ fresh w.linked))
            (relink_next-Out c₁ (some n) n xs fresh ∙ ground arith, tt);
      distinct = Distinct-concat xs n v w.distinct fresh;
      below = All-append _ xs ((n, v) ∷ []) (below_suc xs n w.below) (omega arith, tt);
    },
  )
    where
      c₁ : Cells A
      c₁ = update c n (node v none (last none xs))

      fresh : Out n xs
      fresh = Out-of_below xs n w.below

      state :
          (zs : Items A)
          → Seg c none none zs
          → Out n zs
          → push_back v (queue_of c n zs)
            ≡ some (
              queue_of
                  (relink_next (update c n (node v none (last none zs))) (last none zs) (some n))
                  (suc n)
                  (zs ++ (n, v) ∷ []),
              n,
            )
      state [] s o = ground arith
      state (z ∷ zs) s o =
          let (b, i, here, there) = last_loaded c z.0 z.1 zs none none s in
          ground (
            arith,
            here,
            last-concat zs (some z.0) n v,
            length-append zs ((n, v) ∷ []),
            set_next-last (update c n (node v none (last none (z ∷ zs)))) z zs none (some n)
                (record (queue_of c n (z ∷ zs)) {
                  cell = update c n (node v none (last none (z ∷ zs)));
                  fresh = suc n;
                })
                refl (Seg-frame c (z ∷ zs) none none n (node v none (last none (z ∷ zs))) o s),
          )

  -- `PushFront` puts a new item before all that the list holds, and returns it.
  pub push_front-IsQueue :
      (v : A) (q : Queue A) (xs : Items A)
      → IsQueue q xs
      → (q' : Queue A) × (push_front v q ≡ some (q', q.fresh))
        × IsQueue q' ((q.fresh, v) ∷ xs)
        × (q'.fresh ≡ suc q.fresh)
  push_front-IsQueue v q xs w =
      let (c, e, h) = push_front-Chain v q.cell q.fresh xs w.chain in
      (
        queue_of c (suc q.fresh) ((q.fresh, v) ∷ xs),
        ap (push_front v) w.fields ∙ e,
        record { fields = refl; chain = h },
        refl,
      )

  -- `PushBack` puts a new item behind all that the list holds, and returns it.
  push_back-IsQueue :
      (v : A) (q : Queue A) (xs : Items A)
      → IsQueue q xs
      → (q' : Queue A) × (push_back v q ≡ some (q', q.fresh)) × IsQueue q' (xs ++ (q.fresh, v) ∷ [])
  push_back-IsQueue v q xs w =
      let (c, e, h) = push_back-Chain v q.cell q.fresh xs w.chain in
      (
        queue_of c (suc q.fresh) (xs ++ (q.fresh, v) ∷ []),
        ap (push_back v) w.fields ∙ e,
        record { fields = refl; chain = h },
      )
