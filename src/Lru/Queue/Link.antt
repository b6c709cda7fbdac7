-- ===== src/Lru/Queue/Link.antt =====
-- A write through a pointer to the last item before a gap, or to the first item behind it. At `nil`
-- nothing is written.
use golang_hw.Lru.Queue.{
  Ptr, node, ListItem, Cells, update, Queue, set_next, set_prev, close_front, close_back,
}
use golang_hw.Lru.Queue.Seg.{Items, first, last, Seg, Out, Distinct, Seg-agree}
use golang_hw.Prelude.{ℕ, ◌≡◌, ◌≢◌, refl, sym, none, some, [], ◌∷◌, arith, All-map}

module _ {A : Type 0} where
  abbrev pub relink_next : Cells A → Ptr → Ptr → Cells A
  relink_next c none n = c
  relink_next c (some b) n = elim (c b) [ none ↦ c | some i ↦ update c b (record i { next = n }) ]

  abbrev pub relink_prev : Cells A → Ptr → Ptr → Cells A
  relink_prev c none p = c
  relink_prev c (some b) p = elim (c b) [ none ↦ c | some i ↦ update c b (record i { prev = p }) ]

  relink_next_other : (c : Cells A) (n : Ptr) (a b : ℕ) → b ≢ a → relink_next c (some b) n a ≡ c a
  relink_next_other c n a b h = ground arith

  relink_next-last :
      (c : Cells A) (n : Ptr) (a b : ℕ) (xs : Items A)
      → b ≢ a
      → Out a xs
      → relink_next c (last (some b) xs) n a ≡ c a
  relink_next-last c n a b [] h o = relink_next_other c n a b h
  relink_next-last c n a b ((d, v) ∷ xs) h (k, o) = relink_next-last c n a d xs k o

  -- An item outside the stretch is not touched.
  pub relink_next-Out :
      (c : Cells A) (n : Ptr) (a : ℕ) (xs : Items A)
      → Out a xs
      → relink_next c (last none xs) n a ≡ c a
  relink_next-Out c n a [] o = refl
  relink_next-Out c n a ((d, v) ∷ xs) (k, o) = relink_next-last c n a d xs k o

  pub relink_prev-Out :
      (c : Cells A) (p : Ptr) (a : ℕ) (xs : Items A)
      → Out a xs
      → relink_prev c (first xs none) p a ≡ c a
  relink_prev-Out c p a [] o = refl
  relink_prev-Out c p a ((d, v) ∷ xs) (k, o) = ground arith

  Seg-relink_next_from :
      (c : Cells A) (a : ℕ) (v : A) (xs : Items A) (p m n : Ptr)
      → Distinct ((a, v) ∷ xs)
      → Seg c p m ((a, v) ∷ xs)
      → Seg (relink_next c (last (some a) xs) n) p n ((a, v) ∷ xs)
  Seg-relink_next_from c a v [] p m n d (e, s) = (ground arith, tt)
  Seg-relink_next_from c a v ((b, w) ∷ xs) p m n ((h, o), d) (e, s) = (
    ground (arith, relink_next-last c n a b xs h o),
    Seg-relink_next_from c b w xs (some a) m n d s,
  )

  -- The last item of a stretch is made to point at `n`.
  pub Seg-relink_next :
      (c : Cells A) (xs : Items A) (m n : Ptr)
      → Distinct xs
      → Seg c none m xs
      → Seg (relink_next c (last none xs) n) none n xs
  Seg-relink_next c [] m n d s = tt
  Seg-relink_next c ((a, v) ∷ xs) m n d s = Seg-relink_next_from c a v xs none m n d s

  -- The first item of a stretch is made to point back at `p`.
  pub Seg-relink_prev :
      (c : Cells A) (xs : Items A) (q p : Ptr)
      → Distinct xs
      → Seg c q none xs
      → Seg (relink_prev c (first xs none) p) p none xs
  Seg-relink_prev c [] q p d s = tt
  Seg-relink_prev c ((a, v) ∷ xs) q p (o, d) (e, s) = (
    ground arith,
    Seg-agree c (relink_prev c (some a) p) xs (some a) none
        (All-map _ _ xs (λ e h. relink_prev-Out c p e.0 ((a, v) ∷ []) (λ q. h (sym q), tt)) o) s,
  )

  pub last_loaded :
      (c : Cells A) (a : ℕ) (v : A) (xs : Items A) (p m : Ptr)
      → Seg c p m ((a, v) ∷ xs)
      → (b : ℕ) × (i : ListItem A) × (last (some a) xs ≡ some b) × (c b ≡ some i)
  last_loaded c a v [] p m (e, s) = (a, node v m p, refl, e)
  last_loaded c a v ((b, w) ∷ xs) p m (e, s) = last_loaded c b w xs (some a) m s

  -- `p.Next = n` at the last item of a stretch.
  pub set_next-last :
      (c : Cells A) (x : ℕ × A) (xs : Items A) (m n : Ptr) (q : Queue A)
      → q.cell ≡ c
      → Seg c none m (x ∷ xs)
      → set_next (last none (x ∷ xs)) n q
        ≡ some (record q { cell = relink_next c (last none (x ∷ xs)) n })
  unfolding set_next
  set_next-last c (a, v) xs m n q e s =
      let (b, i, here, there) = last_loaded c a v xs none m s in rw here (ground arith)

  -- `p.Prev = m` at the first item of a stretch.
  pub set_prev-first :
      (c : Cells A) (x : ℕ × A) (xs : Items A) (p m : Ptr) (q : Queue A)
      → q.cell ≡ c
      → Seg c p none (x ∷ xs)
      → set_prev (first (x ∷ xs) none) m q
        ≡ some (record q { cell = relink_prev c (first (x ∷ xs) none) m })
  unfolding set_prev
  set_prev-first c (a, v) xs p m q e (here, s) = ground arith

  -- The item's neighbour before it, or the front, is made to point at what follows.
  pub close_front-bypass :
      (c : Cells A) (xs : Items A) (v : A) (m n : Ptr) (q : Queue A)
      → q.cell ≡ c
      → q.front ≡ first xs m
      → Seg c none m xs
      → close_front (node v n (last none xs)) q
        ≡ some (record q { cell = relink_next c (last none xs) n; front = first xs n })
  unfolding close_front set_next
  close_front-bypass c [] v m n q e f s = ground arith
  close_front-bypass c ((a, u) ∷ xs) v m n q e f s =
      let (b, i, here, there) = last_loaded c a u xs none m s in rw here (ground arith)

  -- The item's neighbour behind it, or the back, is made to point at what stands before.
  pub close_back-bypass :
      (c : Cells A) (ys : Items A) (v : A) (p m : Ptr) (q : Queue A)
      → q.cell ≡ c
      → q.back ≡ last p ys
      → Seg c p none ys
      → close_back (node v (first ys none) m) q
        ≡ some (record q { cell = relink_prev c (first ys none) m; back = last m ys })
  unfolding close_back set_prev
  close_back-bypass c [] v p m q e f s = ground arith
  close_back-bypass c ((a, u) ∷ ys) v p m q e f (here, s) = ground arith

  pub set_next_at :
      (a : ℕ) (i : ListItem A) (n : Ptr) (q : Queue A)
      → q.cell a ≡ some i
      → set_next (some a) n q ≡ some (record q { cell = update q.cell a (record i { next = n }) })
  unfolding set_next
  set_next_at a i n q e = ground arith

  pub set_prev_at :
      (a : ℕ) (i : ListItem A) (n : Ptr) (q : Queue A)
      → q.cell a ≡ some i
      → set_prev (some a) n q ≡ some (record q { cell = update q.cell a (record i { prev = n }) })
  unfolding set_prev
  set_prev_at a i n q e = ground arith
