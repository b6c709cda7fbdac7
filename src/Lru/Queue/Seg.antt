-- ===== src/Lru/Queue/Seg.antt =====
-- A stretch of linked items in the store, and what one write does to it.
use golang_hw.Lru.Queue.{Ptr, node, ListItem, Cells, update, Queue}
use golang_hw.Prelude.{
  ℕ, ◌<◌, ◌≡◌, ◌≢◌, refl, ◌∙◌, none, some, List, [], ◌∷◌, ◌++◌, All, arith, length, All-map,
}

-- The contents of a list: each item's address with its value.
abbrev pub Items : Type 0 → Type 0
Items A = List (ℕ × A)

module _ {A : Type 0} where
  -- The pointer to the first item, or to what follows.
  abbrev pub first : Items A → Ptr → Ptr
  first [] n = n
  first ((a, v) ∷ xs) n = some a

  -- The pointer to the last item, or to what stands before.
  abbrev pub last : Ptr → Items A → Ptr
  last p [] = p
  last p ((a, v) ∷ xs) = last (some a) xs

  -- The items are linked both ways, between `p` and `n`.
  abbrev pub Seg : Cells A → Ptr → Ptr → Items A → Type 0
  Seg c p n [] = Unit
  Seg c p n ((a, v) ∷ xs) = (c a ≡ some (node v (first xs n) p)) × Seg c (some a) n xs

  -- No item stands at the address.
  abbrev pub Out : ℕ → Items A → Type 0
  Out a xs = All (λ e. e.0 ≢ a) xs

  abbrev pub Distinct : Items A → Type 0
  Distinct [] = Unit
  Distinct (e ∷ xs) = Out e.0 xs × Distinct xs

  pub first-append : (xs ys : Items A) (n : Ptr) → first (xs ++ ys) n ≡ first xs (first ys n)
  first-append [] ys n = refl
  first-append (x ∷ xs) ys n = refl

  pub last-concat : (xs : Items A) (p : Ptr) (a : ℕ) (v : A) → last p (xs ++ (a, v) ∷ []) ≡ some a
  last-concat [] p a v = refl
  last-concat ((b, w) ∷ xs) p a v = last-concat xs (some b) a v

  pub last-append : (xs ys : Items A) (p : Ptr) → last p (xs ++ ys) ≡ last (last p xs) ys
  last-append [] ys p = refl
  last-append ((b, w) ∷ xs) ys p = last-append xs ys (some b)

  pub Seg-split :
      (c : Cells A) (xs ys : Items A) (p n : Ptr)
      → Seg c p n (xs ++ ys)
      → Seg c p (first ys n) xs × Seg c (last p xs) n ys
  Seg-split c [] ys p n s = (tt, s)
  Seg-split c ((a, v) ∷ xs) ys p n (e, s) =
      let (l, r) = Seg-split c xs ys (some a) n s in ((ground (arith, first-append xs ys n), l), r)

  pub Seg-join :
      (c : Cells A) (xs ys : Items A) (p n : Ptr)
      → Seg c p (first ys n) xs
      → Seg c (last p xs) n ys
      → Seg c p n (xs ++ ys)
  Seg-join c [] ys p n l r = r
  Seg-join c ((a, v) ∷ xs) ys p n (e, l) r =
      (ground (arith, first-append xs ys n), Seg-join c xs ys (some a) n l r)

  -- A write outside a stretch keeps it.
  pub Seg-frame :
      (c : Cells A) (xs : Items A) (p n : Ptr) (b : ℕ) (i : ListItem A)
      → Out b xs
      → Seg c p n xs
      → Seg (update c b i) p n xs
  Seg-frame c [] p n b i o s = tt
  Seg-frame c ((a, v) ∷ xs) p n b i (h, o) (e, s) =
      (ground arith, Seg-frame c xs (some a) n b i o s)

  -- The store holds the list of these contents, all at addresses that are handed out already.
  pub record Chain (c : Cells A) (n : ℕ) (xs : Items A) : Type 0 where
    pub linked : Seg c none none xs
    pub distinct : Distinct xs
    pub below : All (λ e. e.0 < n) xs

  -- The state of a list with these contents.
  abbrev pub queue_of : Cells A → ℕ → Items A → Queue A
  queue_of c n xs = record {
    cell = c;
    fresh = n;
    length = length xs;
    front = first xs none;
    back = last none xs;
  }

  -- The state represents the contents: its fields are those of the contents, and its items are linked
  -- in their order, in both directions.
  pub record IsQueue (q : Queue A) (xs : Items A) : Type 0 where
    pub fields : q ≡ queue_of q.cell q.fresh xs
    pub chain : Chain q.cell q.fresh xs

  -- What agrees with the store on a stretch links it as well.
  pub Seg-agree :
      (c c' : Cells A) (xs : Items A) (p n : Ptr)
      → All (λ e. c' e.0 ≡ c e.0) xs
      → Seg c p n xs
      → Seg c' p n xs
  Seg-agree c c' [] p n h s = tt
  Seg-agree c c' ((a, v) ∷ xs) p n (h, hs) (e, s) = (h ∙ e, Seg-agree c c' xs (some a) n hs s)

  pub Out-of_below : (xs : Items A) (n : ℕ) → All (λ e. e.0 < n) xs → Out n xs
  Out-of_below xs n h = All-map _ _ xs (λ e p. omega arith) h
