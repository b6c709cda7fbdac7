-- ===== src/Lru/Queue/Remove.antt =====
-- `Remove` unlinks any item of the list.
use golang_hw.Lru.Queue.Link.{
  relink_next, relink_prev, close_front-bypass, close_back-bypass, set_next_at, set_prev_at,
  relink_next-Out, relink_prev-Out, Seg-relink_next, Seg-relink_prev,
}
use golang_hw.Lru.Queue.Seg.{
  Items, first, last, Seg, Out, Distinct, Seg-split, Seg-join, Seg-agree, Seg-frame, IsQueue,
  last-append, first-append, Chain, queue_of,
}
use golang_hw.Lru.Queue.{node, Cells, update, Queue, remove}
use golang_hw.Prelude.{
  ℕ, ◌-◌, ◌<◌, ◌≡◌, refl, none, some, [], ◌∷◌, ◌++◌, All, arith, length, length-append, All-append,
  All-map, All-left, All-right, ◌∙◌, sym, ap,
}

module _ {A : Type 0} where
  -- What the store holds around an item of a list.
  pub record Around (c : Cells A) (xs : Items A) (a : ℕ) (v : A) (ys : Items A) : Type 0 where
    pub before : Seg c none (some a) xs
    pub item : c a ≡ some (node v (first ys none) (last none xs))
    pub after : Seg c (some a) none ys
    pub out_before : Out a xs
    pub out_after : Out a ys
    pub left : Distinct xs
    pub right : Distinct ys
    pub apart : All (λ e. Out e.0 xs) ys
    pub apart' : All (λ e. Out e.0 ys) xs

  Distinct-left : (xs ys : Items A) → Distinct (xs ++ ys) → Distinct xs
  Distinct-left [] ys d = tt
  Distinct-left (x ∷ xs) ys (o, d) = (All-left _ xs ys o, Distinct-left xs ys d)

  Distinct-right : (xs ys : Items A) → Distinct (xs ++ ys) → Distinct ys
  Distinct-right [] ys d = d
  Distinct-right (x ∷ xs) ys (o, d) = Distinct-right xs ys d

  apart-of : (xs ys : Items A) → Distinct (xs ++ ys) → All (λ e. Out e.0 ys) xs
  apart-of [] ys d = tt
  apart-of (x ∷ xs) ys (o, d) = (All-right _ xs ys o, apart-of xs ys d)

  apart-cons :
      (x : ℕ × A) (xs ys : Items A)
      → Out x.0 ys
      → All (λ e. Out e.0 xs) ys
      → All (λ e. Out e.0 (x ∷ xs)) ys
  apart-cons x xs [] o h = tt
  apart-cons x xs (y ∷ ys) (k, o) (h, hs) = (((λ e. k (sym e)), h), apart-cons x xs ys o hs)

  apart-nil : (ys : Items A) → All (λ e. Out {A = A} e.0 []) ys
  apart-nil [] = tt
  apart-nil (y ∷ ys) = (tt, apart-nil ys)

  apart_sym : (xs ys : Items A) → All (λ e. Out e.0 ys) xs → All (λ e. Out e.0 xs) ys
  apart_sym [] ys h = apart-nil ys
  apart_sym (x ∷ xs) ys (o, h) = apart-cons x xs ys o (apart_sym xs ys h)

  pub Chain-Around :
      (c : Cells A) (n : ℕ) (xs : Items A) (a : ℕ) (v : A) (ys : Items A)
      → Chain c n (xs ++ (a, v) ∷ ys)
      → Around c xs a v ys
  Chain-Around c n xs a v ys w = record {
    before = halves.0;
    item = halves.1.0;
    after = halves.1.1;
    out_before = (apart_sym xs ((a, v) ∷ ys) both).0;
    out_after = (Distinct-right xs ((a, v) ∷ ys) w.distinct).0;
    left = Distinct-left xs ((a, v) ∷ ys) w.distinct;
    right = (Distinct-right xs ((a, v) ∷ ys) w.distinct).1;
    apart = (apart_sym xs ((a, v) ∷ ys) both).1;
    apart' = All-map _ _ xs (λ e o. o.1) both;
  }
    where
      halves : Seg c none (some a) xs × Seg c (last none xs) none ((a, v) ∷ ys)
      halves = Seg-split c xs ((a, v) ∷ ys) none none w.linked

      both : All (λ e. Out e.0 ((a, v) ∷ ys)) xs
      both = apart-of xs ((a, v) ∷ ys) w.distinct

  Distinct-join :
      (xs ys : Items A) → Distinct xs → Distinct ys → All (λ e. Out e.0 ys) xs → Distinct (xs ++ ys)
  Distinct-join [] ys d d' h = d'
  Distinct-join (x ∷ xs) ys (o, d) d' (k, h) = (All-append _ xs ys o k, Distinct-join xs ys d d' h)

  -- The store with the item bypassed.
  abbrev pub bypass : Cells A → Items A → Items A → Cells A
  bypass c xs ys =
      relink_prev (relink_next c (last none xs) (first ys none)) (first ys none) (last none xs)

  pub bypass-Seg :
      (c : Cells A) (xs : Items A) (a : ℕ) (v : A) (ys : Items A)
      → Around c xs a v ys
      → Seg (bypass c xs ys) none none (xs ++ ys)
  bypass-Seg c xs a v ys w =
      Seg-join _ xs ys none none
        (Seg-agree c₁ (bypass c xs ys) xs none (first ys none)
          (All-map _ _ xs (λ e o. relink_prev-Out c₁ (last none xs) e.0 ys o) w.apart')
          (Seg-relink_next c xs (some a) (first ys none) w.left w.before))
        (Seg-relink_prev c₁ ys (some a) (last none xs) w.right (
          Seg-agree c c₁ ys (some a) none
            (All-map _ _ ys (λ e o. relink_next-Out c (first ys none) e.0 xs o) w.apart) w.after))
    where
      c₁ : Cells A
      c₁ = relink_next c (last none xs) (first ys none)

  -- The bypassed item itself stays as it was.
  pub bypass-item :
      (c : Cells A) (xs : Items A) (a : ℕ) (v : A) (ys : Items A)
      → Around c xs a v ys
      → bypass c xs ys a ≡ some (node v (first ys none) (last none xs))
  bypass-item c xs a v ys w =
      relink_prev-Out (relink_next c (last none xs) (first ys none)) (last none xs) a ys w.out_after
      ∙ relink_next-Out c (first ys none) a xs w.out_before
      ∙ w.item

  -- The stretch behind the item, once the item before it points past it.
  pub after-relink :
      (c : Cells A) (xs : Items A) (a : ℕ) (v : A) (ys : Items A)
      → Around c xs a v ys
      → Seg (relink_next c (last none xs) (first ys none)) (some a) none ys
  after-relink c xs a v ys w =
      Seg-agree c _ ys (some a) none
        (All-map _ _ ys (λ e o. relink_next-Out c (first ys none) e.0 xs o) w.apart) w.after

  -- The store behind `Remove`: the item is bypassed, and points nowhere.
  abbrev cleared : Cells A → Items A → ℕ → A → Items A → Cells A
  cleared c xs a v ys =
      update (update (bypass c xs ys) a (node v none (last none xs))) a (node v none none)

  remove_state :
      (c : Cells A) (n : ℕ) (xs : Items A) (a : ℕ) (v : A) (ys : Items A)
      → Around c xs a v ys
      → remove a (queue_of c n (xs ++ (a, v) ∷ ys))
        ≡ some (record {
          cell = cleared c xs a v ys;
          fresh = n;
          length = length (xs ++ (a, v) ∷ ys) - 1;
          front = first xs (first ys none);
          back = last (last none xs) ys;
        })
  unfolding remove
  remove_state c n xs a v ys w = ground (
    arith,
    w.item,
    close_front-bypass c xs v (some a) (first ys none) (queue_of c n (xs ++ (a, v) ∷ ys)) refl
        (first-append xs ((a, v) ∷ ys) none) w.before,
    bypass-item c xs a v ys w,
    relink_next-Out c (first ys none) a xs w.out_before,
    close_back-bypass c₁ ys v (some a) (last none xs) q₁ refl (last-append xs ((a, v) ∷ ys) none)
        (after-relink c xs a v ys w),
    set_next_at a (node v (first ys none) (last none xs)) none q₂ (bypass-item c xs a v ys w),
    set_prev_at a (node v none (last none xs)) none q₃ (ground arith),
  )
    where
      c₁ : Cells A
      c₁ = relink_next c (last none xs) (first ys none)

      q₁ : Queue A
      q₁ = record (queue_of c n (xs ++ (a, v) ∷ ys)) { cell = c₁; front = first xs (first ys none) }

      q₂ : Queue A
      q₂ = record q₁ { cell = bypass c xs ys; back = last (last none xs) ys }

      q₃ : Queue A
      q₃ = record q₂ { cell = update (bypass c xs ys) a (node v none (last none xs)) }

  pub Around-Out :
      (c : Cells A) (xs : Items A) (a : ℕ) (v : A) (ys : Items A)
      → Around c xs a v ys
      → Out a (xs ++ ys)
  Around-Out c xs a v ys w = All-append _ xs ys w.out_before w.out_after

  pub Around-Distinct :
      (c : Cells A) (xs : Items A) (a : ℕ) (v : A) (ys : Items A)
      → Around c xs a v ys
      → Distinct (xs ++ ys)
  Around-Distinct c xs a v ys w = Distinct-join xs ys w.left w.right w.apart'

  pub below-bypass :
      (n : ℕ) (xs : Items A) (a : ℕ) (v : A) (ys : Items A)
      → All (λ e. e.0 < n) (xs ++ (a, v) ∷ ys)
      → All (λ e. e.0 < n) (xs ++ ys)
  below-bypass n xs a v ys h =
      All-append _ xs ys (All-left _ xs ((a, v) ∷ ys) h) (All-right _ xs ((a, v) ∷ ys) h).1

  queue_of-join :
      (c : Cells A) (n : ℕ) (xs : Items A) (a : ℕ) (v : A) (ys : Items A)
      → ◌≡◌ {A = Queue A}
          (record {
            cell = c;
            fresh = n;
            length = length (xs ++ (a, v) ∷ ys) - 1;
            front = first xs (first ys none);
            back = last (last none xs) ys;
          })
          (queue_of c n (xs ++ ys))
  queue_of-join c n xs a v ys = ground (
    arith,
    first-append xs ys none,
    last-append xs ys none,
    length-append xs ys,
    length-append xs ((a, v) ∷ ys),
  )

  pub remove-Chain :
      (c : Cells A) (n : ℕ) (xs : Items A) (a : ℕ) (v : A) (ys : Items A)
      → Chain c n (xs ++ (a, v) ∷ ys)
      → (c' : Cells A) × (remove a (queue_of c n (xs ++ (a, v) ∷ ys))
          ≡ some (queue_of c' n (xs ++ ys)))
        × Chain c' n (xs ++ ys)
  remove-Chain c n xs a v ys w = (
    cleared c xs a v ys,
    remove_state c n xs a v ys around ∙ ap some (queue_of-join (cleared c xs a v ys) n xs a v ys),
    record {
      linked = Seg-frame _ (xs ++ ys) none none a (node v none none) out (
          Seg-frame _ (xs ++ ys) none none a (node v none (last none xs)) out
            (bypass-Seg c xs a v ys around));
      distinct = Around-Distinct c xs a v ys around;
      below = below-bypass n xs a v ys w.below;
    },
  )
    where
      around : Around c xs a v ys
      around = Chain-Around c n xs a v ys w

      out : Out a (xs ++ ys)
      out = Around-Out c xs a v ys around

  -- `Remove` takes any item out of a list: it follows no nil pointer, and the items around it stay
  -- linked in their order, with `Front`, `Back` and `Len` right.
  pub remove-IsQueue :
      (q : Queue A) (xs : Items A) (a : ℕ) (v : A) (ys : Items A)
      → IsQueue q (xs ++ (a, v) ∷ ys)
      → (q' : Queue A) × (remove a q ≡ some q') × IsQueue q' (xs ++ ys)
  remove-IsQueue q xs a v ys w =
      let (c, e, h) = remove-Chain q.cell q.fresh xs a v ys w.chain in
      (
        queue_of c q.fresh (xs ++ ys),
        ap (remove a) w.fields ∙ e,
        record { fields = refl; chain = h },
      )
