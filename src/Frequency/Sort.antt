-- ===== src/Frequency/Sort.antt =====
-- Sorting distinct words.
use golang_hw.Frequency.Counts.{contains, Absent, Distinct}
use golang_hw.Frequency.Order.{Before, less_irrefl, less_trans, less_total}
use golang_hw.Frequency.{Counts, less}
use golang_hw.Prelude.Sort.{insert, sort_slice}
use golang_hw.Prelude.{
  ℕ, zero, suc, ◌≡◌, refl, ap, true, false, List, [], ◌∷◌, Text, text_eq, text_eq_iff, text_eq_refl,
  arith, All, All-map, ◌||◌, ◌⊎◌, inl, inr, Bool-cases, take, length, ◌∙◌, subst,
}

module _ (m : Counts) where
  abbrev pub Sorted : List Text → Type 0
  Sorted [] = Unit
  Sorted (v ∷ vs) = All (Before m v) vs × Sorted vs

  contains-insert :
      (w v : Text) (vs : List Text)
      → contains (insert (less m) w vs) v ≡ (text_eq w v || contains vs v)
  unfolding insert contains
  contains-insert w v [] = refl
  contains-insert w v (u ∷ vs) = ground (arith, contains-insert w v vs)

  All-insert :
      (u w : Text) (vs : List Text)
      → Before m u w
      → All (Before m u) vs
      → All (Before m u) (insert (less m) w vs)
  unfolding insert
  All-insert u w [] b a = (b, tt)
  All-insert u w (v ∷ vs) b (h, a) = elim (Bool-cases (less m w v)) [
    | inl e ↦ rw e (b, (h, a))
    | inr e ↦ rw e (h, All-insert u w vs b a)
  ]

  insert-Sorted :
      (w : Text) (vs : List Text) → Absent w vs → Sorted vs → Sorted (insert (less m) w vs)
  unfolding insert contains
  insert-Sorted w [] o s = (tt, tt)
  insert-Sorted w (v ∷ vs) o (h, s) = elim (Bool-cases (less m w v)) [
    | inl e ↦ rw e ((e, All-map _ _ vs (λ u b. less_trans m w v u e b) h), (h, s))
    | inr e ↦ rw e (
      All-insert v w vs (less_total m w v (ground (arith, text_eq_iff v w)) e) h,
      insert-Sorted w vs (ground arith) s,
    )
  ]

  pub contains-sort_slice :
      (ws : List Text) (v : Text) → contains (sort_slice (less m) ws) v ≡ contains ws v
  unfolding sort_slice contains
  contains-sort_slice [] v = refl
  contains-sort_slice (w ∷ ws) v =
      contains-insert w v (sort_slice (less m) ws)
      ∙ ap (λ b. text_eq w v || b) (contains-sort_slice ws v)

  pub sort_slice-Sorted : (ws : List Text) → Distinct ws → Sorted (sort_slice (less m) ws)
  unfolding sort_slice
  sort_slice-Sorted [] d = tt
  sort_slice-Sorted (w ∷ ws) (o, d) =
      insert-Sorted w (sort_slice (less m) ws) (contains-sort_slice ws w ∙ o)
        (sort_slice-Sorted ws d)

  Before-head :
      (v u : Text) (vs : List Text) → All (Before m v) vs → contains vs u ≡ true → Before m v u
  unfolding contains
  Before-head v u [] a c = cc
  Before-head v u (w ∷ vs) (b, a) c = elim (Bool-cases (text_eq w u)) [
    | inl e ↦ subst (Before m v) ((text_eq_iff w u).0 e) b
    | inr e ↦ Before-head v u vs a (ground arith)
  ]

  Absent-head : (v : Text) (vs : List Text) → All (Before m v) vs → Absent v vs
  Absent-head v vs a = elim (Bool-cases (contains vs v)) [
    | inl c ↦ absurd (ground (arith, Before-head v v vs a c, less_irrefl m v))
    | inr c ↦ c
  ]

  -- A sorted list is known by the words that it holds.
  pub Sorted_unique :
      (xs ys : List Text)
      → Sorted xs
      → Sorted ys
      → ((v : Text) → contains xs v ≡ contains ys v)
      → xs ≡ ys
  unfolding contains
  Sorted_unique [] [] s t h = refl
  Sorted_unique [] (y ∷ ys) s t h = absurd (ground (arith, h y, text_eq_refl y))
  Sorted_unique (x ∷ xs) [] s t h = absurd (ground (arith, h x, text_eq_refl x))
  Sorted_unique (x ∷ xs) (y ∷ ys) (a, s) (b, t) h =
      cc (heads, Sorted_unique xs ys s t (λ v. tails v))
    where
      heads : x ≡ y
      heads = elim (Bool-cases (text_eq x y)) [
        | inl e ↦ (text_eq_iff x y).0 e
        | inr e ↦
            let y-in : contains xs y ≡ true = ground (arith, h y, text_eq_refl y) in
            let n : text_eq y x ≡ false = ground (arith, text_eq_iff y x, text_eq_iff x y) in
            let x-in : contains ys x ≡ true = ground (arith, h x, text_eq_refl x) in
            absurd (
              ground (
                arith,
                less_trans m x y x (Before-head x y xs a y-in) (Before-head y x ys b x-in),
                less_irrefl m x,
              ))
      ]

      tails : (v : Text) → contains xs v ≡ contains ys v
      tails v = ground (
        arith,
        h v,
        heads,
        text_eq_iff x v,
        text_eq_iff y v,
        Absent-head x xs a,
        Absent-head y ys b,
      )

  -- A word that is cut off stands behind all that are kept.
  pub take_complete :
      (n : ℕ) (ws : List Text) (v : Text)
      → Sorted ws
      → contains ws v ≡ true
      → (contains (take n ws) v ≡ true)
        ⊎ ((length (take n ws) ≡ n) × All (λ u. Before m u v) (take n ws))
  unfolding contains
  take_complete zero ws v s c = inr (refl, tt)
  take_complete (suc n) [] v s c = cc
  take_complete (suc n) (w ∷ ws) v (a, s) c = elim (Bool-cases (text_eq w v)) [
    | inl e ↦ inl (rw e)
    | inr e ↦ elim (take_complete n ws v s (ground arith)) [
      | inl k ↦ inl (rw e k)
      | inr (l, b) ↦ inr (ap suc l, (Before-head w v ws a (ground arith), b))
    ]
  ]

  pub take-Sorted : (n : ℕ) (ws : List Text) → Sorted ws → Sorted (take n ws)
  take-Sorted zero ws s = tt
  take-Sorted (suc n) [] s = tt
  take-Sorted (suc n) (w ∷ ws) (a, s) = (take-All n ws a, take-Sorted n ws s)
    where
      take-All : (n : ℕ) (vs : List Text) → All (Before m w) vs → All (Before m w) (take n vs)
      take-All zero vs a = tt
      take-All (suc n) [] a = tt
      take-All (suc n) (v ∷ vs) (b, a) = (b, take-All n vs a)

  pub contains-take :
      (n : ℕ) (ws : List Text) (v : Text) → contains (take n ws) v ≡ true → contains ws v ≡ true
  unfolding contains
  contains-take zero ws v c = cc
  contains-take (suc n) [] v c = cc
  contains-take (suc n) (w ∷ ws) v c = ground (arith, contains-take n ws v)
