-- ===== src/Prelude/Sort.antt =====
-- `sort.Slice`, as an insertion sort by the comparison that it is given.
use Prim.Native.Nat.{ℕ, ◌+◌}
use mathlib.Core.Bool.{Bool, true, false}
use mathlib.Core.List.{List, [], ◌∷◌}
use mathlib.Core.Logic.{inl, inr}
use mathlib.Core.Path.{◌≡◌, refl}
use native.Mathlib.Omega.{arith}
use golang_hw.Prelude.Lists.{All, All-map}
use golang_hw.Prelude.Tests.{if◌then◌else◌, Bool-cases}

module _ {A : Type 0} where
  -- How many elements pass the test.
  unfoldable pub count : (A → Bool) → List A → ℕ
  count p [] = 0
  count p (x ∷ xs) = (if p x then 1 else 0) + count p xs

module _ {A : Type 0} (before : A → A → Bool) where
  unfoldable pub insert : A → List A → List A
  insert x [] = x ∷ []
  insert x (y ∷ ys) = if before x y then x ∷ y ∷ ys else y ∷ insert x ys

  unfoldable pub sort_slice : List A → List A
  unfolding insert
  sort_slice [] = []
  sort_slice (x ∷ xs) = insert x (sort_slice xs)

  -- No element stands before one to its left.
  abbrev pub Sorted : List A → Type 0
  Sorted [] = Unit
  Sorted (x ∷ xs) = All (λ y. before y x ≡ false) xs × Sorted xs

  count-insert : (p : A → Bool) (x : A) (xs : List A) → count p (insert x xs) ≡ count p (x ∷ xs)
  unfolding count insert
  count-insert p x [] = refl
  count-insert p x (y ∷ ys) = ground (arith, count-insert p x ys)

  -- Sorting keeps the elements, each as often as it was there.
  pub count-sort_slice : (p : A → Bool) (xs : List A) → count p (sort_slice xs) ≡ count p xs
  unfolding count sort_slice
  count-sort_slice p [] = refl
  count-sort_slice p (x ∷ xs) =
      omega (arith, count-insert p x (sort_slice xs), count-sort_slice p xs, at_head)
    where
      at_head : count p (x ∷ sort_slice xs) ≡ (if p x then 1 else 0) + count p (sort_slice xs)
      at_head = refl

  module _ (asym : (x y : A) → before x y ≡ true → before y x ≡ false)
      (neg_trans : (x y z : A) → before x y ≡ true → before z y ≡ false → before z x ≡ false) where
    All-insert :
        (y x : A) (xs : List A)
        → before x y ≡ false
        → All (λ z. before z y ≡ false) xs
        → All (λ z. before z y ≡ false) (insert x xs)
    unfolding insert
    All-insert y x [] e a = (e, tt)
    All-insert y x (z ∷ zs) e (h, a) = elim (Bool-cases (before x z)) [
      | inl b ↦ rw b (e, (h, a))
      | inr b ↦ rw b (h, All-insert y x zs e a)
    ]

    insert-Sorted : (x : A) (xs : List A) → Sorted xs → Sorted (insert x xs)
    unfolding insert
    insert-Sorted x [] s = (tt, tt)
    insert-Sorted x (y ∷ ys) (a, s) = elim (Bool-cases (before x y)) [
      | inl b ↦ rw b ((asym x y b, All-map _ _ ys (λ z h. neg_trans x y z b h) a), (a, s))
      | inr b ↦ rw b (All-insert y x ys b a, insert-Sorted x ys s)
    ]

    pub sort_slice-Sorted : (xs : List A) → Sorted (sort_slice xs)
    unfolding sort_slice
    sort_slice-Sorted [] = tt
    sort_slice-Sorted (x ∷ xs) = insert-Sorted x (sort_slice xs) (sort_slice-Sorted xs)
