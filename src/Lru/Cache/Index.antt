-- ===== src/Lru/Cache/Index.antt =====
-- Finding an entry of the list by its key.
use golang_hw.Lru.Cache.Spec.{lookup, erase}
use golang_hw.Lru.Cache.{CacheItem}
use golang_hw.Lru.Queue.Seg.{Items}
use golang_hw.Prelude.{
  ℕ, Option, none, some, List, [], ◌∷◌, ◌++◌, All, ◌≡◌, ◌≢◌, refl, sym, ap, arith, length, zero,
  suc, take, All-append, All-left, All-right,
}
use mathlib.Core.Logic.{ite}

abbrev pub Slots : Type 0 → Type 0 → Type 0
Slots K V = Items (CacheItem K V)

module _ {K V : Type 0} where
  abbrev pub slot : ℕ → K → V → ℕ × CacheItem K V
  slot a k v = (a, record { key = k; value = v })

  abbrev pub entries : Slots K V → List (K × V)
  entries [] = []
  entries (e ∷ xs) = (e.1.key, e.1.value) ∷ entries xs

  -- No entry has the key.
  abbrev pub Lacks : K → Slots K V → Type 0
  Lacks k xs = All (λ e. e.1.key ≢ k) xs

  abbrev pub DistinctKeys : Slots K V → Type 0
  DistinctKeys [] = Unit
  DistinctKeys (e ∷ xs) = Lacks e.1.key xs × DistinctKeys xs

  pub entries-append : (xs ys : Slots K V) → entries (xs ++ ys) ≡ entries xs ++ entries ys
  entries-append [] ys = refl
  entries-append (x ∷ xs) ys = ap (◌∷◌ (x.1.key, x.1.value)) (entries-append xs ys)

  pub length-entries : (xs : Slots K V) → length (entries xs) ≡ length xs
  length-entries [] = refl
  length-entries (x ∷ xs) = ap suc (length-entries xs)

module _ {K V : Type 0} (dec : Discrete K) where
  -- The address of the entry with the key.
  unfoldable pub find : K → Slots K V → Option ℕ
  find k [] = none
  find k (e ∷ xs) = ite (dec e.1.key k) (some e.0) (find k xs)

  pub find-Lacks : (k : K) (xs : Slots K V) → find k xs ≡ none → Lacks k xs
  unfolding find
  find-Lacks k [] h = tt
  find-Lacks k (e ∷ xs) h = (ground arith, find-Lacks k xs (ground arith))

  pub Lacks-find : (k : K) (xs : Slots K V) → Lacks k xs → find k xs ≡ none
  unfolding find
  Lacks-find k [] h = refl
  Lacks-find k (e ∷ xs) (o, h) = ground (arith, Lacks-find k xs h)

  pub Lacks-lookup :
      (k : K) (xs : Slots K V)
      → Lacks k xs
      → (lookup dec k (entries xs) ≡ none) × (erase dec k (entries xs) ≡ entries xs)
  unfolding lookup erase
  Lacks-lookup k [] h = (refl, refl)
  Lacks-lookup k (e ∷ xs) (o, h) =
      (ground (arith, Lacks-lookup k xs h), ground (arith, Lacks-lookup k xs h))

  -- What is found stands in the list, behind entries with other keys.
  pub record Found (k : K) (xs : Slots K V) (a : ℕ) : Type 0 where
    pub before : Slots K V
    pub value : V
    pub behind : Slots K V
    pub split : xs ≡ before ++ slot a k value ∷ behind
    pub lacks : Lacks k before
    pub here : lookup dec k (entries xs) ≡ some value
    pub rest : erase dec k (entries xs) ≡ entries (before ++ behind)

  pub find-Found : (k : K) (xs : Slots K V) (a : ℕ) → find k xs ≡ some a → Found k xs a
  unfolding find lookup erase
  find-Found k [] a h = absurd (ground arith)
  find-Found k (e ∷ xs) a h = elim (dec e.1.key k) [
    | yes p ↦ record {
      before = [];
      value = e.1.value;
      behind = xs;
      split = ground arith;
      lacks = tt;
      here = ground arith;
      rest = ground arith;
    }
    | no p ↦
        let f = find-Found k xs a (ground arith) in
        record {
          before = e ∷ f.before;
          value = f.value;
          behind = f.behind;
          split = ap (◌∷◌ e) f.split;
          lacks = (p, f.lacks);
          here = ground (arith, f.here);
          rest = ground (arith, f.rest);
        }
  ]

  -- Bringing an entry to the front, with any value, changes nothing that can be found.
  pub find-front :
      (q k : K) (a : ℕ) (u v : V) (xs ys : Slots K V)
      → Lacks k xs
      → find q (slot a k u ∷ (xs ++ ys)) ≡ find q (xs ++ slot a k v ∷ ys)
  unfolding find
  find-front q k a u v [] ys h = refl
  find-front q k a u v (x ∷ xs) ys (o, h) = ground (arith, find-front q k a u v xs ys h)

  -- Taking the last entry away.
  pub find-init :
      (q : K) (xs : Slots K V) (b : ℕ) (k : K) (v : V)
      → Lacks k xs
      → find q xs ≡ ite (dec k q) none (find q (xs ++ slot b k v ∷ []))
  unfolding find
  find-init q [] b k v h = ground arith
  find-init q (x ∷ xs) b k v (o, h) = ground (arith, find-init q xs b k v h)

  pub DistinctKeys-front :
      (k : K) (a : ℕ) (v u : V) (xs ys : Slots K V)
      → DistinctKeys (xs ++ slot a k v ∷ ys)
      → DistinctKeys (slot a k u ∷ (xs ++ ys))
  DistinctKeys-front k a v u [] ys d = d
  DistinctKeys-front k a v u (x ∷ xs) ys (o, d) =
      let (o', d') = DistinctKeys-front k a v u xs ys d in
      (
        ((λ e. (All-right _ xs (slot a k v ∷ ys) o).0 (ground arith)), o'),
        (
          All-append _ xs ys (All-left _ xs (slot a k v ∷ ys) o)
              (All-right _ xs (slot a k v ∷ ys) o).1,
          d',
        ),
      )

module _ {K V : Type 0} where
  -- The last of the slots, which the eviction takes away.
  pub snoc-Slots :
      (n : ℕ) (xs : Slots K V)
      → length xs ≡ suc n
      → (ys : Slots K V) × (b : ℕ) × (k : K) × (v : V) × (xs ≡ ys ++ slot b k v ∷ [])
        × (length ys ≡ n)
  snoc-Slots n [] h = absurd (omega arith)
  snoc-Slots zero (x ∷ []) h = ([], x.0, x.1.key, x.1.value, refl, refl)
  snoc-Slots zero (x ∷ y ∷ xs) h = absurd (omega arith)
  snoc-Slots (suc n) (x ∷ xs) h =
      let (ys, b, k, v, e, l) = snoc-Slots n xs (omega arith) in
      (x ∷ ys, b, k, v, ap (◌∷◌ x) e, ap suc l)

  pub take-init :
      (n : ℕ) (ys zs : Slots K V) → length ys ≡ n → take n (entries (ys ++ zs)) ≡ entries ys
  take-init zero [] zs h = refl
  take-init zero (y ∷ ys) zs h = absurd (omega arith)
  take-init (suc n) [] zs h = absurd (omega arith)
  take-init (suc n) (y ∷ ys) zs h = ap (◌∷◌ (y.1.key, y.1.value)) (take-init n ys zs (omega arith))

  pub DistinctKeys-init :
      (ys : Slots K V) (b : ℕ) (k : K) (v : V)
      → DistinctKeys (ys ++ slot b k v ∷ [])
      → DistinctKeys ys × Lacks k ys
  DistinctKeys-init [] b k v d = (tt, tt)
  DistinctKeys-init (y ∷ ys) b k v (o, d) =
      let (d', o') = DistinctKeys-init ys b k v d in
      (
        (All-left _ ys (slot b k v ∷ []) o, d'),
        ((λ e. (All-right _ ys (slot b k v ∷ []) o).0 (sym e)), o'),
      )
