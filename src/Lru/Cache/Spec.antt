-- ===== src/Lru/Cache/Spec.antt =====
-- What the cache promises, over a list of entries with the most recently used first.
use golang_hw.Prelude.{ℕ, Option, none, some, Bool, true, false, List, [], ◌∷◌, take}
use mathlib.Core.Logic.{ite}

pub data Call (K V : Type 0) : Type 0 where
  set : K → V → Call K V
  get : K → Call K V
  clear : Call K V

-- What a call returns.
pub data Answer (V : Type 0) : Type 0 where
  was_in : Bool → Answer V
  found : Option V → Answer V
  cleared : Answer V

module _ {K V : Type 0} (dec : Discrete K) where
  unfoldable pub lookup : K → List (K × V) → Option V
  lookup k [] = none
  lookup k ((j, v) ∷ l) = ite (dec j k) (some v) (lookup k l)

  unfoldable pub erase : K → List (K × V) → List (K × V)
  erase k [] = []
  erase k ((j, v) ∷ l) = ite (dec j k) l ((j, v) ∷ erase k l)

  abbrev pub is_found : Option V → Bool
  is_found none = false
  is_found (some v) = true

  -- The entries behind a call, of a cache of the given capacity, and its answer.
  unfoldable pub perform : ℕ → List (K × V) → Call K V → List (K × V) × Answer V
  unfolding lookup erase
  perform capacity l (set k v) =
      (take capacity ((k, v) ∷ erase k l), was_in (is_found (lookup k l)))
  perform capacity l (get k) = elim (lookup k l) [
    | none ↦ (l, found none)
    | some v ↦ ((k, v) ∷ erase k l, found (some v))
  ]
  perform capacity l clear = ([], cleared)

  unfoldable pub perform_all : ℕ → List (K × V) → List (Call K V) → List (K × V) × List (Answer V)
  unfolding perform
  perform_all capacity l [] = (l, [])
  perform_all capacity l (c ∷ cs) =
      let (l', a) = perform capacity l c in
      let (l₂, as') = perform_all capacity l' cs in (l₂, a ∷ as')
