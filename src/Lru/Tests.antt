-- ===== src/Lru/Tests.antt =====
-- A list of two items, and runs of the cache.
use golang_hw.Lru.Cache.Runs.{run, run-new_cache}
use golang_hw.Lru.Cache.Refine.{Implements}
use golang_hw.Lru.Cache.Spec.{Call, was_in, found, perform_all}
use golang_hw.Lru.Cache.{Cache, new_cache}
use golang_hw.Lru.Queue.Move.{move_to_front-IsQueue}
use golang_hw.Lru.Queue.Push.{push_front-IsQueue}
use golang_hw.Lru.Queue.Remove.{remove-IsQueue}
use golang_hw.Lru.Queue.Seg.{IsQueue}
use golang_hw.Lru.Queue.{Queue, node, push_front, remove, move_to_front}
use golang_hw.Prelude.Int.{pos}
use golang_hw.Prelude.{
  ℕ, suc, ◌==◌, ◌≡◌, refl, arith, if◌then◌else◌, none, some, false, List, [], ◌∷◌,
}
use native.Mathlib.Decide.{ℕ_discrete}

-- 20 before 10
abbrev two : Queue ℕ
two = record {
  cell = λ a.
      if a == 0
      then some (node 10 none (some 1))
      else if a == 1
      then some (node 20 (some 0) none)
      else none;
  fresh = 2;
  length = 2;
  front = some 1;
  back = some 0;
}

two-IsQueue : IsQueue two ((1, 20) ∷ (0, 10) ∷ [])
two-IsQueue = record {
  fields = refl;
  chain = record { linked = (refl, (refl, tt)); distinct = omega arith; below = omega arith };
}

push_front-IsQueue_example :
    (q' : Queue ℕ) × (push_front 30 two ≡ some (q', 2))
    × IsQueue q' ((2, 30) ∷ (1, 20) ∷ (0, 10) ∷ [])
    × (q'.fresh ≡ suc 2)
push_front-IsQueue_example = push_front-IsQueue 30 two ((1, 20) ∷ (0, 10) ∷ []) two-IsQueue

remove-IsQueue_example : (q' : Queue ℕ) × (remove 1 two ≡ some q') × IsQueue q' ((0, 10) ∷ [])
remove-IsQueue_example = remove-IsQueue two [] 1 20 ((0, 10) ∷ []) two-IsQueue

move_to_front-IsQueue_example :
    (q' : Queue ℕ) × (move_to_front 0 two ≡ some q')
    × IsQueue q' ((0, 10) ∷ (1, 20) ∷ [])
    × (q'.fresh ≡ 2)
move_to_front-IsQueue_example = move_to_front-IsQueue two ((1, 20) ∷ []) 0 10 [] two-IsQueue

abbrev calls : List (Call ℕ ℕ)
calls = Call.set 1 10 ∷ Call.set 2 20 ∷ Call.get 1 ∷ Call.set 3 30 ∷ Call.get 2 ∷ []

-- The least recently used key 2 is evicted.
answers :
    (perform_all ℕ_discrete 2 [] calls).1
    ≡ was_in false ∷ was_in false ∷ found (some 10) ∷ was_in false ∷ found none ∷ []
unfolding perform_all ℕ_discrete
answers = refl

run-new_cache_example :
    (c : Cache ℕ ℕ) × (run ℕ_discrete (new_cache (pos 2)) calls
      ≡ some (c, (perform_all ℕ_discrete 2 [] calls).1))
    × Implements ℕ_discrete c (perform_all ℕ_discrete 2 [] calls).0
run-new_cache_example = run-new_cache ℕ_discrete (pos 2) calls
