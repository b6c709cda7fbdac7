-- ===== src/Lru/Cache/Runs.antt =====
-- Sequences of calls on one cache, against the entries of Spec.antt.
use golang_hw.Lru.Cache.Index.{
  Slots, slot, entries, Found, find-Found, find-Lacks, Lacks-lookup, find, length-entries,
}
use golang_hw.Lru.Cache.Refine.{
  Holds, Implements, clear-Holds, new_cache-Holds, get-hit, set-hit, set-miss,
}
use golang_hw.Lru.Cache.Spec.{Call, Answer, was_in, found, cleared, erase, perform, perform_all}
use golang_hw.Lru.Cache.{Cache, new_cache, set, get, clear}
use golang_hw.Lru.Queue.{◌>>=◌}
use golang_hw.Prelude.Int.{ℤ, pos, negsuc}
use golang_hw.Prelude.{
  ℕ, Option, some, List, [], ◌∷◌, ◌≡◌, refl, sym, ap, subst, ◌++◌, arith, take, take_of_length-le,
  Option-cases, ◌∙◌, inl, inr,
}

-- The capacity that `NewCache` sets: a negative one is taken as 0.
abbrev pub capacity_of : ℤ → ℕ
capacity_of (pos n) = n
capacity_of (negsuc n) = 0

module _ {K V : Type 0} (dec : Discrete K) where
  -- One method call.
  pub call : Cache K V → Call K V → Option (Cache K V × Answer V)
  call c (Call.set k v) = do (c', b) ← set dec c k v; some (c', was_in b)
  call c (Call.get k) = do (c', v) ← get dec c k; some (c', found v)
  call c Call.clear = some (clear c, cleared)

  pub run : Cache K V → List (Call K V) → Option (Cache K V × List (Answer V))
  unfolding call
  run c [] = some (c, [])
  run c (m ∷ ms) = do (c', a) ← call c m; (c₂, as') ← run c' ms; some (c₂, a ∷ as')

  -- What one call has to do.
  abbrev Performs : Cache K V → ℕ → List (K × V) → Call K V → Type 0
  Performs c n l m =
      (c' : Cache K V) × (call c m ≡ some (c', (perform dec n l m).1))
      × Implements dec c' (perform dec n l m).0
      × (c'.capacity ≡ n)

  set-Performs :
      (c : Cache K V) (xs : Slots K V) (k : K) (v : V)
      → Holds dec c xs
      → Performs c c.capacity (entries xs) (Call.set k v)
  unfolding call perform
  set-Performs c xs k v h = elim (Option-cases (find dec k xs)) [
    | inl miss ↦
        let (gone, kept) = Lacks-lookup dec k xs (find-Lacks dec k xs miss) in
        let (c', ys, did, holds, same, left) = set-miss dec c xs k v h miss in
        (
          c',
          ground (arith, did, gone),
          record {
            slots = ys;
            holds = holds;
            same = left ∙ ap (λ l. take c.capacity ((k, v) ∷ l)) (sym kept);
          },
          same,
        )
    | inr (a, hit) ↦
        let f = find-Found dec k xs a hit in
        let (c', did, holds, same) = set-hit dec c xs k v a h f (h.index k ∙ hit) in
        (
          c',
          ground (arith, did, f.here),
          record {
            slots = slot a k v ∷ (f.before ++ f.behind);
            holds = holds;
            same = fits c' f holds same;
          },
          same,
        )
  ]
    where
      fits :
          (c' : Cache K V) {a : ℕ} (f : Found dec k xs a)
          → Holds dec c' (slot a k v ∷ (f.before ++ f.behind))
          → c'.capacity ≡ c.capacity
          → entries (slot a k v ∷ (f.before ++ f.behind))
            ≡ take c.capacity ((k, v) ∷ erase dec k (entries xs))
      fits c' {a} f holds same = sym (
          ap (λ l. take c.capacity ((k, v) ∷ l)) f.rest
          ∙ take_of_length-le c.capacity (entries (slot a k v ∷ (f.before ++ f.behind)))
              (omega (arith, holds.room, length-entries (f.before ++ f.behind))))

  get-Performs :
      (c : Cache K V) (xs : Slots K V) (k : K)
      → Holds dec c xs
      → Performs c c.capacity (entries xs) (Call.get k)
  unfolding call perform
  get-Performs c xs k h = elim (Option-cases (find dec k xs)) [
    | inl miss ↦
        let (gone, kept) = Lacks-lookup dec k xs (find-Lacks dec k xs miss) in
        (
          c,
          (unfold get in ground (arith, h.index k, miss, gone)),
          record { slots = xs; holds = h; same = ground (arith, gone) },
          refl,
        )
    | inr (a, hit) ↦
        let f = find-Found dec k xs a hit in
        let (c', did, holds, same) = get-hit dec c xs k a h f (h.index k ∙ hit) in
        (
          c',
          ground (arith, did, f.here),
          record {
            slots = slot a k f.value ∷ (f.before ++ f.behind);
            holds = holds;
            same = ground (arith, f.here, f.rest);
          },
          same,
        )
  ]

  -- Every call returns, without a nil dereference, what the entries say, and leaves a cache that
  -- stands for the entries behind the call.
  pub call-Performs :
      (c : Cache K V) (l : List (K × V)) (m : Call K V)
      → Implements dec c l
      → Performs c c.capacity l m
  call-Performs c l (Call.set k v) h =
      subst (λ l. Performs c c.capacity l (Call.set k v)) h.same
        (set-Performs c h.slots k v h.holds)
  call-Performs c l (Call.get k) h =
      subst (λ l. Performs c c.capacity l (Call.get k)) h.same (get-Performs c h.slots k h.holds)
  call-Performs c l Call.clear h =
      unfold call perform clear in
      (clear c, refl, record { slots = []; holds = clear-Holds dec c; same = refl }, refl)

  run-perform_all :
      (c : Cache K V) (l : List (K × V)) (n : ℕ) (ms : List (Call K V))
      → Implements dec c l
      → c.capacity ≡ n
      → (c' : Cache K V) × (run c ms ≡ some (c', (perform_all dec n l ms).1))
        × Implements dec c' (perform_all dec n l ms).0
  unfolding run perform_all
  run-perform_all c l n [] h e = (c, refl, h)
  run-perform_all c l n (m ∷ ms) h e =
      let (c', did, h', same) = subst (λ n. Performs c n l m) e (call-Performs c l m h) in
      let (c₂, rest, h₂) = run-perform_all c' (perform dec n l m).0 n ms h' same in
      (c₂, ground (arith, did, rest), h₂)

  -- For every capacity and every sequence of calls on a new cache, no call follows a nil pointer,
  -- each returns what the same call returns on the list of entries, and at the end the cache stands
  -- for those entries: its list holds them in order of last use, linked both ways, its map finds
  -- exactly them, and there are no more of them than the capacity.
  pub run-new_cache :
      (n : ℤ) (ms : List (Call K V))
      → (c : Cache K V) × (run (new_cache n) ms
          ≡ some (c, (perform_all dec (capacity_of n) [] ms).1))
        × Implements dec c (perform_all dec (capacity_of n) [] ms).0
  run-new_cache n ms =
      run-perform_all (new_cache n) [] (capacity_of n) ms
        (record { slots = []; holds = new_cache-Holds dec n; same = refl }) (capacity n)
    where
      capacity : (i : ℤ) → (new_cache {K = K} {V = V} i).capacity ≡ capacity_of i
      capacity (pos i) = unfold new_cache in refl
      capacity (negsuc i) = unfold new_cache in refl
