-- ===== src/Lru/Cache/Refine.antt =====
-- The cache implements the entries of Spec.antt.
use golang_hw.Lru.Cache.Index.{
  Slots, slot, entries, Lacks, DistinctKeys, length-entries, find, find-Lacks, Found, find-front,
  find-init, DistinctKeys-front, DistinctKeys-init, snoc-Slots, take-init,
}
use golang_hw.Lru.Cache.{Cache, CacheItem, new_cache, assign, evict, set, get, clear}
use golang_hw.Lru.Queue.Move.{move_to_front-IsQueue}
use golang_hw.Lru.Queue.Push.{push_front-IsQueue, new_list-IsQueue}
use golang_hw.Lru.Queue.Remove.{remove-IsQueue}
use golang_hw.Lru.Queue.Seg.{IsQueue, last-concat}
use golang_hw.Lru.Queue.Value.{load_item, set_value-IsQueue}
use golang_hw.Lru.Queue.{Queue}
use golang_hw.Prelude.Int.{ℤ}
use golang_hw.Prelude.{
  ℕ, none, some, true, false, List, [], ◌∷◌, ◌++◌, ◌≡◌, refl, sym, ap, arith, inl, inr, ◌+◌, ◌≤◌,
  ◌<◌, length, take, take_of_length-le, ltb, length-append, ◌∙◌, subst, append-nil, Bool-cases,
}

module _ {K V : Type 0} (dec : Discrete K) where
  pub record Holds (c : Cache K V) (xs : Slots K V) : Type 0 where
    pub queue : IsQueue c.queue xs
    pub index : (q : K) → c.items q ≡ find dec q xs
    pub keys : DistinctKeys xs
    pub room : length xs ≤ c.capacity

  -- The cache stands for the entries, most recently used first.
  pub record Implements (c : Cache K V) (l : List (K × V)) : Type 0 where
    pub slots : Slots K V
    pub holds : Holds c slots
    pub same : entries slots ≡ l

  pub clear-Holds : (c : Cache K V) → Holds (clear c) []
  unfolding clear find
  clear-Holds c = record {
    queue = new_list-IsQueue c.queue.cell c.queue.fresh;
    index = λ q. refl;
    keys = tt;
    room = omega arith;
  }

  pub new_cache-Holds : (n : ℤ) → Holds (new_cache n) []
  unfolding new_cache find
  new_cache-Holds n = record {
    queue = new_list-IsQueue (λ _. none) 0;
    index = λ q. refl;
    keys = tt;
    room = omega arith;
  }

  -- A hit brings the entry to the front; the key, the address and the others stay.
  front-Holds :
      (c : Cache K V) (q : Queue (CacheItem K V)) (xs ys : Slots K V) (a : ℕ) (k : K) (v w : V)
      → Holds c (xs ++ slot a k v ∷ ys)
      → Lacks k xs
      → IsQueue q (slot a k w ∷ (xs ++ ys))
      → Holds (record c { queue = q }) (slot a k w ∷ (xs ++ ys))
  front-Holds c q xs ys a k v w h o w' = record {
    queue = w';
    index = λ j. h.index j ∙ sym (find-front dec j k a w v xs ys o);
    keys = DistinctKeys-front dec k a v w xs ys h.keys;
    room = omega (arith, h.room, length-append xs (slot a k v ∷ ys), length-append xs ys);
  }

  pub get-hit :
      (c : Cache K V) (xs : Slots K V) (k : K) (a : ℕ)
      → Holds c xs
      → (f : Found dec k xs a) → c.items k ≡ some a
      → (c' : Cache K V) × (get dec c k ≡ some (c', some f.value))
        × Holds c' (slot a k f.value ∷ (f.before ++ f.behind))
        × (c'.capacity ≡ c.capacity)
  unfolding get
  get-hit c xs k a h f e =
      let h' : Holds c (f.before ++ slot a k f.value ∷ f.behind) = subst (Holds c) f.split h in
      let (q, moved, is, same) =
        move_to_front-IsQueue c.queue f.before a (slot a k f.value).1 f.behind h'.queue in
      (
        record c { queue = q },
        ground (arith, e, moved, load_item q [] a (slot a k f.value).1 (f.before ++ f.behind) is),
        front-Holds c q f.before f.behind a k f.value f.value h' f.lacks is,
        refl,
      )

  pub set-hit :
      (c : Cache K V) (xs : Slots K V) (k : K) (v : V) (a : ℕ)
      → Holds c xs
      → (f : Found dec k xs a) → c.items k ≡ some a
      → (c' : Cache K V) × (set dec c k v ≡ some (c', true))
        × Holds c' (slot a k v ∷ (f.before ++ f.behind))
        × (c'.capacity ≡ c.capacity)
  unfolding set
  set-hit c xs k v a h f e =
      let h' : Holds c (f.before ++ slot a k f.value ∷ f.behind) = subst (Holds c) f.split h in
      let i : CacheItem K V = (slot a k v).1 in
      let written = set_value-IsQueue c.queue f.before a (slot a k f.value).1 i f.behind h'.queue in
      let (q, moved, is, same) = move_to_front-IsQueue _ f.before a i f.behind written in
      (
        record c { queue = q },
        ground
            (arith, e, load_item c.queue f.before a (slot a k f.value).1 f.behind h'.queue, moved),
        front-Holds c q f.before f.behind a k f.value v h' f.lacks is,
        refl,
      )

  -- A list that is one entry too long loses its last entry, in the map as well.
  evict_over :
      (c : Cache K V) (ys : Slots K V) (b : ℕ) (k : K) (v : V)
      → IsQueue c.queue (ys ++ slot b k v ∷ [])
      → ((q : K) → c.items q ≡ find dec q (ys ++ slot b k v ∷ []))
      → DistinctKeys (ys ++ slot b k v ∷ [])
      → length ys ≡ c.capacity
      → (c' : Cache K V) × (evict dec c ≡ some c') × Holds c' ys × (c'.capacity ≡ c.capacity)
  unfolding evict
  evict_over c ys b k v h index keys room =
      let (q, removed, is) = remove-IsQueue c.queue ys b (slot b k v).1 [] h in
      let (d, o) = DistinctKeys-init ys b k v keys in
      let over : c.capacity < c.queue.length = omega (
        arith,
        ap (λ (r : Queue (CacheItem K V)). r.length) h.fields,
        length-append ys (slot b k v ∷ []),
      ) in
      let back : c.queue.back ≡ some b =
        ap (λ (r : Queue (CacheItem K V)). r.back) h.fields
        ∙ last-concat ys none b (slot b k v).1 in
      (
        record c { queue = q; items = assign dec c.items k none },
        ground (arith, back, removed, load_item c.queue ys b (slot b k v).1 [] h),
        record {
          queue = subst (IsQueue q) (append-nil ys) is;
          index = λ j. ground (arith, index j, find-init dec j ys b k v o);
          keys = d;
          room = omega arith;
        },
        refl,
      )

  evict-Holds :
      (c : Cache K V) (xs : Slots K V)
      → IsQueue c.queue xs
      → ((q : K) → c.items q ≡ find dec q xs)
      → DistinctKeys xs
      → length xs ≤ c.capacity + 1
      → (c' : Cache K V) × (ys : Slots K V) × (evict dec c ≡ some c')
        × Holds c' ys
        × (c'.capacity ≡ c.capacity)
        × (entries ys ≡ take c.capacity (entries xs))
  evict-Holds c xs h index keys room = elim (Bool-cases (ltb c.capacity (length xs))) [
    | inl over ↦
        let (ys, b, k, v, e, l) = snoc-Slots c.capacity xs (ground arith) in
        let (c', evicted, holds, same) =
          evict_over c ys b k v (subst (IsQueue c.queue) e h) (λ q. index q ∙ ap (find dec q) e)
            (subst DistinctKeys e keys) l in
        (
          c',
          ys,
          evicted,
          holds,
          same,
          sym (
              ap (λ (zs : Slots K V). take c.capacity (entries zs)) e
              ∙ take-init c.capacity ys (slot b k v ∷ []) l),
        )
    | inr fits ↦ (
      c,
      xs,
      (unfold evict in ground (arith, fits, ap (λ (r : Queue (CacheItem K V)). r.length) h.fields)),
      record { queue = h; index = index; keys = keys; room = ground arith },
      refl,
      sym (
          take_of_length-le c.capacity (entries xs)
            (omega (arith, length-entries xs, leb-of fits))),
    )
  ]
    where
      leb-of : ltb c.capacity (length xs) ≡ false → length xs ≤ c.capacity
      leb-of e = ground arith

  pub set-miss :
      (c : Cache K V) (xs : Slots K V) (k : K) (v : V)
      → Holds c xs
      → find dec k xs ≡ none
      → (c' : Cache K V) × (ys : Slots K V) × (set dec c k v ≡ some (c', false))
        × Holds c' ys
        × (c'.capacity ≡ c.capacity)
        × (entries ys ≡ take c.capacity ((k, v) ∷ entries xs))
  set-miss c xs k v h miss =
      let (q, pushed, is, next) = push_front-IsQueue (slot 0 k v).1 c.queue xs h.queue in
      let c₁ : Cache K V = record c {
        queue = q;
        items = assign dec c.items k (some c.queue.fresh);
      } in
      let (c', ys, evicted, holds, same, left) =
        evict-Holds c₁ (slot c.queue.fresh k v ∷ xs) is
          (λ j. unfold find in ground (arith, h.index j)) (find-Lacks dec k xs miss, h.keys)
          (omega (arith, h.room)) in
      (c', ys, (unfold set in ground (arith, h.index k, miss, pushed, evicted)), holds, same, left)
