-- ===== src/Lru/Cache.antt =====
-- cache.go: a map from keys to list items over the list of list.go. A `cacheItem` stands in the
-- list item that points at it: `Set` makes each for one list item. The methods hold the mutex from
-- their first line to their return, so each is one step. `dec` is the equality of keys.
pub mod Spec
pub mod Index
pub mod Refine
pub mod Runs
use golang_hw.Lru.Queue.{
  ListItem, Queue, ◌>>=◌, new_list, load, store, push_front, remove, move_to_front,
}
use golang_hw.Prelude.{ℕ, Option, none, some, Bool, true, false, ltb, if◌then◌else◌}
use golang_hw.Prelude.Int.{ℤ, pos, negsuc}
use mathlib.Core.Logic.{ite}

pub record CacheItem (K V : Type 0) : Type 0 where
  pub key : K
  pub value : V

pub record Cache (K V : Type 0) : Type 0 where
  pub capacity : ℕ
  pub queue : Queue (CacheItem K V)
  pub items : K → Option ℕ

unfoldable pub new_cache : {K V : Type 0} → ℤ → Cache K V
new_cache capacity = record {
  capacity = elim capacity [ pos n ↦ n | negsuc n ↦ 0 ];
  queue = new_list (λ _. none) 0;
  items = λ _. none;
}

-- The old list is garbage: what stands in the store stays there.
unfoldable pub clear : {K V : Type 0} → Cache K V → Cache K V
clear c = record c { queue = new_list c.queue.cell c.queue.fresh; items = λ _. none }

-- `m[k] = p`, and `delete(m, k)` where `p` is `none`
abbrev pub assign : {K : Type 0} → Discrete K → (K → Option ℕ) → K → Option ℕ → K → Option ℕ
assign dec m k p q = ite (dec k q) p (m q)

module _ {K V : Type 0} (dec : Discrete K) where
  -- Set's `if c.queue.Len() > c.capacity` block.
  unfoldable pub evict : Cache K V → Option (Cache K V)
  evict c =
      if ltb c.capacity c.queue.length
      then (do
        oldest ← c.queue.back
        i ← load (some oldest) c.queue
        q ← remove oldest c.queue
        some (record c { queue = q; items = assign dec c.items i.value.key none }))
      else some c

  unfoldable pub set : Cache K V → K → V → Option (Cache K V × Bool)
  set c key value = elim (c.items key) [
    | some item ↦ do
      i ← load (some item) c.queue
      q ←
          store (some item) (record i { value = record { key = i.value.key; value = value } })
            c.queue
      q' ← move_to_front item q
      some (record c { queue = q' }, true)
    | none ↦ do
      (q, item) ← push_front (record { key = key; value = value }) c.queue
      c' ← evict (record c { queue = q; items = assign dec c.items key (some item) })
      some (c', false)
  ]

  -- The value and whether it was found.
  unfoldable pub get : Cache K V → K → Option (Cache K V × Option V)
  get c key = elim (c.items key) [
    | none ↦ some (c, none)
    | some item ↦ do
      q ← move_to_front item c.queue
      i ← load (some item) q
      some (record c { queue = q }, some i.value.value)
  ]
