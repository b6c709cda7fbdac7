-- ===== src/Lru/Queue.antt =====
-- list.go. An item lives in a store under an address, `nil` is `none`, and a list operation returns
-- the new state, or `none` where the Go code would follow a nil pointer. `length` is counted in ℕ:
-- the code takes it down by one only for an item that it has just unlinked.
pub mod Seg
pub mod Link
pub mod Push
pub mod Remove
pub mod Move
pub mod Value
use mathlib.Core.Option
use golang_hw.Prelude.{ℕ, suc, ◌+◌, ◌-◌, Option, none, some, if◌then◌else◌, ◌==◌, Bool, true, false}

abbrev pub Ptr : Type 0
Ptr = Option ℕ

pub record ListItem (A : Type 0) : Type 0 where
  pub value : A
  pub next : Ptr
  pub prev : Ptr

abbrev pub node : {A : Type 0} → A → Ptr → Ptr → ListItem A
node v n p = record { value = v; next = n; prev = p }

abbrev pub Cells : Type 0 → Type 0
Cells A = ℕ → Option (ListItem A)

abbrev pub update : {A : Type 0} → Cells A → ℕ → ListItem A → Cells A
update c a i b = if a == b then some i else c b

-- The `list` struct, with the store that its items live in; `fresh` is the next address that is
-- handed out.
pub record Queue (A : Type 0) : Type 0 where
  pub cell : Cells A
  pub fresh : ℕ
  pub length : ℕ
  pub front : Ptr
  pub back : Ptr

infixl 5 ◌>>=◌
abbrev pub ◌>>=◌ : {A B : Type 0} → Option A → (A → Option B) → Option B
none >>= k = none
some a >>= k = k a

-- The pointers are equal.
abbrev pub ptr_eq : Ptr → Ptr → Bool
ptr_eq none none = true
ptr_eq (some a) (some b) = a == b
ptr_eq _ _ = false

module _ {A : Type 0} where
  -- `NewList()`; what stands in the store stays there.
  unfoldable pub new_list : Cells A → ℕ → Queue A
  new_list c n = record { cell = c; fresh = n; length = 0; front = none; back = none }

  -- `*p`
  abbrev pub load : Ptr → Queue A → Option (ListItem A)
  load none q = none
  load (some a) q = q.cell a

  abbrev pub store : Ptr → ListItem A → Queue A → Option (Queue A)
  store none i q = none
  store (some a) i q = some (record q { cell = update q.cell a i })

  -- `p.Next = v`
  unfoldable pub set_next : Ptr → Ptr → Queue A → Option (Queue A)
  set_next p v q = do i ← load p q; store p (record i { next = v }) q

  -- `p.Prev = v`
  unfoldable pub set_prev : Ptr → Ptr → Queue A → Option (Queue A)
  set_prev p v q = do i ← load p q; store p (record i { prev = v }) q

  abbrev alloc : ListItem A → Queue A → Queue A
  alloc i q = record q { cell = update q.cell q.fresh i; fresh = suc q.fresh }

  -- Returns the address of the new item as well.
  unfoldable pub push_front : A → Queue A → Option (Queue A × ℕ)
  unfolding set_prev
  push_front v q = do
    let item = q.fresh
    let q₁ = alloc (node v q.front none) q
    q₂ ← elim q.front [
      | none ↦ some (record q₁ { back = some item })
      | some f ↦ set_prev (some f) (some item) q₁
    ]
    some (record q₂ { front = some item; length = q₂.length + 1 }, item)

  unfoldable pub push_back : A → Queue A → Option (Queue A × ℕ)
  unfolding set_next
  push_back v q = do
    let item = q.fresh
    let q₁ = alloc (node v none q.back) q
    q₂ ← elim q.back [
      | none ↦ some (record q₁ { front = some item })
      | some b ↦ set_next (some b) (some item) q₁
    ]
    some (record q₂ { back = some item; length = q₂.length + 1 }, item)

  -- `if item.Next == nil { l.back = item.Prev } else { item.Next.Prev = item.Prev }`
  unfoldable pub close_back : ListItem A → Queue A → Option (Queue A)
  unfolding set_prev
  close_back i q = elim i.next [
    | none ↦ some (record q { back = i.prev })
    | some n ↦ set_prev (some n) i.prev q
  ]

  -- `if item.Prev == nil { l.front = item.Next } else { item.Prev.Next = item.Next }`
  unfoldable pub close_front : ListItem A → Queue A → Option (Queue A)
  unfolding set_next
  close_front i q = elim i.prev [
    | none ↦ some (record q { front = i.next })
    | some p ↦ set_next (some p) i.next q
  ]

  unfoldable pub remove : ℕ → Queue A → Option (Queue A)
  unfolding set_next set_prev close_front close_back
  remove item q = do
    i ← load (some item) q
    q₁ ← close_front i q
    i₁ ← load (some item) q₁
    q₂ ← close_back i₁ q₁
    q₃ ← set_next (some item) none q₂
    q₄ ← set_prev (some item) none q₃
    some (record q₄ { length = q₄.length - 1 })

  -- The writes of `MoveToFront` behind its early return.
  abbrev pub splice : ℕ → Queue A → Option (Queue A)
  splice item q = do
    i ← load (some item) q
    q₁ ← set_next i.prev i.next q
    i₁ ← load (some item) q₁
    q₂ ← close_back i₁ q₁
    q₃ ← set_prev (some item) none q₂
    q₄ ← set_next (some item) q₃.front q₃
    q₅ ← set_prev q₄.front (some item) q₄
    some (record q₅ { front = some item })

  unfoldable pub move_to_front : ℕ → Queue A → Option (Queue A)
  move_to_front item q = if ptr_eq (some item) q.front then some q else splice item q
