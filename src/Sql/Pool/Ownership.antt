-- ===== src/Sql/Pool/Ownership.antt =====
-- Who owns the open databases of internal/storage/sql/storage.go.
use golang_hw.Sql.Pool.{
  State, new, count, remove, has, old_db, Step, open_db, ping_failed, exchange, take_db, close_db,
  Reach, here, more,
}
use golang_hw.Prelude.{
  Bool-cases, ◌⊎◌, inl, inr, ltb→lt, ℕ, ◌+◌, ◌≤◌, true, false, Option, none, some, List, [], ◌∷◌,
  ◌++◌, ◌≡◌, ◌≢◌, arith, ◌==◌, if◌then◌else◌, Text,
}

count-append : (h : ℕ) (l k : List ℕ) → count h (l ++ k) ≡ count h l + count h k
unfolding count
count-append h [] k = omega arith
count-append h (x ∷ l) k = omega (arith, count-append h l k)

count-remove :
    (h x : ℕ) (l : List ℕ)
    → has x l ≡ true
    → count h (remove x l) + (if x == h then 1 else 0) ≡ count h l
unfolding count remove
count-remove h x [] p = absurd (ground arith)
count-remove h x (y ∷ l) p = ground (arith, count-remove h x l)

-- Each open database is the storage's, one that a call tries, or one that a call will close, and only
-- one of these.
unfoldable pub IsOwned : State → Type 0
IsOwned s =
    (h : ℕ)
    → (count h s.opened ≡ count h (old_db s.db) + (count h s.pinging + count h s.retired))
      × (count h s.opened ≤ 1)

module _ (dsn : Text) where
  Step-IsOwned : {s t : State} → Step dsn s t → IsOwned s → IsOwned t
  unfolding IsOwned count old_db
  Step-IsOwned (open_db s x d p) o h = let (a, b) = o h in ground (arith, a, b)
  Step-IsOwned (ping_failed s x p) o h =
      let (a, b) = o h in ground (arith, count-remove h x s.pinging p)
  Step-IsOwned (exchange s x p) o h =
      let (a, b) = o h in
      ground (arith, count-remove h x s.pinging p, count-append h (old_db s.db) s.retired)
  Step-IsOwned (take_db s) o h =
      let (a, b) = o h in ground (arith, count-append h (old_db s.db) s.retired)
  Step-IsOwned (close_db s x p) o h =
      let (a, b) = o h in
      let (c, d) = o x in ground (arith, count-remove h x s.retired p, count-remove h x s.opened)

  Reach-IsOwned : {s t : State} → Reach dsn s t → IsOwned s → IsOwned t
  Reach-IsOwned here o = o
  Reach-IsOwned (more r st) o = Step-IsOwned st (Reach-IsOwned r o)

  new-IsOwned : IsOwned new
  unfolding IsOwned new count old_db
  new-IsOwned h = (omega arith, omega arith)

  db-count : (db : Option ℕ) (h : ℕ) → db ≡ some h → count h (old_db db) ≡ 1
  unfolding count old_db
  db-count none h e = absurd (ground arith)
  db-count (some x) h e = ground arith

  -- However the calls of `Connect` and `Close` overlap, no database is lost or closed twice: an open one
  -- is the storage's, or tried by a `Connect`, or about to be closed by a call, and only one of these.
  -- So what a call is about to close is not the storage's.
  pub Reach-owned :
      (s : State) (h : ℕ)
      → Reach dsn new s
      → (count h s.opened ≡ count h (old_db s.db) + (count h s.pinging + count h s.retired))
        × (count h s.opened ≤ 1)
        × ((has h s.retired ≡ false) ⊎ (s.db ≢ some h))
  unfolding IsOwned
  Reach-owned s h r =
      let (a, b) = Reach-IsOwned r new-IsOwned h in
      (
        a,
        b,
        elim (Bool-cases (has h s.retired)) [
          | inr p ↦ inl p
          | inl p ↦
              inr (λ e.
                absurd (omega (arith, db-count s.db h e, ltb→lt 0 (count h s.retired) p, a, b)))
        ],
      )
