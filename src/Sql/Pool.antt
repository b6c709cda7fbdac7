-- ===== src/Sql/Pool.antt =====
-- `Connect` and `Close` of internal/storage/sql/storage.go, as the steps of any number of calls that
-- run side by side: the lock makes the exchange of the field `db` one step, and a database is opened,
-- tried and closed outside of it. A database is a number that no other open one has.

pub mod Ownership
mod Tests
use golang_hw.Prelude.{
  ℕ, ◌+◌, Bool, true, false, Option, none, some, List, [], ◌∷◌, ◌++◌, ◌≡◌, ltb, ◌==◌, if◌then◌else◌,
  Text, trim_space, is_empty,
}

pub record State : Type 0 where
  pub db : Option ℕ
  -- opened by a `Connect` that has not exchanged them yet
  pub pinging : List ℕ
  -- held by a call that is about to close them
  pub retired : List ℕ
  -- the databases that are open
  pub opened : List ℕ

-- `New`
unfoldable pub new : State
new = record { db = none; pinging = []; retired = []; opened = [] }

unfoldable pub count : ℕ → List ℕ → ℕ
count h [] = 0
count h (x ∷ l) = (if x == h then 1 else 0) + count h l

-- Without its first occurrence.
unfoldable pub remove : ℕ → List ℕ → List ℕ
remove h [] = []
remove h (x ∷ l) = let rest = remove h l in if x == h then l else x ∷ rest

abbrev pub has : ℕ → List ℕ → Bool
has h l = ltb 0 (count h l)

-- `if oldDB != nil`
unfoldable pub old_db : Option ℕ → List ℕ
old_db none = []
old_db (some h) = h ∷ []

module _ (dsn : Text) where
  pub data Step : State → State → Type 0 where
    -- `sql.Open`
    open_db :
        (s : State) (h : ℕ)
        → is_empty (trim_space dsn) ≡ false
        → count h s.opened ≡ 0
        → Step s (record s { pinging = h ∷ s.pinging; opened = h ∷ s.opened })
    -- `PingContext` fails
    ping_failed :
        (s : State) (h : ℕ)
        → has h s.pinging ≡ true
        → Step s (record s { pinging = remove h s.pinging; retired = h ∷ s.retired })
    -- `oldDB := s.db; s.db = db`
    exchange :
        (s : State) (h : ℕ)
        → has h s.pinging ≡ true
        → Step s (record s {
          db = some h;
          pinging = remove h s.pinging;
          retired = old_db s.db ++ s.retired;
        })
    -- `db := s.db; s.db = nil`
    take_db : (s : State) → Step s (record s { db = none; retired = old_db s.db ++ s.retired })
    -- `db.Close()`
    close_db :
        (s : State) (h : ℕ)
        → has h s.retired ≡ true
        → Step s (record s { retired = remove h s.retired; opened = remove h s.opened })

  pub data Reach (s : State) : State → Type 0 where
    here : Reach s s
    more : {t u : State} → Reach s t → Step t u → Reach s u
