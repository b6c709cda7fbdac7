-- ===== src/Sql/Pool/Tests.antt =====
-- Two calls of `Connect` that overlap: the second exchange retires the database of the first.
use golang_hw.Prelude.{
  ◌+◌, ◌≤◌, false, some, [], ◌∷◌, ◌≡◌, ◌≢◌, ◌⊎◌, refl, codes, is_space, trim_space,
}
use golang_hw.Sql.Pool.Ownership.{Reach-owned}
use golang_hw.Sql.Pool.{
  State, new, count, remove, has, old_db, open_db, exchange, Reach, here, more,
}

program : Unit {0}
unfolding new count remove old_db trim_space is_space
program = tt

abbrev both : State
both = record { db = some 2; pinging = []; retired = 1 ∷ []; opened = 2 ∷ 1 ∷ [] }

abbrev first : State
first = record { db = some 1; pinging = 2 ∷ []; retired = []; opened = 2 ∷ 1 ∷ [] }

overlapping : Reach (codes "host=db") new both
unfolding program
overlapping =
    more
      (more
        (more (more here (open_db new 1 refl refl))
          (open_db (record new { pinging = 1 ∷ []; opened = 1 ∷ [] }) 2 refl refl))
        (exchange (record new { pinging = 2 ∷ 1 ∷ []; opened = 2 ∷ 1 ∷ [] }) 1 refl))
      (exchange first 2 refl)

Reach-owned_example :
    (count 1 both.opened ≡ count 1 (old_db both.db) + (count 1 both.pinging + count 1 both.retired))
    × (count 1 both.opened ≤ 1)
    × ((has 1 both.retired ≡ false) ⊎ (both.db ≢ some 1))
Reach-owned_example = Reach-owned (codes "host=db") both 1 overlapping
