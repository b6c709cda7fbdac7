-- ===== src/Scheduler/Drain/OneRound.antt =====
-- The ways in which one round of a cycle of internal/scheduler/scheduler.go goes, and what calls send.
use golang_hw.Calendar.Event.{Time, Event}
use golang_hw.Scheduler.{
  Failure, Config, Call, deleted_before, listed, observed, Answers, batch, Round, Ending, returned,
  rounds_from, observe,
}
use golang_hw.Prelude.Int.{ℤ, pos, leb_ℤ}
use golang_hw.Prelude.{
  append-nil, ℕ, zero, suc, ◌≤◌, true, false, none, List, [], ◌∷◌, ◌++◌, ◌≡◌, ◌⊎◌, inl, inr, ◌==◌,
  length, take, drop, map, arith, refl, ◌∙◌,
}
use golang_hw.Scheduler.Drain.{sends, sends-append}

module _ (now : Time) where
  -- The three ways a round without failures goes: nothing is due, less than a batch, a whole batch.
  pub round_idle :
      (config : Config) (rounds : List Round)
      → rounds_from config now (record { ctx_err = none; listing = inr [] } ∷ rounds)
        ≡ (returned none, listed now config.batch_size (inr []) ∷ [])
  unfolding rounds_from
  round_idle config rounds = refl

  pub round_last :
      (config : Config) (events : List (Event × Answers)) (rounds : List Round)
      → (length events == 0) ≡ false
      → (batch now false events).0 ≡ inr false
      → leb_ℤ config.batch_size (pos (length events)) ≡ false
      → rounds_from config now (record { ctx_err = none; listing = inr events } ∷ rounds) ≡ (
        returned none,
        listed now config.batch_size (inr (map (λ a. a.0) events)) ∷ (batch now false events).1,
      )
  unfolding rounds_from
  round_last config events rounds z p q = ground (arith, z, p, q)

  pub round_more :
      (config : Config) (events : List (Event × Answers)) (rounds : List Round)
      → (length events == 0) ≡ false
      → (batch now false events).0 ≡ inr false
      → leb_ℤ config.batch_size (pos (length events)) ≡ true
      → rounds_from config now (record { ctx_err = none; listing = inr events } ∷ rounds) ≡ (
        (rounds_from config now rounds).0,
        listed now config.batch_size (inr (map (λ a. a.0) events)) ∷ (batch now false events).1
            ++ (rounds_from config now rounds).1,
      )
  unfolding rounds_from
  round_more config events rounds z p q = ground (arith, z, p, q)

pub sends_listed :
    (now : Time) (n : ℤ) (r : Failure ⊎ List Event) (calls : List Call)
    → sends (listed now n r ∷ calls) ≡ sends calls
unfolding sends
sends_listed now n r calls = refl

-- The deletion and the metrics send nothing.
pub sends_whole :
    (r : Ending × List Call) (cutoff : Time)
    → r.0 ≡ returned none
    → sends (deleted_before cutoff none ∷ r.1 ++ observe r.0) ≡ sends r.1
unfolding sends observe
sends_whole (e, calls) cutoff p =
    rw (p) (sends-append calls (observed true ∷ []) ∙ append-nil (sends calls))

-- A prefix is as long as the limit, or it is all.
pub taken :
    {A : Type 0} (limit : ℕ) (l : List A) → (limit ≤ length (take limit l)) ⊎ (drop limit l ≡ [])
taken zero l = inl (omega arith)
taken (suc n) [] = inr refl
taken (suc n) (a ∷ l) = elim (taken n l) [ inl h ↦ inl (omega arith) | inr h ↦ inr h ]

pub length-drop-le : {A : Type 0} (n : ℕ) (l : List A) → length (drop n l) ≤ length l
length-drop-le zero l = omega arith
length-drop-le (suc n) [] = omega arith
length-drop-le (suc n) (a ∷ l) = let h = length-drop-le n l in omega arith
