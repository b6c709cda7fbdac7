-- ===== src/Parallel/Progress.antt =====
-- `Run` never gets stuck, and ends.
use golang_hw.Parallel.Invariant.{active, IsValid, Reach-IsValid, start-IsValid, worker_count-pos}
use golang_hw.Parallel.{
  Coordinator, Worker, waiting, working, sending, Config, worker_count, start, may_dispatch,
  goes_on, dispatch, collect, Step, take_task, end_task, send_result, Reach, here, more,
}
use golang_hw.Prelude.Int.{ℤ}
use golang_hw.Prelude.{
  ℕ, zero, suc, ◌+◌, ◌-◌, ◌*◌, ◌≤◌, ◌<◌, ◌≡◌, refl, Bool, true, some, List, [], ◌∷◌, get_elem?, set,
  replicate, arith, length, ◌⊎◌, inl, inr, Bool-cases,
}

-- A worker that can take its part in a step.
record Ready (ws : List Worker) : Type 0 where
  place : ℕ
  task : ℕ
  state :
      (get_elem? ws place ≡ some (working task))
      ⊎ ((b : Bool) × (get_elem? ws place ≡ some (sending task b)))

Ready-cons : (w : Worker) (ws : List Worker) → Ready ws → Ready (w ∷ ws)
Ready-cons w ws r = record { place = suc r.place; task = r.task; state = r.state }

active-Ready : (ws : List Worker) → 0 < active ws → Ready ws
active-Ready [] h = elim h [ ]
active-Ready (waiting ∷ ws) h = Ready-cons waiting ws (active-Ready ws (omega arith))
active-Ready (working t ∷ ws) h = record { place = 0; task = t; state = inl refl }
active-Ready (sending t b ∷ ws) h = record { place = 0; task = t; state = inr (b, refl) }

-- With no worker active, the first waits.
idle : (ws : List Worker) → active ws ≡ 0 → 0 < length ws → get_elem? ws 0 ≡ some waiting
idle [] e h = elim h [ ]
idle (waiting ∷ ws) e h = refl
idle (working t ∷ ws) e h = absurd (omega arith)
idle (sending t b ∷ ws) e h = absurd (omega arith)

-- The steps that a worker still makes with its task.
abbrev pub left : Worker → ℕ
left waiting = 0
left (working t) = 2
left (sending t b) = 1

abbrev pub left_all : List Worker → ℕ
left_all [] = 0
left_all (w ∷ ws) = left w + left_all ws

left_all-set :
    (ws : List Worker) (i : ℕ) (v w : Worker)
    → get_elem? ws i ≡ some v
    → left_all (set ws i w) + left v ≡ left_all ws + left w
left_all-set [] i v w e = cc
left_all-set (u ∷ ws) zero v w e = ground arith
left_all-set (u ∷ ws) (suc i) v w e = omega (arith, left_all-set ws i v w e)

module _ (tasks : ℕ) (m : ℤ) where
  abbrev Next : Config → Type 0
  Next s = (t : Config) × Step tasks m s t

  Ready-Next :
      (c : Coordinator) (ws : List Worker)
      → goes_on tasks m c ≡ true
      → Ready ws
      → Next (record { coordinator = c; workers = ws })
  Ready-Next c ws g r = elim r.state [
    | inl e ↦ (_, end_task c ws r.place r.task true e)
    | inr (b, e) ↦ (_, send_result c ws r.place r.task b g e)
  ]

  valid-Next :
      (n : ℕ) (c : Coordinator) (ws : List Worker)
      → 0 < n
      → IsValid tasks m n (record { coordinator = c; workers = ws })
      → goes_on tasks m c ≡ true
      → Next (record { coordinator = c; workers = ws })
  valid-Next n c ws h v g = elim (Bool-cases (may_dispatch tasks m c)) [
    | inl d ↦ elim (zero-or-pos (active ws)) [
      | inl e ↦ (_, take_task c ws 0 d (idle ws e (omega arith)))
      | inr p ↦ Ready-Next c ws g (active-Ready ws p)
    ]
    | inr d ↦ Ready-Next c ws g (active-Ready ws (ground arith))
  ]
    where
      zero-or-pos : (k : ℕ) → (k ≡ 0) ⊎ (0 < k)
      zero-or-pos zero = inl refl
      zero-or-pos (suc k) = inr (omega arith)

  -- An upper bound for the number of steps that are still to come.
  abbrev pub budget : Config → ℕ
  budget s = 3 * (tasks - s.coordinator.next_task_index) + left_all s.workers

  -- Each step takes one off the budget at least.
  pub Step-budget : {s t : Config} → Step tasks m s t → budget t < budget s
  unfolding dispatch collect
  Step-budget (take_task c ws i d e) =
      ground (arith, left_all-set ws i waiting (working c.next_task_index) e)
  Step-budget (end_task c ws i t b e) =
      ground (arith, left_all-set ws i (working t) (sending t b) e)
  Step-budget (send_result c ws i t b g e) =
      ground (arith, left_all-set ws i (sending t b) waiting e)

  abbrev pub steps : {s t : Config} → Reach tasks m s t → ℕ
  steps here = 0
  steps (more r st) = suc (steps r)

  steps-budget : {s t : Config} (r : Reach tasks m s t) → steps r + budget t ≤ budget s
  steps-budget here = omega arith
  steps-budget (more r st) = omega (arith, steps-budget r, Step-budget st)

left_all-replicate : (n : ℕ) → left_all (replicate n waiting) ≡ 0
left_all-replicate zero = refl
left_all-replicate (suc n) = omega (arith, left_all-replicate n)

-- `Run` does not deadlock: as long as its loop goes on, some step can be made.
pub Run_progress :
    (tasks : ℕ) (m n : ℤ) (s : Config)
    → Reach tasks m (start n) s
    → goes_on tasks m s.coordinator ≡ true
    → (t : Config) × Step tasks m s t
Run_progress tasks m n s r g =
    valid-Next tasks m (worker_count n) s.coordinator s.workers (worker_count-pos n)
      (Reach-IsValid tasks m (start-IsValid tasks m n) r) g

-- `Run` ends: however the steps are chosen, there are at most three for each task.
pub Run_terminates :
    (tasks : ℕ) (m n : ℤ) (s : Config) (r : Reach tasks m (start n) s) → steps tasks m r ≤ 3 * tasks
unfolding start
Run_terminates tasks m n s r =
    omega (arith, steps-budget tasks m r, left_all-replicate (worker_count n))
