-- ===== src/Parallel/Invariant.antt =====
-- What holds in every state that `Run` reaches.
use golang_hw.Parallel.{
  Worker, waiting, working, sending, Config, worker_count, start, goes_on, dispatch, collect, fails,
  Step, take_task, end_task, send_result, Reach, here, more,
}
use golang_hw.Prelude.Int.{ℤ, pos, leb_ℤ, ltb_ℤ, pos_part, ◌≤ℤ◌}
use golang_hw.Prelude.{
  ℕ, zero, suc, ◌+◌, ◌≤◌, ◌<◌, ◌≡◌, ◌↔◌, refl, sym, ap, true, false, some, List, [], ◌∷◌, replicate,
  get_elem?, set, arith, length, ◌⊎◌,
}

-- The workers that have a task, and the steps that they still make.
abbrev pub is_active : Worker → ℕ
is_active waiting = 0
is_active (working t) = 1
is_active (sending t f) = 1

abbrev pub active : List Worker → ℕ
active [] = 0
active (w ∷ ws) = is_active w + active ws

pub active-set :
    (ws : List Worker) (i : ℕ) (v w : Worker)
    → get_elem? ws i ≡ some v
    → active (set ws i w) + is_active v ≡ active ws + is_active w
active-set [] i v w e = cc
active-set (u ∷ ws) zero v w e = ground arith
active-set (u ∷ ws) (suc i) v w e = omega (arith, active-set ws i v w e)

pub length-set : (ws : List Worker) (i : ℕ) (w : Worker) → length (set ws i w) ≡ length ws
length-set [] i w = refl
length-set (u ∷ ws) zero w = refl
length-set (u ∷ ws) (suc i) w = omega (arith, length-set ws i w)

-- A worker that waits is not among the active ones.
pub active-lt : (ws : List Worker) (i : ℕ) → get_elem? ws i ≡ some waiting → active ws < length ws
active-lt [] i e = cc
active-lt (u ∷ ws) zero e = ground (arith, active-le ws)
  where
    active-le : (ws : List Worker) → active ws ≤ length ws
    active-le [] = omega arith
    active-le (waiting ∷ ws) = omega (arith, active-le ws)
    active-le (working t ∷ ws) = omega (arith, active-le ws)
    active-le (sending t f ∷ ws) = omega (arith, active-le ws)
active-lt (waiting ∷ ws) (suc i) e = omega (arith, active-lt ws i e)
active-lt (working t ∷ ws) (suc i) e = omega (arith, active-lt ws i e)
active-lt (sending t f ∷ ws) (suc i) e = omega (arith, active-lt ws i e)

-- `m > 0`: the limit is on.
abbrev pub IsLimited : ℤ → Type 0
IsLimited m = ltb_ℤ (pos 0) m ≡ true

module _ (tasks : ℕ) (m : ℤ) where
  pub record IsValid (n : ℕ) (s : Config) : Type 0 where
    pub workers : length s.workers ≡ n
    pub running : s.coordinator.running_tasks ≡ active s.workers
    pub bounded : s.coordinator.running_tasks ≤ n
    pub started : s.coordinator.next_task_index ≤ tasks
    pub accounted :
        s.coordinator.next_task_index
        ≡ s.coordinator.running_tasks + s.coordinator.succeeded + s.coordinator.failed
    pub counted : IsLimited m → s.coordinator.errors_count ≡ s.coordinator.failed
    pub exceeded :
        IsLimited m → s.coordinator.errors_limit_exceeded ≡ leb_ℤ m (pos s.coordinator.failed)
    pub unlimited : ltb_ℤ (pos 0) m ≡ false → s.coordinator.errors_limit_exceeded ≡ false
    pub excess :
        IsLimited m → s.coordinator.next_task_index < s.coordinator.succeeded + n + pos_part m

  pub Step-IsValid : {n : ℕ} {s t : Config} → Step tasks m s t → IsValid n s → IsValid n t
  unfolding dispatch collect
  Step-IsValid (take_task c ws i d e) v = ground (
    arith,
    length-set ws i (working c.next_task_index),
    active-set ws i waiting (working c.next_task_index) e,
    active-lt ws i e,
  )
  Step-IsValid (end_task c ws i t f e) v =
      ground (arith, length-set ws i (sending t f), active-set ws i (working t) (sending t f) e)
  Step-IsValid (send_result c ws i t f g e) v =
      ground (arith, length-set ws i waiting, active-set ws i (sending t f) waiting e)

  pub Reach-IsValid : {n : ℕ} {s t : Config} → IsValid n s → Reach tasks m s t → IsValid n t
  Reach-IsValid v here = v
  Reach-IsValid v (more r st) = Step-IsValid st (Reach-IsValid v r)

length-replicate : (n : ℕ) (w : Worker) → length (replicate n w) ≡ n
length-replicate zero w = refl
length-replicate (suc n) w = ap suc (length-replicate n w)

active-replicate : (n : ℕ) → active (replicate n waiting) ≡ 0
active-replicate zero = refl
active-replicate (suc n) = omega (arith, active-replicate n)

pub worker_count-pos : (n : ℤ) → 0 < worker_count n
unfolding worker_count
worker_count-pos n = ground arith

pub start-IsValid : (tasks : ℕ) (m n : ℤ) → IsValid tasks m (worker_count n) (start n)
unfolding start
start-IsValid tasks m n = ground (
  arith,
  length-replicate (worker_count n) waiting,
  active-replicate (worker_count n),
  worker_count-pos n,
)

-- In every state that `Run` reaches on `n` workers and an error limit `m`: the tasks that were
-- started and not yet reported are those that the workers hold, at most as many as there are workers; each
-- started task is running, succeeded or failed; and unless `m` is 0 or negative, fewer tasks are started
-- than those that succeeded, the workers and `m` together.
pub Run-bounds :
    (tasks : ℕ) (m n : ℤ) (s : Config)
    → Reach tasks m (start n) s
    → (active s.workers ≡ s.coordinator.running_tasks)
      × (s.coordinator.running_tasks ≤ worker_count n)
      × (s.coordinator.next_task_index ≤ tasks)
      × (s.coordinator.next_task_index
          ≡ s.coordinator.running_tasks + s.coordinator.succeeded + s.coordinator.failed)
      × ((m ≤ℤ pos 0)
          ⊎ (s.coordinator.next_task_index < s.coordinator.succeeded + worker_count n + pos_part m))
Run-bounds tasks m n s r =
    let v = Reach-IsValid tasks m (start-IsValid tasks m n) r in
    (sym v.running, v.bounded, v.started, v.accounted, ground arith)

-- When the loop ends no worker holds a task, and `Run` reports the exceeded limit exactly where `m` is positive and at
-- least `m` tasks failed; where it reports none, every task was started and has reported.
pub Run-outcome :
    (tasks : ℕ) (m n : ℤ) (s : Config)
    → Reach tasks m (start n) s
    → goes_on tasks m s.coordinator ≡ false
    → (active s.workers ≡ 0)
      × ((fails tasks m s.coordinator ≡ true) ↔ ((pos 1 ≤ℤ m) × (m ≤ℤ pos s.coordinator.failed)))
      × ((fails tasks m s.coordinator ≡ true)
          ⊎ (s.coordinator.succeeded + s.coordinator.failed ≡ tasks))
Run-outcome tasks m n s r e =
    let v = Reach-IsValid tasks m (start-IsValid tasks m n) r in
    (ground arith, (ground arith, ground arith), ground arith)
