-- ===== src/Parallel.antt =====
-- hw05_parallel_execution/run.go. The coordinator's loop and the workers' loops run side by side, and
-- meet at unbuffered channels: a run is a sequence of steps, in any order that the channels allow.
-- What a task returns is chosen by the step that ends it. Counters are natural numbers: none passes
-- the number of tasks.
pub mod Invariant
pub mod Progress
mod Tests
use golang_hw.Prelude.Int.{ℤ, pos, negsuc, leb_ℤ, ltb_ℤ}
use golang_hw.Prelude.{
  ℕ, zero, suc, ◌+◌, ◌-◌, Bool, true, false, not, ◌&&◌, ◌||◌, Option, none, some, List, [], ◌∷◌,
  ltb, leb, ◌==◌, if◌then◌else◌, replicate, get_elem?, set, ◌≡◌,
}

-- The coordinator's variables, and two counts of the results that it has received.
pub record Coordinator : Type 0 where
  pub next_task_index : ℕ
  pub running_tasks : ℕ
  pub errors_count : ℕ
  pub errors_limit_exceeded : Bool
  pub succeeded : ℕ
  pub failed : ℕ

-- `runWorker`: it waits for a task, runs it, or waits to send its result.
pub data Worker : Type 0 where
  waiting : Worker
  working : ℕ → Worker
  sending : ℕ → (failed : Bool) → Worker

pub record Config : Type 0 where
  pub coordinator : Coordinator
  pub workers : List Worker

-- `if n <= 0 { n = 1 }`
unfoldable pub worker_count : ℤ → ℕ
worker_count n = elim n [ pos k ↦ if k == 0 then 1 else k | negsuc k ↦ 1 ]

unfoldable pub start : ℤ → Config
unfolding worker_count
start n = record {
  coordinator = record {
    next_task_index = 0;
    running_tasks = 0;
    errors_count = 0;
    errors_limit_exceeded = false;
    succeeded = 0;
    failed = 0;
  };
  workers = replicate (worker_count n) waiting;
}

module _ (tasks : ℕ) (m : ℤ) where
  -- `!errorsLimitExceeded && nextTaskIndex < len(tasks)`
  abbrev pub may_dispatch : Coordinator → Bool
  may_dispatch c = not c.errors_limit_exceeded && ltb c.next_task_index tasks

  -- The condition of the loop.
  abbrev pub goes_on : Coordinator → Bool
  goes_on c = ltb 0 c.running_tasks || may_dispatch c

  -- `case taskOutput <- nextTask`
  unfoldable pub dispatch : Coordinator → Coordinator
  dispatch c = record c {
    next_task_index = c.next_task_index + 1;
    running_tasks = c.running_tasks + 1;
  }

  -- `case taskErr := <-resultChannel`
  unfoldable pub collect : Bool → Coordinator → Coordinator
  collect failed c =
      let c' = record c {
        running_tasks = c.running_tasks - 1;
        succeeded = if failed then c.succeeded else c.succeeded + 1;
        failed = if failed then c.failed + 1 else c.failed;
      } in
      if failed && ltb_ℤ (pos 0) m
      then record c' {
        errors_count = c.errors_count + 1;
        errors_limit_exceeded = leb_ℤ m (pos (c.errors_count + 1));
      }
      else c'

  -- What `Run` returns behind the loop: whether it is ErrErrorsLimitExceeded.
  abbrev pub fails : Coordinator → Bool
  fails c = c.errors_limit_exceeded

  -- One step of the coordinator, a worker, or both at a channel.
  pub data Step : Config → Config → Type 0 where
    take_task :
        (c : Coordinator) (ws : List Worker) (i : ℕ)
        → may_dispatch c ≡ true
        → get_elem? ws i ≡ some waiting
        → Step
            (record { coordinator = c; workers = ws })
            (record { coordinator = dispatch c; workers = set ws i (working c.next_task_index) })
    end_task :
        (c : Coordinator) (ws : List Worker) (i t : ℕ) (failed : Bool)
        → get_elem? ws i ≡ some (working t)
        → Step
            (record { coordinator = c; workers = ws })
            (record { coordinator = c; workers = set ws i (sending t failed) })
    send_result :
        (c : Coordinator) (ws : List Worker) (i t : ℕ) (failed : Bool)
        → goes_on c ≡ true
        → get_elem? ws i ≡ some (sending t failed)
        → Step
            (record { coordinator = c; workers = ws })
            (record { coordinator = collect failed c; workers = set ws i waiting })

  pub data Reach (s : Config) : Config → Type 0 where
    here : Reach s s
    more : {t u : Config} → Reach s t → Step t u → Reach s u
