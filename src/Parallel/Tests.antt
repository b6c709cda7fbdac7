-- ===== src/Parallel/Tests.antt =====
-- A run of two tasks, one of which fails, on one worker with a limit of one error.
use golang_hw.Parallel.Invariant.{active, Run-bounds, Run-outcome}
use golang_hw.Parallel.Progress.{Run_progress, Run_terminates, steps}
use golang_hw.Parallel.{
  Coordinator, waiting, working, sending, Config, worker_count, start, dispatch, collect, fails,
  Step, take_task, end_task, send_result, Reach, here, more,
}
use golang_hw.Prelude.Int.{pos, negsuc, ◌≤ℤ◌}
use golang_hw.Prelude.{◌+◌, ◌*◌, ◌≤◌, ◌<◌, ◌≡◌, ◌↔◌, refl, true, false, [], ◌∷◌, ◌⊎◌}

program : Unit {0}
unfolding worker_count start dispatch collect
program = tt

abbrev first : Coordinator
first = record {
  next_task_index = 1;
  running_tasks = 1;
  errors_count = 0;
  errors_limit_exceeded = false;
  succeeded = 0;
  failed = 0;
}

abbrev stopped : Config
stopped = record {
  coordinator = record first {
    running_tasks = 0;
    errors_count = 1;
    errors_limit_exceeded = true;
    failed = 1;
  };
  workers = waiting ∷ [];
}

-- The task fails, and the second one is not started.
failing : Reach 2 (pos 1) (start (negsuc 0)) stopped
unfolding program
failing =
    more
      (more (more here (take_task (start (negsuc 0)).coordinator (waiting ∷ []) 0 refl refl))
        (end_task first (working 0 ∷ []) 0 0 true refl))
      (send_result first (sending 0 true ∷ []) 0 0 true refl refl)

Run-bounds_example :
    (active stopped.workers ≡ 0)
    × (0 ≤ worker_count (negsuc 0))
    × (1 ≤ 2)
    × (1 ≡ 0 + 0 + 1)
    × ((pos 1 ≤ℤ pos 0) ⊎ (1 < 0 + worker_count (negsuc 0) + 1))
Run-bounds_example = Run-bounds 2 (pos 1) (negsuc 0) stopped failing

Run-outcome_example :
    (active stopped.workers ≡ 0)
    × ((fails 2 (pos 1) stopped.coordinator ≡ true) ↔ ((pos 1 ≤ℤ pos 1) × (pos 1 ≤ℤ pos 1)))
    × ((fails 2 (pos 1) stopped.coordinator ≡ true) ⊎ (0 + 1 ≡ 2))
Run-outcome_example = Run-outcome 2 (pos 1) (negsuc 0) stopped failing refl

Run_progress_example : (t : Config) × Step 2 (pos 1) (start (pos 3)) t
unfolding program
Run_progress_example = Run_progress 2 (pos 1) (pos 3) (start (pos 3)) here refl

Run_terminates_example : steps 2 (pos 1) failing ≤ 3 * 2
Run_terminates_example = Run_terminates 2 (pos 1) (negsuc 0) stopped failing
