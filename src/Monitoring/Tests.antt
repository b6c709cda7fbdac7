-- ===== src/Monitoring/Tests.antt =====
-- The process fails while the server is serving.
use golang_hw.Monitoring.Outcome.{RunWithServer-outcome}
use golang_hw.Monitoring.Progress.{RunWithServer_progress, steps}
use golang_hw.Monitoring.{
  Failure, server_closed, other, plain, ended, listening, closed, serving, stopping, awaiting,
  stopped, awaiting_server, returned, State, start, process_first, server_first, end_process, Own,
  serve, begin_stop, shut_down, end_listener, end_start, take_process_err, return_process_first,
  world, own, Reach, here, more, normalize_server_error, end_of_start,
}
use golang_hw.Prelude.{true, false, Option, none, some, ◌≡◌, ◌≢◌, ◌⊎◌, ◌↔◌, refl, codes, ◌<◌}

program : Unit {0}
unfolding start normalize_server_error end_of_start process_first
program = tt

abbrev failure : Option Failure
failure = some (other (codes "boom"))

abbrev failed : State
failed = record (start false) { process = ended failure; server = serving listening }

abbrev final : State
final = record {
  done = false;
  canceled = true;
  process = ended failure;
  server = stopped none;
  main = returned (some (plain (other (codes "boom"))));
}

failing : Reach (start false) failed
unfolding program
failing =
    more (more here (own (serve (start false) refl refl)))
      (world (end_process (record (start false) { server = serving listening }) failure refl))

abbrev waiting : State
waiting = record failed { canceled = true; main = awaiting_server failure }

returning : Reach (start false) final
unfolding program
returning =
    more
      (more
        (more
          (more
            (more (more failing (own (take_process_err failed failure refl refl)))
              (own (begin_stop waiting listening refl refl)))
            (own (shut_down (record waiting { server = stopping listening }) listening none refl)))
          (own (
            end_listener (record waiting { server = awaiting none listening }) none
              (some server_closed) refl)))
        (own (
          end_start (record waiting { server = awaiting none (closed (some server_closed)) }) none
            (some server_closed) refl)))
      (own (return_process_first (record waiting { server = stopped none }) failure none refl refl))

RunWithServer-outcome_example :
    (p e : Option Failure) × (ended failure ≡ ended p)
    × (stopped none ≡ stopped e)
    × (true ≡ true)
    × (e ≢ some server_closed)
    × ((some (plain (other (codes "boom"))) ≡ none) ↔ ((p ≡ none) × (e ≡ none)))
    × ((some (plain (other (codes "boom"))) ≡ process_first p e)
        ⊎ (some (plain (other (codes "boom"))) ≡ server_first e p))
RunWithServer-outcome_example =
    RunWithServer-outcome false final (some (plain (other (codes "boom")))) returning refl

RunWithServer_progress_example : (steps failing < 9) × ((t : State) × Own failed t)
unfolding program
RunWithServer_progress_example = RunWithServer_progress false failed failure failing refl tt
