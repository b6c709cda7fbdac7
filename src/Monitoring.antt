-- ===== src/Monitoring.antt =====
-- internal/monitoring/server.go of the calendar: `RunWithServer` with the process and the metrics
-- server that it starts, as steps in any order that their channels allow. What the process,
-- `ListenAndServe` and `Shutdown` return is chosen by the step that ends them. The buffered channels
-- keep what they hold, which is read once.
pub mod Outcome
pub mod Progress
mod Tests
use golang_hw.Prelude.{Bool, true, false, ◌||◌, Option, none, some, ◌≡◌, Text}

pub data Failure : Type 0 where
  -- http.ErrServerClosed
  server_closed : Failure
  other : Text → Failure

-- What `RunWithServer` returns, "run metrics server" around the cause in one case.
pub data RunError : Type 0 where
  plain wrapped : Failure → RunError

unfoldable pub normalize_server_error : Option Failure → Option Failure
normalize_server_error none = none
normalize_server_error (some server_closed) = none
normalize_server_error (some (other err)) = some (other err)

-- The goroutine of the process.
pub data Process : Type 0 where
  working : Process
  ended : Option Failure → Process

-- The goroutine of `ListenAndServe`.
pub data Listener : Type 0 where
  listening : Listener
  closed : Option Failure → Listener

-- `Start`: before its first select, at the second one, in `Stop`, and waiting for the listener.
pub data Server : Type 0 where
  starting : Server
  serving : Listener → Server
  stopping : Listener → Server
  awaiting : (stop_err : Option Failure) → Listener → Server
  stopped : Option Failure → Server

-- `RunWithServer`: at its select, or waiting for the other part.
pub data Main : Type 0 where
  selecting : Main
  awaiting_server : Option Failure → Main
  awaiting_process : Option Failure → Main
  returned : Option RunError → Main

pub record State : Type 0 where
  -- the caller's context is done, and `cancel` was called
  pub done : Bool
  pub canceled : Bool
  pub process : Process
  pub server : Server
  pub main : Main

unfoldable pub start : Bool → State
start done = record {
  done = done;
  canceled = false;
  process = working;
  server = starting;
  main = selecting;
}

-- `runCtx.Done()` is closed.
abbrev pub run_ctx_done : State → Bool
run_ctx_done s = s.done || s.canceled

-- `if stopErr != nil { return stopErr }`
unfoldable pub end_of_start : Option Failure → Option Failure → Option Failure
unfolding normalize_server_error
end_of_start (some stop_err) serve_err = some stop_err
end_of_start none serve_err = normalize_server_error serve_err

unfoldable pub process_first : (err server_err : Option Failure) → Option RunError
process_first (some err) server_err = some (plain err)
process_first none none = none
process_first none (some server_err) = some (plain server_err)

unfoldable pub server_first : (err service_err : Option Failure) → Option RunError
server_first (some err) service_err = some (wrapped err)
server_first none none = none
server_first none (some service_err) = some (plain service_err)

-- What the surroundings do: the caller's context ends, the process ends, the listener fails.
pub data World : State → State → Type 0 where
  interrupt : (s : State) → s.done ≡ false → World s (record s { done = true })
  end_process :
      (s : State) (err : Option Failure)
      → s.process ≡ working
      → World s (record s { process = ended err })
  fail_listener :
      (s : State) (err : Option Failure)
      → s.server ≡ serving listening
      → World s (record s { server = serving (closed err) })

-- The steps of the code. A listener ends behind the call of `Shutdown`.
pub data Own : State → State → Type 0 where
  skip :
      (s : State)
      → s.server ≡ starting
      → run_ctx_done s ≡ true
      → Own s (record s { server = stopped none })
  serve :
      (s : State)
      → s.server ≡ starting
      → run_ctx_done s ≡ false
      → Own s (record s { server = serving listening })
  take_serve_err :
      (s : State) (err : Option Failure)
      → s.server ≡ serving (closed err)
      → Own s (record s { server = stopped (normalize_server_error err) })
  begin_stop :
      (s : State) (l : Listener)
      → s.server ≡ serving l
      → run_ctx_done s ≡ true
      → Own s (record s { server = stopping l })
  end_listener_stopping :
      (s : State) (err : Option Failure)
      → s.server ≡ stopping listening
      → Own s (record s { server = stopping (closed err) })
  shut_down :
      (s : State) (l : Listener) (err : Option Failure)
      → s.server ≡ stopping l
      → Own s (record s { server = awaiting (normalize_server_error err) l })
  end_listener :
      (s : State) (stop_err err : Option Failure)
      → s.server ≡ awaiting stop_err listening
      → Own s (record s { server = awaiting stop_err (closed err) })
  end_start :
      (s : State) (stop_err err : Option Failure)
      → s.server ≡ awaiting stop_err (closed err)
      → Own s (record s { server = stopped (end_of_start stop_err err) })
  take_process_err :
      (s : State) (err : Option Failure)
      → s.main ≡ selecting
      → s.process ≡ ended err
      → Own s (record s { canceled = true; main = awaiting_server err })
  take_metrics_err :
      (s : State) (err : Option Failure)
      → s.main ≡ selecting
      → s.server ≡ stopped err
      → Own s (record s { canceled = true; main = awaiting_process err })
  return_process_first :
      (s : State) (err server_err : Option Failure)
      → s.main ≡ awaiting_server err
      → s.server ≡ stopped server_err
      → Own s (record s { main = returned (process_first err server_err) })
  return_server_first :
      (s : State) (err service_err : Option Failure)
      → s.main ≡ awaiting_process err
      → s.process ≡ ended service_err
      → Own s (record s { main = returned (server_first err service_err) })

pub data Step (s t : State) : Type 0 where
  world : World s t → Step s t
  own : Own s t → Step s t

pub data Reach (s : State) : State → Type 0 where
  here : Reach s s
  more : {t u : State} → Reach s t → Step t u → Reach s u
