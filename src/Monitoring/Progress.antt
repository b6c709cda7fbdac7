-- ===== src/Monitoring/Progress.antt =====
-- `RunWithServer` of internal/monitoring/server.go never gets stuck, and ends.
use golang_hw.Monitoring.Outcome.{Agrees, Reach-IsValid, start-IsValid}
use golang_hw.Monitoring.{
  Failure, Process, working, ended, Listener, listening, closed, Server, starting, serving,
  stopping, awaiting, stopped, Main, selecting, awaiting_server, awaiting_process, returned, State,
  start, World, interrupt, end_process, fail_listener, Own, skip, serve, take_serve_err, begin_stop,
  end_listener_stopping, shut_down, end_listener, end_start, take_process_err, take_metrics_err,
  return_process_first, return_server_first, world, own, Reach, here, more,
}
use golang_hw.Prelude.{
  ℕ, suc, ◌+◌, ◌≤◌, ◌<◌, Bool, true, Option, none, inl, inr, ◌≡◌, ◌⊎◌, refl, arith, if◌then◌else◌,
}

-- The steps that each part still makes.
abbrev listener_left : Listener → ℕ
listener_left listening = 1
listener_left (closed err) = 0

abbrev server_left : Server → ℕ
server_left starting = 5
server_left (serving l) = 3 + listener_left l
server_left (stopping l) = 2 + listener_left l
server_left (awaiting stop_err l) = 1 + listener_left l
server_left (stopped err) = 0

abbrev process_left : Process → ℕ
process_left working = 1
process_left (ended err) = 0

abbrev main_left : Main → ℕ
main_left selecting = 2
main_left (awaiting_server err) = 1
main_left (awaiting_process err) = 1
main_left (returned r) = 0

abbrev budget : State → ℕ
budget s =
    (if s.done then 0 else 1) + process_left s.process + server_left s.server + main_left s.main

Own-budget : {s t : State} → Own s t → budget t < budget s
Own-budget (skip s e d) = ground (arith, e)
Own-budget (serve s e d) = ground (arith, e)
Own-budget (take_serve_err s err e) = ground (arith, e)
Own-budget (begin_stop s l e d) = ground (arith, e)
Own-budget (end_listener_stopping s err e) = ground (arith, e)
Own-budget (shut_down s l err e) = ground (arith, e)
Own-budget (end_listener s stop_err err e) = ground (arith, e)
Own-budget (end_start s stop_err err e) = ground (arith, e)
Own-budget (take_process_err s err m e) = ground (arith, m)
Own-budget (take_metrics_err s err m e) = ground (arith, m)
Own-budget (return_process_first s err server_err m e) = ground (arith, m)
Own-budget (return_server_first s err service_err m e) = ground (arith, m)

World-budget : {s t : State} → World s t → budget t < budget s
World-budget (interrupt s e) = ground (arith, e)
World-budget (end_process s err e) = ground (arith, e)
World-budget (fail_listener s err e) = ground (arith, e)

abbrev pub steps : {s t : State} → Reach s t → ℕ
steps here = 0
steps (more r st) = suc (steps r)

steps-budget : {s t : State} (r : Reach s t) → steps r + budget t ≤ budget s
steps-budget here = omega arith
steps-budget (more r (own o)) = omega (arith, steps-budget r, Own-budget o)
steps-budget (more r (world w)) = omega (arith, steps-budget r, World-budget w)

-- It has not returned.
abbrev pub IsOpen : Main → Type 0
IsOpen (returned r) = ⊥
IsOpen _ = Unit

-- Under a cancelled context the server comes to its end.
server-Own :
    (s : State) (server : Server)
    → s.server ≡ server
    → s.canceled ≡ true
    → ((t : State) × Own s t) ⊎ ((e : Option Failure) × (server ≡ stopped e))
server-Own s starting h c = inl (_, skip s h (ground (arith, c)))
server-Own s (serving l) h c = inl (_, begin_stop s l h (ground (arith, c)))
server-Own s (stopping l) h c = inl (_, shut_down s l none h)
server-Own s (awaiting stop_err listening) h c = inl (_, end_listener s stop_err none h)
server-Own s (awaiting stop_err (closed err)) h c = inl (_, end_start s stop_err err h)
server-Own s (stopped e) h c = inr (e, refl)

next :
    (m : Main) (s : State) (p : Option Failure)
    → s.main ≡ m
    → Agrees m s
    → IsOpen m
    → s.process ≡ ended p
    → (t : State) × Own s t
next selecting s p m a o h = (_, take_process_err s p m h)
next (awaiting_server err) s p m (q, c) o h = elim (server-Own s s.server refl c) [
  | inl t ↦ t
  | inr (e, k) ↦ (_, return_process_first s err e m k)
]
next (awaiting_process err) s p m a o h = (_, return_server_first s err p m h)
next (returned r) s p m a o h = absurd o

-- What is open has a step to come.
open-budget : (s : State) → IsOpen s.main → 0 < budget s
open-budget s o = ground arith

-- `RunWithServer` returns: before that it has taken less than nine steps, whatever their order; and
-- once the process has ended it goes on by itself, without a cancellation of its caller or a failure
-- of the server.
pub RunWithServer_progress :
    (done : Bool) (s : State) (p : Option Failure) (r : Reach (start done) s)
    → s.process ≡ ended p
    → IsOpen s.main
    → (steps r < 9) × ((t : State) × Own s t)
unfolding start
RunWithServer_progress done s p r h o = (
  ground (arith, steps-budget r, open-budget s o),
  next s.main s p refl (Reach-IsValid r (start-IsValid done)).1 o h,
)
