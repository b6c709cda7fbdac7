-- ===== src/Telnet/Tests.antt =====
-- A session whose input ends, and that is then interrupted.
use golang_hw.Prelude.Int.{pos}
use golang_hw.Prelude.{true, false, none, ◌<◌, refl, codes}
use golang_hw.Telnet.Session.{
  Caused, IsClosed, own_steps, run_session-Caused, run_session_interrupted,
}
use golang_hw.Telnet.{
  Client, close, log_close_error, behind_send, ended, interrupted, logged, lingering, closing,
  returned, State, run_session, interrupt, end_send, Own, take_send, linger_interrupt, finish,
  world, own, Reach, here, more,
}

program : Unit {0}
unfolding run_session close log_close_error behind_send
program = tt

abbrev client : Client
client = record {
  address = codes "localhost:4242";
  timeout = pos 10;
  connected = true;
  input_closed = false;
  connection_closed = false;
}

abbrev sent : State
sent = record (run_session client) { send_done = ended none }

abbrev waiting : State
waiting = record sent { ctx_done = true; main = lingering }

abbrev final : State
final = record waiting {
  client = record client { input_closed = true; connection_closed = true };
  main = returned (logged interrupted);
}

lingering_reached : Reach (run_session client) waiting
unfolding program
lingering_reached =
    more
      (more (more here (world (end_send (run_session client) none refl)))
        (own (take_send sent none refl refl)))
      (world (interrupt (record sent { main = lingering })))

final_reached : Reach (run_session client) final
unfolding program
final_reached = more (more lingering_reached (own (linger_interrupt waiting refl refl))) (
    own (
      finish (record waiting { main = closing (logged interrupted) }) (logged interrupted) none none
        refl))

run_session-Caused_example : Caused (logged interrupted) final × IsClosed final.client
run_session-Caused_example = run_session-Caused client final (logged interrupted) final_reached refl

run_session_interrupted_example : (own_steps lingering_reached < 3) × ((t : State) × Own waiting t)
run_session_interrupted_example = run_session_interrupted client waiting lingering_reached refl tt
