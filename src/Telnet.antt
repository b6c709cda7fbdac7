-- ===== src/Telnet.antt =====
-- hw11_telnet_client: telnet.go and main.go. A session is a sequence of steps of `runSession` and its
-- two goroutines; what the connection, the input, the clock and the signals do is chosen by the steps
-- of the surroundings. The flag parser and the dialer are data.
pub mod Session
mod Tests
use golang_hw.Prelude.Int.{ℤ}
use golang_hw.Prelude.{
  ℕ, Bool, true, false, Option, none, some, List, [], ◌∷◌, ◌++◌, ◌⊎◌, inl, inr, ◌≡◌, Text,
}

pub record Client : Type 0 where
  pub address : Text
  pub timeout : ℤ
  pub connected : Bool
  pub input_closed : Bool
  pub connection_closed : Bool

unfoldable pub new_telnet_client : Text → ℤ → Client
new_telnet_client address timeout = record {
  address = address;
  timeout = timeout;
  connected = false;
  input_closed = false;
  connection_closed = false;
}

-- `dial` stands for `net.DialTimeout`: its error.
unfoldable pub connect : (dial : Text → ℤ → Option Text) → Client → Option Text × Client
connect dial c = elim (dial c.address c.timeout) [
  | some err ↦ (some err, c)
  | none ↦ (none, record c { connected = true })
]

-- `Close`, with what the two closers answer.
unfoldable pub close : (input_err connection_err : Option Text) → Client → Option Text × Client
close input_err connection_err c =
    let next : Client = record c { input_closed = true; connection_closed = true } in
    elim input_err [ some err ↦ (some err, next) | none ↦ (connection_err, next) ]

-- The command line: what the flag parser answers.
pub data Parsed : Type 0 where
  help : Parsed
  bad_flags : Text → Parsed
  flags : ℤ → List Text → Parsed

pub data UsageError : Type 0 where
  parse_arguments : Text → UsageError
  usage : UsageError
  connect_to : Text → Text → UsageError

-- `run` up to the session: an error or nil, or the client that the session is given.
unfoldable pub prepare :
    (join_host_port : Text → Text → Text) (dial : Text → ℤ → Option Text)
    → Parsed
    → Option UsageError ⊎ Client
unfolding new_telnet_client connect
prepare join_host_port dial help = inl none
prepare join_host_port dial (bad_flags err) = inl (some (parse_arguments err))
prepare join_host_port dial (flags timeout (host ∷ port ∷ [])) =
    let address = join_host_port host port in
    let client = connect dial (new_telnet_client address timeout) in
    elim client.0 [ some err ↦ inl (some (connect_to address err)) | none ↦ inr client.1 ]
prepare join_host_port dial (flags timeout _) = inl (some usage)

-- A goroutine of `Send` or `Receive`, and what its channel holds.
pub data Transfer : Type 0 where
  transferring : Transfer
  ended : Option Text → Transfer

pub data Operation : Type 0 where
  send receive : Operation

pub data Message : Type 0 where
  interrupted eof closed_by_peer : Message

-- An error of an operation, or the message that is logged.
pub data Ending : Type 0 where
  transfer_error : Operation → Text → Ending
  logged : Message → Ending

-- The first select, the select behind the end of the input, `client.Close()`, and the end.
pub data Main : Type 0 where
  selecting : Main
  lingering : Main
  closing : Ending → Main
  returned : Ending → Main

pub record State : Type 0 where
  pub ctx_done : Bool
  -- the grace period is over
  pub elapsed : Bool
  pub send_done : Transfer
  pub receive_done : Transfer
  pub client : Client
  pub close_errors : List Text
  pub main : Main

unfoldable pub run_session : Client → State
run_session c = record {
  ctx_done = false;
  elapsed = false;
  send_done = transferring;
  receive_done = transferring;
  client = c;
  close_errors = [];
  main = selecting;
}

-- `case transferErr = <-sendDone`
unfoldable pub behind_send : Option Text → Main
behind_send none = lingering
behind_send (some err) = closing (transfer_error send err)

-- `case transferErr = <-receiveDone` of the second select
unfoldable pub behind_input : Option Text → Ending
behind_input none = logged eof
behind_input (some err) = transfer_error receive err

-- `case transferErr = <-receiveDone` of the first one
unfoldable pub behind_receive : Option Text → Ending
behind_receive none = logged closed_by_peer
behind_receive (some err) = transfer_error receive err

unfoldable pub log_close_error : Option Text → List Text → List Text
log_close_error none errors = errors
log_close_error (some err) errors = errors ++ err ∷ []

pub data World : State → State → Type 0 where
  interrupt : (s : State) → World s (record s { ctx_done = true })
  elapse : (s : State) → s.main ≡ lingering → World s (record s { elapsed = true })
  end_send :
      (s : State) (err : Option Text)
      → s.send_done ≡ transferring
      → World s (record s { send_done = ended err })
  end_receive :
      (s : State) (err : Option Text)
      → s.receive_done ≡ transferring
      → World s (record s { receive_done = ended err })

pub data Own : State → State → Type 0 where
  take_interrupt :
      (s : State)
      → s.main ≡ selecting
      → s.ctx_done ≡ true
      → Own s (record s { main = closing (logged interrupted) })
  take_send :
      (s : State) (err : Option Text)
      → s.main ≡ selecting
      → s.send_done ≡ ended err
      → Own s (record s { main = behind_send err })
  take_receive :
      (s : State) (err : Option Text)
      → s.main ≡ selecting
      → s.receive_done ≡ ended err
      → Own s (record s { main = closing (behind_receive err) })
  linger_interrupt :
      (s : State)
      → s.main ≡ lingering
      → s.ctx_done ≡ true
      → Own s (record s { main = closing (logged interrupted) })
  linger_receive :
      (s : State) (err : Option Text)
      → s.main ≡ lingering
      → s.receive_done ≡ ended err
      → Own s (record s { main = closing (behind_input err) })
  linger_timeout :
      (s : State)
      → s.main ≡ lingering
      → s.elapsed ≡ true
      → Own s (record s { main = closing (logged eof) })
  finish :
      (s : State) (ending : Ending) (input_err connection_err : Option Text)
      → s.main ≡ closing ending
      → Own s (record s {
        client = (close input_err connection_err s.client).1;
        close_errors = log_close_error (close input_err connection_err s.client).0 s.close_errors;
        main = returned ending;
      })

pub data Step (s t : State) : Type 0 where
  world : World s t → Step s t
  own : Own s t → Step s t

pub data Reach (s : State) : State → Type 0 where
  here : Reach s s
  more : {t u : State} → Reach s t → Step t u → Reach s u
