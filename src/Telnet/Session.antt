-- ===== src/Telnet/Session.antt =====
-- How a session of hw11_telnet_client/main.go ends.
use golang_hw.Telnet.{
  Client, close, transferring, ended, send, receive, interrupted, eof, closed_by_peer, Ending,
  transfer_error, logged, Main, selecting, lingering, closing, returned, State, run_session,
  behind_send, behind_input, behind_receive, World, interrupt, elapse, end_send, end_receive, Own,
  take_interrupt, take_send, take_receive, linger_interrupt, linger_receive, linger_timeout, finish,
  world, own, Reach, here, more,
}
use golang_hw.Prelude.{
  ℕ, suc, ◌+◌, ◌≤◌, ◌<◌, true, Option, none, some, ◌≡◌, ◌≢◌, refl, sym, subst, ◌∙◌, Text, arith,
}

-- What an ending says has happened.
abbrev pub Caused : Ending → State → Type 0
Caused (transfer_error send err) s = s.send_done ≡ ended (some err)
Caused (transfer_error receive err) s = s.receive_done ≡ ended (some err)
Caused (logged interrupted) s = s.ctx_done ≡ true
Caused (logged eof) s = s.send_done ≡ ended none
Caused (logged closed_by_peer) s = s.receive_done ≡ ended none

abbrev pub IsClosed : Client → Type 0
IsClosed c = (c.input_closed ≡ true) × (c.connection_closed ≡ true)

-- `Close` leaves nothing open, whatever the closers answer.
close-IsClosed :
    (input_err connection_err : Option Text) (c : Client)
    → IsClosed (close input_err connection_err c).1
unfolding close
close-IsClosed none connection_err c = (refl, refl)
close-IsClosed (some err) connection_err c = (refl, refl)

abbrev pub Agrees : Main → State → Type 0
Agrees selecting s = Unit
Agrees lingering s = s.send_done ≡ ended none
Agrees (closing e) s = Caused e s
Agrees (returned e) s = Caused e s × IsClosed s.client

abbrev pub IsValid : State → Type 0
IsValid s = Agrees s.main s

-- The surroundings take nothing back.
record IsLater (s t : State) : Type 0 where
  done : s.ctx_done ≡ true → t.ctx_done ≡ true
  sending : (err : Option Text) → s.send_done ≡ ended err → t.send_done ≡ ended err
  receiving : (err : Option Text) → s.receive_done ≡ ended err → t.receive_done ≡ ended err

later : (e : Ending) (s t : State) → IsLater s t → Caused e s → Caused e t
later (transfer_error send err) s t l c = l.sending (some err) c
later (transfer_error receive err) s t l c = l.receiving (some err) c
later (logged interrupted) s t l c = l.done c
later (logged eof) s t l c = l.sending none c
later (logged closed_by_peer) s t l c = l.receiving none c

ended-not : (err : Option Text) → ended err ≢ transferring
ended-not err h = absurd (ground arith)

World-IsLater : {s t : State} → World s t → IsLater s t
World-IsLater (interrupt s) = record { done = λ h. refl; sending = λ x h. h; receiving = λ x h. h }
World-IsLater (elapse s m) = record { done = λ h. h; sending = λ x h. h; receiving = λ x h. h }
World-IsLater (end_send s err e) = record {
  done = λ h. h;
  sending = λ x h. absurd (ended-not x (sym h ∙ e));
  receiving = λ x h. h;
}
World-IsLater (end_receive s err e) = record {
  done = λ h. h;
  sending = λ x h. h;
  receiving = λ x h. absurd (ended-not x (sym h ∙ e));
}

World-main : {s t : State} → World s t → (s.main ≡ t.main) × (s.client ≡ t.client)
World-main (interrupt s) = (refl, refl)
World-main (elapse s m) = (refl, refl)
World-main (end_send s err e) = (refl, refl)
World-main (end_receive s err e) = (refl, refl)

keep : (m : Main) (s t : State) → IsLater s t → s.client ≡ t.client → Agrees m s → Agrees m t
keep selecting s t l c a = tt
keep lingering s t l c a = l.sending none a
keep (closing e) s t l c a = later e s t l a
keep (returned e) s t l c (a, b) = (later e s t l a, subst IsClosed c b)

World-IsValid : {s t : State} → World s t → IsValid s → IsValid t
World-IsValid {s} {t} w a =
    let (m, c) = World-main w in subst (λ x. Agrees x t) m (keep s.main s t (World-IsLater w) c a)

send-Agrees : (err : Option Text) (s : State) → s.send_done ≡ ended err → Agrees (behind_send err) s
unfolding behind_send
send-Agrees none s h = h
send-Agrees (some err) s h = h

input-Caused :
    (err : Option Text) (s : State)
    → s.send_done ≡ ended none
    → s.receive_done ≡ ended err
    → Caused (behind_input err) s
unfolding behind_input
input-Caused none s h k = h
input-Caused (some err) s h k = k

receive-Caused :
    (err : Option Text) (s : State) → s.receive_done ≡ ended err → Caused (behind_receive err) s
unfolding behind_receive
receive-Caused none s h = h
receive-Caused (some err) s h = h

-- `runSession` moves on, and what happened stays.
move : (s : State) (m : Main) → Agrees m s → IsValid (record s { main = m })
move s m a =
    keep m s (record s { main = m })
      (record { done = λ h. h; sending = λ x h. h; receiving = λ x h. h }) refl a

Own-IsValid : {s t : State} → Own s t → IsValid s → IsValid t
Own-IsValid (take_interrupt s m d) a = move s (closing (logged interrupted)) d
Own-IsValid (take_send s err m d) a = move s (behind_send err) (send-Agrees err s d)
Own-IsValid (take_receive s err m d) a =
    move s (closing (behind_receive err)) (receive-Caused err s d)
Own-IsValid (linger_interrupt s m d) a = move s (closing (logged interrupted)) d
Own-IsValid (linger_receive s err m d) a =
    move s (closing (behind_input err)) (input-Caused err s (subst (λ x. Agrees x s) m a) d)
Own-IsValid (linger_timeout s m d) a = move s (closing (logged eof)) (subst (λ x. Agrees x s) m a)
Own-IsValid (finish s ending input_err connection_err m) a = (
  later ending s _ (record { done = λ h. h; sending = λ x h. h; receiving = λ x h. h })
      (subst (λ x. Agrees x s) m a),
  close-IsClosed input_err connection_err s.client,
)

Reach-IsValid : {s t : State} → Reach s t → IsValid s → IsValid t
Reach-IsValid here v = v
Reach-IsValid (more r (world w)) v = World-IsValid w (Reach-IsValid r v)
Reach-IsValid (more r (own o)) v = Own-IsValid o (Reach-IsValid r v)

start-IsValid : (c : Client) → IsValid (run_session c)
unfolding run_session
start-IsValid c = tt

-- When a session has ended, the input and the connection are closed, and its ending is true: an error
-- is what the named operation has failed with, "Interrupted" is logged under a done context, "EOF"
-- when the input was sent to its end, and "Connection was closed by peer" when the receiving ended
-- without an error.
pub run_session-Caused :
    (c : Client) (s : State) (ending : Ending)
    → Reach (run_session c) s
    → s.main ≡ returned ending
    → Caused ending s × IsClosed s.client
run_session-Caused c s ending r m = subst (λ x. Agrees x s) m (Reach-IsValid r (start-IsValid c))

-- The steps to come of each part, but for interrupts.
abbrev main_left : Main → ℕ
main_left selecting = 3
main_left lingering = 2
main_left (closing e) = 1
main_left (returned e) = 0

behind_send-left : (err : Option Text) → main_left (behind_send err) < 3
unfolding behind_send
behind_send-left none = omega arith
behind_send-left (some err) = omega arith

-- `runSession` makes at most three steps.
abbrev pub own_steps : {s t : State} → Reach s t → ℕ
own_steps here = 0
own_steps (more r (world w)) = own_steps r
own_steps (more r (own o)) = suc (own_steps r)

Own-left : {s t : State} → Own s t → main_left t.main < main_left s.main
Own-left (take_interrupt s m d) = ground (arith, m)
Own-left (take_send s err m d) = ground (arith, m, behind_send-left err)
Own-left (take_receive s err m d) = ground (arith, m)
Own-left (linger_interrupt s m d) = ground (arith, m)
Own-left (linger_receive s err m d) = ground (arith, m)
Own-left (linger_timeout s m d) = ground (arith, m)
Own-left (finish s ending input_err connection_err m) = ground (arith, m)

own_steps-left : {s t : State} (r : Reach s t) → own_steps r + main_left t.main ≤ main_left s.main
own_steps-left here = omega arith
own_steps-left (more r (world w)) = rw (sym (World-main w).0) (own_steps-left r)
own_steps-left (more r (own o)) = omega (arith, own_steps-left r, Own-left o)

abbrev pub IsOpen : Main → Type 0
IsOpen (returned e) = ⊥
IsOpen _ = Unit

-- Whatever ended, the session has a step to make.
next : (m : Main) (s : State) → s.main ≡ m → IsOpen m → s.ctx_done ≡ true → (t : State) × Own s t
next selecting s m o d = (_, take_interrupt s m d)
next lingering s m o d = (_, linger_interrupt s m d)
next (closing e) s m o d = (_, finish s e none none m)
next (returned e) s m o d = absurd o

-- An interrupt ends a session: `runSession` makes at most three steps, and until it has ended it has
-- made less and another one is possible as soon as the context is done, though the goroutines of
-- `Send` and `Receive` still run.
pub run_session_interrupted :
    (c : Client) (s : State) (r : Reach (run_session c) s)
    → s.ctx_done ≡ true
    → IsOpen s.main
    → (own_steps r < 3) × ((t : State) × Own s t)
unfolding run_session
run_session_interrupted c s r d o = (ground (arith, own_steps-left r), next s.main s refl o d)
