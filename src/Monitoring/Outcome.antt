-- ===== src/Monitoring/Outcome.antt =====
-- What `RunWithServer` of internal/monitoring/server.go returns, and when.
use golang_hw.Monitoring.{
  Failure, server_closed, other, RunError, normalize_server_error, working, ended, listening,
  closed, Server, starting, serving, stopping, awaiting, stopped, Main, selecting, awaiting_server,
  awaiting_process, returned, State, start, end_of_start, process_first, server_first, World,
  interrupt, end_process, fail_listener, Own, skip, serve, take_serve_err, begin_stop,
  end_listener_stopping, shut_down, end_listener, end_start, take_process_err, take_metrics_err,
  return_process_first, return_server_first, world, own, Reach, here, more,
}
use golang_hw.Prelude.{
  Bool, true, Option, none, some, inl, inr, ◌≡◌, ◌≢◌, ◌⊎◌, ◌↔◌, refl, sym, subst, arith, ◌∙◌,
}

-- The closing of the server is no error.
abbrev pub IsNormal : Option Failure → Type 0
IsNormal err = err ≢ some server_closed

-- Nothing that the server will give from here on is the closing itself.
abbrev pub Normal : Server → Type 0
Normal starting = Unit
Normal (serving l) = Unit
Normal (stopping l) = Unit
Normal (awaiting stop_err l) = IsNormal stop_err
Normal (stopped err) = IsNormal err

-- What the phase of `RunWithServer` says of the two parts.
abbrev pub Agrees : Main → State → Type 0
Agrees selecting s = Unit
Agrees (awaiting_server err) s = (s.process ≡ ended err) × (s.canceled ≡ true)
Agrees (awaiting_process err) s = (s.server ≡ stopped err) × (s.canceled ≡ true)
Agrees (returned r) s =
    (p e : Option Failure) × (s.process ≡ ended p)
    × (s.server ≡ stopped e)
    × (s.canceled ≡ true)
    × ((r ≡ process_first p e) ⊎ (r ≡ server_first e p))

abbrev pub IsValid : State → Type 0
IsValid s = Normal s.server × Agrees s.main s

normalize-IsNormal : (err : Option Failure) → IsNormal (normalize_server_error err)
unfolding normalize_server_error
normalize-IsNormal none = λ h. absurd (ground arith)
normalize-IsNormal (some server_closed) = λ h. absurd (ground arith)
normalize-IsNormal (some (other err)) = λ h. absurd (ground arith)

end_of_start-IsNormal :
    (stop_err err : Option Failure) → IsNormal stop_err → IsNormal (end_of_start stop_err err)
unfolding end_of_start
end_of_start-IsNormal none err h = normalize-IsNormal err
end_of_start-IsNormal (some stop_err) err h = h

ended-not-working : (e : Option Failure) → ended e ≢ working
ended-not-working e h = absurd (ground arith)

-- A process that ends while it works.
process-Agrees :
    (m : Main) (s : State) (err : Option Failure)
    → s.process ≡ working
    → Agrees m s
    → Agrees m (record s { process = ended err })
process-Agrees selecting s err w a = tt
process-Agrees (awaiting_server e) s err w a = absurd (ended-not-working e (sym a.0 ∙ w))
process-Agrees (awaiting_process e) s err w a = a
process-Agrees (returned r) s err w (p, e, a, b, c, f) = absurd (ended-not-working p (sym a ∙ w))

-- A server that moves on while it has not stopped.
server-Agrees :
    (m : Main) (s : State) (server : Server)
    → ((err : Option Failure) → s.server ≢ stopped err)
    → Agrees m s
    → Agrees m (record s { server = server })
server-Agrees selecting s server w a = tt
server-Agrees (awaiting_server e) s server w a = a
server-Agrees (awaiting_process e) s server w a = absurd (w e a.0)
server-Agrees (returned r) s server w (p, e, a, b, c, f) = absurd (w e b)

done-Agrees : (m : Main) (s : State) → Agrees m s → Agrees m (record s { done = true })
done-Agrees selecting s a = tt
done-Agrees (awaiting_server e) s a = a
done-Agrees (awaiting_process e) s a = a
done-Agrees (returned r) s a = a

-- The server that a state has, and then another, both short of the end.
moves :
    (s : State) (before after : Server)
    → s.server ≡ before
    → ((err : Option Failure) → before ≢ stopped err)
    → (Normal before → Normal after)
    → IsValid s
    → IsValid (record s { server = after })
moves s before after e b n (v, a) =
    (n (subst Normal e v), server-Agrees s.main s after (λ err h. b err (sym e ∙ h)) a)

World-IsValid : {s t : State} → World s t → IsValid s → IsValid t
World-IsValid (interrupt s e) (v, a) = (v, done-Agrees s.main s a)
World-IsValid (end_process s err e) (v, a) = (v, process-Agrees s.main s err e a)
World-IsValid (fail_listener s err e) v =
    moves s (serving listening) (serving (closed err)) e (λ x h. absurd (ground arith)) (λ n. tt) v

Own-IsValid : {s t : State} → Own s t → IsValid s → IsValid t
Own-IsValid (skip s e d) v =
    moves s starting (stopped none) e (λ x h. absurd (ground arith)) (λ n h. absurd (ground arith))
      v
Own-IsValid (serve s e d) v =
    moves s starting (serving listening) e (λ x h. absurd (ground arith)) (λ n. tt) v
Own-IsValid (take_serve_err s err e) v =
    moves s (serving (closed err)) (stopped (normalize_server_error err)) e
      (λ x h. absurd (ground arith)) (λ n. normalize-IsNormal err) v
Own-IsValid (begin_stop s l e d) v =
    moves s (serving l) (stopping l) e (λ x h. absurd (ground arith)) (λ n. tt) v
Own-IsValid (end_listener_stopping s err e) v =
    moves s (stopping listening) (stopping (closed err)) e (λ x h. absurd (ground arith)) (λ n. tt)
      v
Own-IsValid (shut_down s l err e) v =
    moves s (stopping l) (awaiting (normalize_server_error err) l) e (λ x h. absurd (ground arith))
      (λ n. normalize-IsNormal err) v
Own-IsValid (end_listener s stop_err err e) v =
    moves s (awaiting stop_err listening) (awaiting stop_err (closed err)) e
      (λ x h. absurd (ground arith)) (λ n. n) v
Own-IsValid (end_start s stop_err err e) v =
    moves s (awaiting stop_err (closed err)) (stopped (end_of_start stop_err err)) e
      (λ x h. absurd (ground arith)) (end_of_start-IsNormal stop_err err) v
Own-IsValid (take_process_err s err m e) (v, a) = (v, (e, refl))
Own-IsValid (take_metrics_err s err m e) (v, a) = (v, (e, refl))
Own-IsValid (return_process_first s err server_err m e) (v, a) =
    let b = subst (λ x. Agrees x s) m a in (v, (err, server_err, b.0, e, b.1, inl refl))
Own-IsValid (return_server_first s err service_err m e) (v, a) =
    let b = subst (λ x. Agrees x s) m a in (v, (service_err, err, e, b.0, b.1, inr refl))

pub Reach-IsValid : {s t : State} → Reach s t → IsValid s → IsValid t
Reach-IsValid here v = v
Reach-IsValid (more r (world w)) v = World-IsValid w (Reach-IsValid r v)
Reach-IsValid (more r (own o)) v = Own-IsValid o (Reach-IsValid r v)

pub start-IsValid : (done : Bool) → IsValid (start done)
unfolding start
start-IsValid done = (tt, tt)

nil_iff :
    (r : Option RunError) (p e : Option Failure)
    → (r ≡ process_first p e) ⊎ (r ≡ server_first e p)
    → (r ≡ none) ↔ ((p ≡ none) × (e ≡ none))
unfolding process_first server_first
nil_iff r none none h = ground arith
nil_iff r none (some e) h = ground arith
nil_iff r (some p) none h = ground arith
nil_iff r (some p) (some e) h = ground arith

-- When `RunWithServer` returns, the context of both parts is cancelled and both have ended: none is
-- left running. It returns nil exactly where neither of them failed, or else the error of one that
-- did; that the server was closed counts as no failure.
pub RunWithServer-outcome :
    (done : Bool) (s : State) (r : Option RunError)
    → Reach (start done) s
    → s.main ≡ returned r
    → (p e : Option Failure) × (s.process ≡ ended p)
      × (s.server ≡ stopped e)
      × (s.canceled ≡ true)
      × (e ≢ some server_closed)
      × ((r ≡ none) ↔ ((p ≡ none) × (e ≡ none)))
      × ((r ≡ process_first p e) ⊎ (r ≡ server_first e p))
RunWithServer-outcome done s r reach m =
    let (v, a) = Reach-IsValid reach (start-IsValid done) in
    let (p, e, q, t, c, f) = subst (λ x. Agrees x s) m a in
    (p, e, q, t, c, subst Normal t v, nil_iff r p e f, f)
