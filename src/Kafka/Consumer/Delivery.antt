-- ===== src/Kafka/Consumer/Delivery.antt =====
-- The promise of internal/kafka/consumer.go: a message is committed only behind its handler.
use golang_hw.Kafka.Consumer.{Round, returned, loop, consume}
use golang_hw.Kafka.Failure.{Failure}
use golang_hw.Prelude.{
  ◌≤◌, Bool, true, false, none, some, List, [], ◌∷◌, ◌++◌, ◌≡◌, ◌≢◌, ◌⊎◌, inl, inr, arith, refl,
  length, All, append_assoc, Option-cases,
}

module _ {Message : Type 0} where
  -- The first list is the second one, or has one message more at its end.
  unfoldable pub Leads : List Message → List Message → Type 0
  Leads given [] = length given ≤ 1
  Leads [] (c ∷ commits) = ⊥
  Leads (g ∷ given) (c ∷ commits) = (g ≡ c) × Leads given commits

  -- The second list begins with the first one.
  unfoldable pub Begins : List Message → List Message → Type 0
  Begins [] l = Unit
  Begins (c ∷ commits) [] = ⊥
  Begins (c ∷ commits) (m ∷ l) = (c ≡ m) × Begins commits l

  -- The messages whose handler succeeded.
  unfoldable pub succeeded : List (Round Message) → List Message
  succeeded [] = []
  succeeded (r ∷ rounds) = elim r.fetched [
    | inl err ↦ succeeded rounds
    | inr message ↦ elim r.handled [
      | some err ↦ succeeded rounds
      | none ↦ message ∷ succeeded rounds
    ]
  ]

  Leads-self : (l : List Message) → Leads l l
  unfolding Leads
  Leads-self [] = omega arith
  Leads-self (m ∷ l) = (refl, Leads-self l)

  Leads-append : (l : List Message) (m : Message) → Leads (l ++ m ∷ []) l
  unfolding Leads
  Leads-append [] m = omega arith
  Leads-append (x ∷ l) m = (refl, Leads-append l m)

  Begins-append : (l k : List Message) → Begins l (l ++ k)
  unfolding Begins
  Begins-append [] k = tt
  Begins-append (m ∷ l) k = (refl, Begins-append l k)

  fetched-cases :
      (r : Round Message)
      → ((err : Failure) × (r.fetched ≡ inl err)) ⊎ ((m : Message) × (r.fetched ≡ inr m))
  fetched-cases r =
      elim r.fetched as (λ x. ((err : Failure) × (x ≡ inl err)) ⊎ ((m : Message) × (x ≡ inr m))) [
        | inl err ↦ inl (err, refl)
        | inr m ↦ inr (m, refl)
      ]

  -- The log of a loop that has handled and committed the same messages so far.
  loop_sound :
      (l : List Message) (rounds : List (Round Message))
      → Leads (loop l l rounds).given (loop l l rounds).commits
        × Begins (loop l l rounds).commits (l ++ succeeded rounds)
  unfolding loop succeeded
  loop_sound l [] = (Leads-self l, Begins-append l [])
  loop_sound l (r ∷ rounds) = elim (fetched-cases r) [
    | inl (err, p) ↦ rw (p) (Leads-self l, Begins-append l (succeeded rounds))
    | inr (m, p) ↦ elim (Option-cases r.handled) [
      | inr (err, q) ↦ rw (p, q) (Leads-append l m, Begins-append l (succeeded rounds))
      | inl q ↦ elim (Option-cases r.committed) [
        | inr (err, t) ↦ rw (p, q, t) (Leads-append l m, Begins-append l (m ∷ succeeded rounds))
        | inl t ↦
            rw (p, q, t, ← append_assoc l (m ∷ []) (succeeded rounds))
              (loop_sound (l ++ m ∷ []) rounds)
      ]
    ]
  ]

  -- Whatever the reader, the handler and the context answer, the committed messages are the handled
  -- ones in their order, or all but the last of them, and they are the first of the messages whose
  -- handler succeeded: none is skipped and none is committed before its handler returns nil.
  pub consume-Leads :
      (has_handler : Bool) (rounds : List (Round Message))
      → Leads (consume has_handler rounds).given (consume has_handler rounds).commits
        × Begins (consume has_handler rounds).commits (succeeded rounds)
  unfolding consume Leads Begins
  consume-Leads false rounds = (omega arith, tt)
  consume-Leads true rounds = loop_sound [] rounds

  -- Every failure is met under a live context.
  loop_live :
      (l k : List Message) (rounds : List (Round Message))
      → All (λ r. r.done ≡ false) rounds
      → (loop l k rounds).ending ≢ returned none
  unfolding loop
  loop_live l k [] h = ground arith
  loop_live l k (r ∷ rounds) (d, h) = elim (fetched-cases r) [
    | inl (err, p) ↦ ground arith
    | inr (m, p) ↦ ground (arith, loop_live (l ++ m ∷ []) (k ++ m ∷ []) rounds h)
  ]

  -- As long as the context is live whenever a call fails, `Consume` does not return nil: a failure
  -- is not lost.
  consume_live :
      (has_handler : Bool) (rounds : List (Round Message))
      → All (λ r. r.done ≡ false) rounds
      → (consume has_handler rounds).ending ≢ returned none
  unfolding consume
  consume_live false rounds h = ground arith
  consume_live true rounds h = loop_live [] [] rounds h
