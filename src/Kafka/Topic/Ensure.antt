-- ===== src/Kafka/Topic/Ensure.antt =====
-- When internal/kafka/topic.go finds the topic ready, and which failures it does not retry.
use golang_hw.Kafka.Failure.{Failure, as_permanent, as_protocol, is_code}
use golang_hw.Kafka.Retry.{Duration, returned, retry_with_backoff}
use golang_hw.Kafka.Topic.{
  Created, failed, no_response, response, Dial, probe_topic, create_topic, classify_topic_error,
  try_topic, Attempt, round, ensure_topic,
}
use golang_hw.Prelude.{
  Option-cases, ℕ, true, false, none, some, List, [], ◌∷◌, ◌≡◌, ◌≢◌, ◌↔◌, ◌⊎◌, inl, inr, arith,
  refl,
}

-- Some broker's leader is dialled and let go under a live context, and those before it fail.
unfoldable pub Reached : List Dial → Type 0
Reached [] = ⊥
Reached (d ∷ brokers) =
    (d.before ≡ none)
    × (((d.dialed ≡ none) × (d.closed ≡ none)) ⊎ ((d.dialed ≢ none) × Reached brokers))

probe_to :
    (last : Failure) (brokers : List Dial) → probe_topic last brokers ≡ none → Reached brokers
unfolding probe_topic Reached
probe_to last [] e = absurd (ground arith)
probe_to last (d ∷ brokers) e = elim (Option-cases d.dialed) [
  | inl p ↦ (ground arith, inl (p, ground arith))
  | inr (err, p) ↦ (ground arith, inr (ground arith, probe_to err brokers (ground arith)))
]

probe_from :
    (last : Failure) (brokers : List Dial) → Reached brokers → probe_topic last brokers ≡ none
unfolding probe_topic Reached
probe_from last [] h = absurd h
probe_from last (d ∷ brokers) (h, inl (p, q)) = ground arith
probe_from last (d ∷ brokers) (h, inr (p, q)) = elim (Option-cases d.dialed) [
  | inl e ↦ absurd (p e)
  | inr (err, e) ↦ ground (arith, probe_from err brokers q)
]

module _ (topic_already_exists : ℕ) where
  -- The topic was created, or it was there.
  unfoldable pub Exists : Created → Type 0
  Exists (failed err) = ⊥
  Exists no_response = ⊥
  Exists (response none) = Unit
  Exists (response (some err)) = is_code topic_already_exists err ≡ true

  create_topic_lem : (c : Created) → (create_topic topic_already_exists c ≡ none) ↔ Exists c
  unfolding create_topic Exists
  create_topic_lem (failed err) = ground arith
  create_topic_lem no_response = ground arith
  create_topic_lem (response none) = (λ _. tt, λ _. refl)
  create_topic_lem (response (some err)) = ground arith

  -- A non-temporary protocol failure to create the topic ends `ensureTopic` at once with that
  -- failure, when the context is live: it is not retried.
  ensure_topic_permanent :
      (initial maximum : Duration) (a : Attempt) (attempts : List Attempt) (err : Failure)
      (code : ℕ)
      → a.before ≡ none
      → a.after ≡ none
      → create_topic topic_already_exists a.created ≡ some err
      → as_protocol err ≡ some (code, false)
      → ensure_topic topic_already_exists initial maximum (a ∷ attempts) ≡ (returned (some err), [])
  unfolding ensure_topic try_topic round classify_topic_error retry_with_backoff as_permanent
  ensure_topic_permanent initial maximum a attempts err code p q r s = ground arith
