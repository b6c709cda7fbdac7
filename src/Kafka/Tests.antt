-- ===== src/Kafka/Tests.antt =====
-- A loop that succeeds in its third round, a topic name, a topic that may not be created, and a
-- consumer whose second commit fails.
use golang_hw.Kafka.Consumer.Delivery.{consume-Leads, Leads, Begins, succeeded}
use golang_hw.Kafka.Consumer.{consume, Round}
use golang_hw.Kafka.Failure.{plain, protocol, as_permanent}
use golang_hw.Kafka.Retry.Loop.{
  at_most, Succeeds, Transient, can_retry, retry_with_backoff_delays, retry_with_backoff-Succeeds,
}
use golang_hw.Kafka.Retry.{half, less, minus, next_backoff, Outcome, retry_with_backoff}
use golang_hw.Kafka.Retry
use golang_hw.Kafka.Topic.{response, Attempt}
use golang_hw.Prelude.{
  ℕ, ◌*◌, ◌^◌, true, false, none, some, List, [], ◌∷◌, ◌≡◌, ◌↔◌, refl, inr, arith,
}

program : Unit {0}
unfolding retry_with_backoff next_backoff less minus as_permanent Succeeds Transient can_retry
    at_most
program = tt

abbrev failing : Retry.Round
failing = record { before = none; result = some (plain 7); after = none; waited = none }

abbrev rounds : List Retry.Round
rounds = failing ∷ failing ∷ record failing { result = none } ∷ []

-- Two waits, and then success: from one second, with at most one and a half.
retries : retry_with_backoff 1000 1500 rounds ≡ (Retry.returned none, 1000 ∷ 1500 ∷ [])
unfolding program
retries = refl

retry_with_backoff_delays_example : 1500 ≡ at_most 1500 (1000 * 2 ^ 1)
unfolding program
retry_with_backoff_delays_example =
    retry_with_backoff_delays 1000 1500 rounds 1 1500 (omega arith) (omega arith) refl

retry_with_backoff-Succeeds_example :
    ((retry_with_backoff 1000 1500 rounds).0 ≡ Retry.returned none) ↔ Succeeds rounds
retry_with_backoff-Succeeds_example = retry_with_backoff-Succeeds 1000 1500 rounds

-- The broker says that the cluster forbids the topic; 36 is the code of a topic that exists.
abbrev forbidden : Attempt
forbidden = record {
  before = none;
  created = response (some (protocol 29 false));
  brokers = [];
  after = none;
  waited = none;
}

abbrev acknowledged : ℕ → Round ℕ
acknowledged m = record { fetched = inr m; handled = none; committed = none; done = false }

abbrev deliveries : List (Round ℕ)
deliveries = acknowledged 1 ∷ record (acknowledged 2) { committed = some (plain 5) } ∷ []

consume-Leads_example :
    Leads (consume true deliveries).given (consume true deliveries).commits
    × Begins (consume true deliveries).commits (succeeded deliveries)
consume-Leads_example = consume-Leads true deliveries
