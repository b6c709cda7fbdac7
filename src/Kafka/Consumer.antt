-- ===== src/Kafka/Consumer.antt =====
-- internal/kafka/consumer.go and producer.go. The reader and the writer of the client library, the
-- handler and the context are what they answer, round by round; the state kept here is what has been
-- handled and committed.
pub mod Delivery
use golang_hw.Kafka.Failure.{Failure, plain, wrapped}
use golang_hw.Prelude.{
  ◌⊎◌, inl, inr, if◌then◌else◌, ℕ, Bool, true, false, Option, none, some, List, [], ◌∷◌, ◌++◌,
}

-- One round: `FetchMessage` gives a message or a failure, `handler` and `CommitMessages` what they
-- return, and `done` says whether the context has ended when a failure asks.
pub record Round (Message : Type 0) : Type 0 where
  pub fetched : Failure ⊎ Message
  pub handled : Option Failure
  pub committed : Option Failure
  pub done : Bool

-- What has become of the loop at the end of the rounds.
pub data Ending : Type 0 where
  returned : Option Failure → Ending
  running : Ending

-- With the messages given to the handler, and those committed, in order.
pub record Result (Message : Type 0) : Type 0 where
  pub ending : Ending
  pub given : List Message
  pub commits : List Message

abbrev stop : Bool → Failure → Ending
stop done err = if done then returned none else returned (some (wrapped err))

abbrev pub no_handler : Failure
no_handler = plain 2

module _ {Message : Type 0} where
  unfoldable pub loop : List Message → List Message → List (Round Message) → Result Message
  loop given commits [] = record { ending = running; given = given; commits = commits }
  loop given commits (r ∷ rounds) = elim r.fetched [
    | inl err ↦ record { ending = stop r.done err; given = given; commits = commits }
    | inr message ↦ elim r.handled [
      | some err ↦ record {
        ending = stop r.done err;
        given = given ++ message ∷ [];
        commits = commits;
      }
      | none ↦ elim r.committed [
        | some err ↦ record {
          ending = stop r.done err;
          given = given ++ message ∷ [];
          commits = commits;
        }
        | none ↦ loop (given ++ message ∷ []) (commits ++ message ∷ []) rounds
      ]
    ]
  ]

  -- `has_handler` is false for a nil handler.
  unfoldable pub consume : (has_handler : Bool) → List (Round Message) → Result Message
  unfolding loop
  consume has_handler rounds =
      if has_handler
      then loop [] [] rounds
      else record { ending = returned (some no_handler); given = []; commits = [] }

-- `Producer.Send`: the context is asked, and then the writer.
unfoldable pub send : (ctx_err : Option Failure) (write_err : Option Failure) → Option Failure
send (some err) write_err = some err
send none (some err) = some (wrapped err)
send none none = none
