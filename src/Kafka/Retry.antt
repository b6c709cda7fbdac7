-- ===== src/Kafka/Retry.antt =====
-- internal/kafka/retry.go. A `time.Duration` is a 64-bit word in two's complement. The outside world
-- of a retry loop is the list of its rounds: what the context, the operation and the wait answer.
-- A context that has ended stays ended, so its second and third look in one round agree.
pub mod Backoff
pub mod Loop
use golang_hw.Kafka.Failure.{Failure, as_permanent}
use golang_hw.Prelude.{
  ℕ, zero, suc, ◌+◌, ◌-◌, ◌*◌, ◌%◌, Bool, true, false, not, ◌&&◌, ◌||◌, Option, none, some, List,
  [], ◌∷◌, ltb, if◌then◌else◌, Text, is_blank,
}

abbrev pub modulus : ℕ
modulus = 0x10000000000000000

abbrev pub half : ℕ
half = 0x8000000000000000

abbrev pub Duration : Type 0
Duration = ℕ

-- The signed comparison `a < b` and the difference, on words.
unfoldable pub less : Duration → Duration → Bool
less a b = ltb ((a + half) % modulus) ((b + half) % modulus)

unfoldable pub minus : Duration → Duration → Duration
minus a b = (a + (modulus - b)) % modulus

unfoldable pub next_backoff : Duration → Duration → Duration
unfolding less minus
next_backoff current maximum =
    if not (less current maximum) || less (minus maximum current) current
    then maximum
    else current * 2 % modulus

pub data ConfigError : Type 0 where
  no_brokers : ConfigError
  blank_broker : ConfigError
  bad_dial_timeout : ConfigError
  bad_initial : ConfigError
  bad_maximum : ConfigError

-- `for _, broker := range brokers`
unfoldable pub any_blank : List Text → Bool
unfolding is_blank
any_blank [] = false
any_blank (broker ∷ brokers) = is_blank broker || any_blank brokers

abbrev is_empty : List Text → Bool
is_empty [] = true
is_empty (b ∷ bs) = false

unfoldable pub validate_retry_config :
    List Text → Duration → Duration → Duration → Option ConfigError
unfolding any_blank less
validate_retry_config brokers dial_timeout retry_initial retry_max =
    if is_empty brokers
    then some no_brokers
    else if any_blank brokers
    then some blank_broker
    else if not (less 0 dial_timeout)
    then some bad_dial_timeout
    else if not (less 0 retry_initial)
    then some bad_initial
    else if less retry_max retry_initial
    then some bad_maximum
    else none

pub record Round : Type 0 where
  -- `ctx.Err()` at the top
  pub before : Option Failure
  -- `operation(ctx)`
  pub result : Option Failure
  -- `ctx.Err()` behind a failed operation
  pub after : Option Failure
  -- `wait(ctx, backoff)`
  pub waited : Option Failure

-- What has become of the loop at the end of the rounds.
pub data Outcome : Type 0 where
  returned : Option Failure → Outcome
  running : Duration → Outcome

-- The outcome, and the delays that the loop has logged and begun to wait for.
unfoldable pub retry_with_backoff : Duration → Duration → List Round → Outcome × List Duration
unfolding as_permanent
retry_with_backoff backoff retry_max [] = (running backoff, [])
retry_with_backoff backoff retry_max (r ∷ rounds) =
    let rest = retry_with_backoff (next_backoff backoff retry_max) retry_max rounds in
    elim r.before [
      | some err ↦ (returned (some err), [])
      | none ↦ elim r.result [
        | none ↦ (returned none, [])
        | some err ↦ elim r.after [
          | some ctx_err ↦ (returned (some ctx_err), [])
          | none ↦ elim (as_permanent err) [
            | some cause ↦ (returned (some cause), [])
            | none ↦ elim r.waited [
              | some wait_err ↦ (returned (some wait_err), backoff ∷ [])
              | none ↦ (rest.0, backoff ∷ rest.1)
            ]
          ]
        ]
      ]
    ]
