-- ===== src/Kafka/Topic.antt =====
-- internal/kafka/topic.go. What the client library answers is data: the response of `CreateTopics`,
-- and for each broker what `DialLeader` and closing its connection give. A text is
-- its runes, and `utf8` gives the bytes that Go holds for them.
pub mod Names
pub mod Ensure
use golang_hw.Kafka.Failure.{Failure, wrapped, permanent, plain, as_protocol, is_code}
use golang_hw.Kafka.Retry.{
  Duration, Round, Outcome, ConfigError, validate_retry_config, retry_with_backoff,
}
use golang_hw.Prelude.{
  ◌+◌, ◌/◌, ◌%◌, ◌++◌, ℕ, Bool, true, false, not, ◌&&◌, ◌||◌, Option, none, some, List, [], ◌∷◌,
  ltb, leb, ◌==◌, if◌then◌else◌, Text, codes, text_eq, is_blank, length, map,
}

abbrev pub max_topic_name_length : ℕ
max_topic_name_length = 249

pub data NameError : Type 0 where
  empty : NameError
  too_long : NameError
  reserved : NameError
  invalid_character : ℕ → NameError

unfoldable pub is_topic_name_byte : ℕ → Bool
is_topic_name_byte value =
    (leb b'a' value && leb value b'z')
    || ((leb b'A' value && leb value b'Z')
        || ((leb b'0' value && leb value b'9')
            || (value == b'.' || (value == b'_' || value == b'-'))))

-- The bytes of a rune, and of a text.
abbrev pub rune_bytes : ℕ → List ℕ
rune_bytes r =
    if ltb r 0x80
    then r ∷ []
    else if ltb r 0x800
    then (0xc0 + r / 0x40) ∷ (0x80 + r % 0x40) ∷ []
    else if ltb r 0x10000
    then (0xe0 + r / 0x1000) ∷ (0x80 + r / 0x40 % 0x40) ∷ (0x80 + r % 0x40) ∷ []
    else (0xf0 + r / 0x40000)
      ∷ (0x80 + r / 0x1000 % 0x40)
      ∷ (0x80 + r / 0x40 % 0x40)
      ∷ (0x80 + r % 0x40)
      ∷ []

unfoldable pub utf8 : Text → List ℕ
utf8 [] = []
utf8 (r ∷ s) = rune_bytes r ++ utf8 s

-- The loop over the bytes.
unfoldable pub validate_bytes : List ℕ → Option NameError
unfolding is_topic_name_byte
validate_bytes [] = none
validate_bytes (value ∷ topic) =
    if not (is_topic_name_byte value) then some (invalid_character value) else validate_bytes topic

unfoldable pub validate_topic_name : Text → Option NameError
unfolding validate_bytes is_blank text_eq utf8
validate_topic_name topic =
    if is_blank topic
    then some empty
    else if ltb max_topic_name_length (length (utf8 topic))
    then some too_long
    else if text_eq topic (codes ".") || text_eq topic (codes "..")
    then some reserved
    else validate_bytes (utf8 topic)

-- `segmentio.Error.Temporary` is a part of the failure.
unfoldable pub classify_topic_error : Failure → Failure
unfolding as_protocol
classify_topic_error err = elim (as_protocol err) [
  | none ↦ err
  | some (code, temporary) ↦ if not temporary then permanent err else err
]

-- What `client.CreateTopics` returns: an error, no response, or `response.Errors[topic]`.
pub data Created : Type 0 where
  failed : Failure → Created
  no_response : Created
  response : Option Failure → Created

abbrev pub empty_response : Failure
empty_response = plain 1

-- What `DialLeader` and `Close` answer at one broker, and `ctx.Err()` before them.
pub record Dial : Type 0 where
  pub before : Option Failure
  pub dialed : Option Failure
  pub closed : Option Failure

-- `probeTopic`: the error with which it returns; `last_err` is nil at first, which a `%w` of nil
-- prints as a failure of its own.
unfoldable pub probe_topic : Failure → List Dial → Option Failure
probe_topic last_err [] = some (wrapped last_err)
probe_topic last_err (d ∷ brokers) = elim d.before [
  | some err ↦ some err
  | none ↦ elim d.dialed [
    | some err ↦ probe_topic err brokers
    | none ↦ elim d.closed [ some err ↦ some (wrapped err) | none ↦ none ]
  ]
]

-- One round of `ensureTopic`: what the client library, the context and the wait answer.
pub record Attempt : Type 0 where
  pub before : Option Failure
  pub created : Created
  pub brokers : List Dial
  pub after : Option Failure
  pub waited : Option Failure

module _ (topic_already_exists : ℕ) where
  unfoldable pub create_topic : Created → Option Failure
  unfolding is_code
  create_topic (failed err) = some (wrapped err)
  create_topic no_response = some empty_response
  create_topic (response none) = none
  create_topic (response (some topic_err)) =
      if not (is_code topic_already_exists topic_err) then some (wrapped topic_err) else none

  -- The operation that `ensureTopic` retries.
  unfoldable pub try_topic : Created → List Dial → Option Failure
  unfolding create_topic classify_topic_error probe_topic
  try_topic created brokers = elim (create_topic created) [
    | some err ↦ some (classify_topic_error err)
    | none ↦ elim (probe_topic (plain 0) brokers) [
      | some err ↦ some (classify_topic_error err)
      | none ↦ none
    ]
  ]

  unfoldable pub round : Attempt → Round
  unfolding try_topic
  round a = record {
    before = a.before;
    result = try_topic a.created a.brokers;
    after = a.after;
    waited = a.waited;
  }

  unfoldable pub ensure_topic : Duration → Duration → List Attempt → Outcome × List Duration
  unfolding round retry_with_backoff
  ensure_topic retry_initial retry_max attempts =
      retry_with_backoff retry_initial retry_max (map round attempts)
