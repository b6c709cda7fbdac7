-- ===== src/Config/Accepted.antt =====
-- What internal/config/config.go accepts, the parts of the service that it configures accept too.
use golang_hw.Config.Environment.{apply_scheduler_environment}
use golang_hw.Config.Load.{Decoder, decode, load_scheduler, accept}
use golang_hw.Config.Validation.{
  is_kafka_topic_name_byte, check_topic_bytes, validate_kafka_topic_name, validate_logger,
  any_broker_empty, validate_kafka, validate_settings, validate_scheduler,
}
use golang_hw.Config.{Duration, Logger, Kafka, SchedulerSettings, Scheduler, new_scheduler}
use golang_hw.Kafka.Retry.{half, modulus, any_blank, validate_retry_config, less}
use golang_hw.Kafka.Retry.Backoff.{half-less}
use golang_hw.Kafka.Topic.{is_topic_name_byte, validate_bytes, validate_topic_name, utf8}
use golang_hw.Logger.{parse_level}
use golang_hw.Scheduler.{validate_config}
use golang_hw.Prelude.Int.{ℤ, pos, negsuc, leb_ℤ, ltb_ℤ, pos_part}
use golang_hw.Prelude.{
  subst, Option-cases, sym, ◌∙◌, ℕ, ◌-◌, ◌<◌, Bool, true, false, Option, none, List, [], ◌∷◌, ◌≡◌,
  ◌≢◌, inl, inr, arith, refl, length, ◌==◌, Text, text_mem, outcome-cases,
}

bytes_same : (s : List ℕ) → check_topic_bytes s ≡ validate_bytes s
unfolding check_topic_bytes validate_bytes is_kafka_topic_name_byte is_topic_name_byte
bytes_same [] = refl
bytes_same (c ∷ s) = ground (arith, bytes_same s)

-- The configuration and internal/kafka judge the name of a topic alike.
validate_kafka_topic_name-validate_topic_name :
    (topic : Text) → validate_kafka_topic_name topic ≡ validate_topic_name topic
unfolding validate_kafka_topic_name validate_topic_name
validate_kafka_topic_name-validate_topic_name topic = rw (bytes_same (utf8 topic)) refl

-- A duration as the word that internal/kafka counts with.
unfoldable pub to_word : Duration → ℕ
to_word (pos n) = n
to_word (negsuc n) = modulus - 1 - n

brokers_same : (brokers : List Text) → any_broker_empty brokers ≡ any_blank brokers
unfolding any_broker_empty any_blank
brokers_same [] = refl
brokers_same (b ∷ brokers) = ground (arith, brokers_same brokers)

validate_logger-parse_level : (l : Logger) → validate_logger l ≡ none → parse_level l.level ≢ none
unfolding validate_logger parse_level text_mem
validate_logger-parse_level l h = ground arith

settings_accepted :
    (s : SchedulerSettings)
    → validate_settings s ≡ none
    → validate_config (record {
      interval = s.interval;
      batch_size = s.batch_size;
      retention_years = s.retention_years;
    })
      ≡ none
unfolding validate_settings validate_config
settings_accepted s h = ground arith

-- The guards that settings of Kafka have passed.
kafka_guards :
    (require_group : Bool) (k : Kafka)
    → validate_kafka require_group k ≡ none
    → (length k.brokers == 0 ≡ false)
      × (any_broker_empty k.brokers ≡ false)
      × (validate_kafka_topic_name k.topic ≡ none)
      × (leb_ℤ k.connect_timeout (pos 0) ≡ false)
      × (leb_ℤ k.retry_initial (pos 0) ≡ false)
      × (ltb_ℤ k.retry_max k.retry_initial ≡ false)
unfolding validate_kafka
kafka_guards g k h = ground arith

positive_word : (a : ℤ) → leb_ℤ a (pos 0) ≡ false → pos_part a < half → less 0 (to_word a) ≡ true
unfolding to_word
positive_word (pos n) p h = half-less 0 n (omega arith) h ∙ ground arith
positive_word (negsuc n) p h = absurd (ground arith)

ordered_word :
    (a b : ℤ)
    → leb_ℤ a (pos 0) ≡ false
    → ltb_ℤ b a ≡ false
    → pos_part a < half
    → pos_part b < half
    → less (to_word b) (to_word a) ≡ false
unfolding to_word
ordered_word (pos n) (pos m) p q h k = half-less m n k h ∙ ground arith
ordered_word (pos n) (negsuc m) p q h k = absurd (ground arith)
ordered_word (negsuc n) b p q h k = absurd (ground arith)

-- The durations are 64-bit numbers.
unfoldable pub Fits : Kafka → Type 0
Fits k =
    (pos_part k.connect_timeout < half)
    × (pos_part k.retry_initial < half)
    × (pos_part k.retry_max < half)

retry_accepted :
    (require_group : Bool) (k : Kafka)
    → validate_kafka require_group k ≡ none
    → Fits k
    → validate_retry_config k.brokers
        (to_word k.connect_timeout)
        (to_word k.retry_initial)
        (to_word k.retry_max)
      ≡ none
unfolding Fits validate_retry_config
retry_accepted g k h (f, i, m) =
    let (n, b, t, ct, ri, o) = kafka_guards g k h in
    ground (
      arith,
      brokers_same k.brokers,
      positive_word k.connect_timeout ct f,
      positive_word k.retry_initial ri i,
      ordered_word k.retry_initial k.retry_max ri o i m,
    )

scheduler_guards :
    (c : Scheduler)
    → validate_scheduler c ≡ none
    → (validate_logger c.logger ≡ none)
      × (validate_kafka false c.kafka ≡ none)
      × (validate_settings c.scheduler ≡ none)
unfolding validate_scheduler
scheduler_guards c h = ground arith

-- Every part that the scheduler process configures takes its settings.
unfoldable pub Accepted : Scheduler → Type 0
Accepted c =
    (parse_level c.logger.level ≢ none)
    × (validate_topic_name c.kafka.topic ≡ none)
    × (validate_retry_config c.kafka.brokers (to_word c.kafka.connect_timeout)
          (to_word c.kafka.retry_initial) (to_word c.kafka.retry_max)
        ≡ none)
    × (validate_config (record {
      interval = c.scheduler.interval;
      batch_size = c.scheduler.batch_size;
      retention_years = c.scheduler.retention_years;
    })
        ≡ none)

valid-Accepted : (c : Scheduler) → validate_scheduler c ≡ none → Fits c.kafka → Accepted c
unfolding Accepted
valid-Accepted c h f =
    let (l, k, s) = scheduler_guards c h in
    let (n, b, t, ct, ri, o) = kafka_guards false c.kafka k in
    (
      validate_logger-parse_level c.logger l,
      sym (validate_kafka_topic_name-validate_topic_name c.kafka.topic) ∙ t,
      retry_accepted false c.kafka k f,
      settings_accepted c.scheduler s,
    )

accept_valid :
    (c d : Scheduler) → accept (validate_scheduler c) c ≡ inr d → validate_scheduler d ≡ none
accept_valid c d h = elim (Option-cases (validate_scheduler c)) [
  | inr (e, p) ↦ absurd (ground arith)
  | inl p ↦ subst (λ x. validate_scheduler x ≡ none) {x = c} {y = d} (ground arith) p
]

load_valid :
    (lookup : Text → Option Text) (atoi : Text → Option ℤ) (parse_duration : Text → Option Duration)
    (decode_file : Decoder Scheduler) (path : Text) (c : Scheduler)
    → load_scheduler lookup atoi parse_duration decode_file path ≡ inr c
    → validate_scheduler c ≡ none
unfolding load_scheduler
load_valid lookup atoi parse_duration decode_file path c h =
    elim (outcome-cases (decode decode_file path new_scheduler)) [
      | inl (e, p) ↦ absurd (ground arith)
      | inr (d, p) ↦
          elim (outcome-cases (apply_scheduler_environment lookup atoi parse_duration d)) [
            | inl (e, q) ↦ absurd (ground arith)
            | inr (d', q) ↦ accept_valid d' c (ground arith)
          ]
    ]

-- A scheduler configuration that loads, whatever the file and the environment hold, has a level that
-- the logger knows, and a topic, brokers, delays and settings that internal/kafka and the scheduler
-- accept; its durations are 64-bit numbers.
pub load_scheduler-Accepted :
    (lookup : Text → Option Text) (atoi : Text → Option ℤ) (parse_duration : Text → Option Duration)
    (decode_file : Decoder Scheduler) (path : Text) (c : Scheduler)
    → load_scheduler lookup atoi parse_duration decode_file path ≡ inr c
    → Fits c.kafka
    → Accepted c
load_scheduler-Accepted lookup atoi parse_duration decode_file path c h f =
    valid-Accepted c (load_valid lookup atoi parse_duration decode_file path c h) f
