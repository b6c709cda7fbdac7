-- ===== src/Config/Validation.antt =====
-- The checks of internal/config/config.go; each gives its first error.
use golang_hw.Config.{
  Logger, Metrics, Storage, Kafka, SchedulerSettings, Calendar, Scheduler, Storer, ConfigError,
  unsupported_level, empty_host, bad_port, unsupported_storage, empty_dsn, no_brokers, empty_broker,
  empty_group, bad_topic, bad_connect_timeout, bad_retry, retry_exceeds_maximum, bad_write_timeout,
  bad_message_size, bad_interval, bad_batch_size, bad_retention_years, storage_type_memory,
  storage_type_sql,
}
use golang_hw.Kafka.Topic.{NameError, empty, too_long, reserved, invalid_character, utf8}
use golang_hw.Prelude.Int.{ℤ, pos, leb_ℤ, ltb_ℤ}
use golang_hw.Prelude.{
  ℕ, Bool, true, false, not, ◌&&◌, ◌||◌, Option, none, some, List, [], ◌∷◌, ltb, leb, ◌==◌,
  if◌then◌else◌, length, Text, codes, text_eq, text_mem, is_blank,
}

-- `return err` where the test fails, and else the rest.
abbrev pub ensure : Bool → ConfigError → Option ConfigError → Option ConfigError
ensure good err rest = if good then rest else some err

-- `if err := …; err != nil { return err }`
abbrev pub first_of : Option ConfigError → Option ConfigError → Option ConfigError
first_of none rest = rest
first_of (some err) rest = some err

unfoldable pub is_kafka_topic_name_byte : ℕ → Bool
is_kafka_topic_name_byte value =
    leb b'a' value && leb value b'z'
    || leb b'A' value && leb value b'Z'
    || leb b'0' value && leb value b'9'
    || value == b'.'
    || value == b'_'
    || value == b'-'

unfoldable pub check_topic_bytes : List ℕ → Option NameError
unfolding is_kafka_topic_name_byte
check_topic_bytes [] = none
check_topic_bytes (value ∷ topic) =
    if is_kafka_topic_name_byte value
    then check_topic_bytes topic
    else some (invalid_character value)

unfoldable pub validate_kafka_topic_name : Text → Option NameError
unfolding check_topic_bytes
validate_kafka_topic_name topic =
    if is_blank topic
    then some empty
    else if ltb 249 (length (utf8 topic))
    then some too_long
    else if text_eq topic (codes ".") || text_eq topic (codes "..")
    then some reserved
    else check_topic_bytes (utf8 topic)

unfoldable pub validate_logger : Logger → Option ConfigError
validate_logger l =
    ensure (text_mem l.level (codes "error" ∷ codes "warn" ∷ codes "info" ∷ codes "debug" ∷ []))
      unsupported_level none

-- `port < 1 || port > 65535`
abbrev pub is_port : ℤ → Bool
is_port p = not (ltb_ℤ p (pos 1) || ltb_ℤ (pos 65535) p)

unfoldable pub validate_metrics : Metrics → Option ConfigError
validate_metrics m =
    ensure (not (is_blank m.host)) empty_host (ensure (is_port m.port) bad_port none)

unfoldable pub validate_storage : (allow_memory : Bool) → Storage → Option ConfigError
validate_storage allow_memory s =
    if text_eq s.kind storage_type_memory
    then ensure allow_memory unsupported_storage none
    else if text_eq s.kind storage_type_sql
    then ensure (not (is_blank s.dsn)) empty_dsn none
    else some unsupported_storage

unfoldable pub any_broker_empty : List Text → Bool
any_broker_empty [] = false
any_broker_empty (b ∷ brokers) = is_blank b || any_broker_empty brokers

abbrev pub positive : ℤ → Bool
positive n = not (leb_ℤ n (pos 0))

abbrev pub check_topic : Option NameError → Option ConfigError
check_topic none = none
check_topic (some err) = some (bad_topic err)

unfoldable pub validate_kafka : (require_group : Bool) → Kafka → Option ConfigError
unfolding any_broker_empty validate_kafka_topic_name
validate_kafka require_group k = ensure (not (length k.brokers == 0)) no_brokers (
    ensure (not (any_broker_empty k.brokers)) empty_broker (
      first_of (check_topic (validate_kafka_topic_name k.topic)) (
        ensure (not (require_group && is_blank k.group_id)) empty_group (
          ensure (positive k.connect_timeout) bad_connect_timeout (
            ensure (positive k.retry_initial && positive k.retry_max) bad_retry (
              ensure (not (ltb_ℤ k.retry_max k.retry_initial)) retry_exceeds_maximum (
                ensure (positive k.write_timeout) bad_write_timeout
                  (ensure (positive k.max_message_bytes) bad_message_size none))))))))

unfoldable pub validate_calendar : Calendar → Option ConfigError
unfolding validate_logger validate_storage
validate_calendar c = first_of (validate_logger c.logger) (
    ensure (not (is_blank c.http.host)) empty_host
      (ensure (is_port c.http.port) bad_port (validate_storage true c.storage)))

unfoldable pub validate_settings : SchedulerSettings → Option ConfigError
validate_settings s = ensure (positive s.interval) bad_interval (
    ensure (positive s.batch_size) bad_batch_size
      (ensure (positive s.retention_years) bad_retention_years none))

unfoldable pub validate_scheduler : Scheduler → Option ConfigError
unfolding validate_logger validate_metrics validate_storage validate_kafka validate_settings
validate_scheduler c = first_of (validate_logger c.logger) (
    first_of (validate_metrics c.metrics) (
      first_of (validate_storage false c.storage)
        (first_of (validate_kafka false c.kafka) (validate_settings c.scheduler))))

unfoldable pub validate_storer : Storer → Option ConfigError
unfolding validate_logger validate_metrics validate_storage validate_kafka
validate_storer c = first_of (validate_logger c.logger) (
    first_of (validate_metrics c.metrics)
      (first_of (validate_storage false c.storage) (validate_kafka true c.kafka)))
