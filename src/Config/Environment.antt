-- ===== src/Config/Environment.antt =====
-- How internal/config/config.go overrides the settings by the environment. `lookup` is `os.LookupEnv`;
-- `strconv.Atoi` and `time.ParseDuration` are parameters.
use golang_hw.Config.{
  Duration, Logger, Metrics, Storage, Kafka, Calendar, Scheduler, Storer, ConfigError, bad_variable,
  ◌>>=◌,
}
use golang_hw.Prelude.Int.{ℤ}
use golang_hw.Prelude.{
  Option, none, some, List, ◌⊎◌, inl, inr, map, Text, codes, split_on, trim_space,
}

module _ (lookup : Text → Option Text) (atoi : Text → Option ℤ)
    (parse_duration : Text → Option Duration) where
  unfoldable pub override_string : Text → Text → Text
  override_string name target = elim (lookup name) [ none ↦ target | some value ↦ value ]

  unfoldable pub override_int : Text → ℤ → ConfigError ⊎ ℤ
  override_int name target = elim (lookup name) [
    | none ↦ inr target
    | some value ↦ elim (atoi (trim_space value)) [
      | none ↦ inl (bad_variable name)
      | some parsed ↦ inr parsed
    ]
  ]

  unfoldable pub override_duration : Text → Duration → ConfigError ⊎ Duration
  override_duration name target = elim (lookup name) [
    | none ↦ inr target
    | some value ↦ elim (parse_duration (trim_space value)) [
      | none ↦ inl (bad_variable name)
      | some parsed ↦ inr parsed
    ]
  ]

  unfoldable pub common_logger : Logger → Logger
  unfolding override_string
  common_logger l = record { level = override_string (codes "CALENDAR_LOGGER_LEVEL") l.level }

  unfoldable pub common_storage : Storage → Storage
  unfolding override_string
  common_storage s = record {
    kind = override_string (codes "CALENDAR_STORAGE_TYPE") s.kind;
    dsn = override_string (codes "CALENDAR_STORAGE_DSN") s.dsn;
  }

  unfoldable pub apply_metrics_environment : Metrics → ConfigError ⊎ Metrics
  unfolding override_string override_int
  apply_metrics_environment m = do
    port ← override_int (codes "CALENDAR_METRICS_PORT") m.port
    inr (record { host = override_string (codes "CALENDAR_METRICS_HOST") m.host; port = port })

  unfoldable pub override_brokers : List Text → List Text
  override_brokers brokers = elim (lookup (codes "CALENDAR_KAFKA_BROKERS")) [
    | none ↦ brokers
    | some value ↦ map trim_space (split_on b',' value)
  ]

  unfoldable pub apply_kafka_environment : Kafka → ConfigError ⊎ Kafka
  unfolding override_string override_int override_duration override_brokers
  apply_kafka_environment k = do
    connect_timeout ← override_duration (codes "CALENDAR_KAFKA_CONNECT_TIMEOUT") k.connect_timeout
    retry_initial ← override_duration (codes "CALENDAR_KAFKA_RETRY_INITIAL") k.retry_initial
    retry_max ← override_duration (codes "CALENDAR_KAFKA_RETRY_MAX") k.retry_max
    write_timeout ← override_duration (codes "CALENDAR_KAFKA_WRITE_TIMEOUT") k.write_timeout
    max_message_bytes ← override_int (codes "CALENDAR_KAFKA_MAX_MESSAGE_BYTES") k.max_message_bytes
    inr (record {
      brokers = override_brokers k.brokers;
      topic = override_string (codes "CALENDAR_KAFKA_TOPIC") k.topic;
      group_id = override_string (codes "CALENDAR_KAFKA_GROUP_ID") k.group_id;
      connect_timeout = connect_timeout;
      retry_initial = retry_initial;
      retry_max = retry_max;
      write_timeout = write_timeout;
      max_message_bytes = max_message_bytes;
    })

  unfoldable pub apply_calendar_environment : Calendar → ConfigError ⊎ Calendar
  unfolding override_string override_int common_logger common_storage
  apply_calendar_environment c = do
    port ← override_int (codes "CALENDAR_HTTP_PORT") c.http.port
    inr (record {
      logger = common_logger c.logger;
      http = record {
        host = override_string (codes "CALENDAR_HTTP_HOST") c.http.host;
        port = port;
      };
      storage = common_storage c.storage;
    })

  unfoldable pub apply_scheduler_environment : Scheduler → ConfigError ⊎ Scheduler
  unfolding override_int override_duration common_logger common_storage apply_metrics_environment
      apply_kafka_environment
  apply_scheduler_environment c = do
    metrics ← apply_metrics_environment c.metrics
    kafka ← apply_kafka_environment c.kafka
    interval ← override_duration (codes "CALENDAR_SCHEDULER_INTERVAL") c.scheduler.interval
    batch_size ← override_int (codes "CALENDAR_SCHEDULER_BATCH_SIZE") c.scheduler.batch_size
    retention_years ←
        override_int (codes "CALENDAR_SCHEDULER_RETENTION_YEARS") c.scheduler.retention_years
    inr (record {
      logger = common_logger c.logger;
      metrics = metrics;
      storage = common_storage c.storage;
      kafka = kafka;
      scheduler = record {
        interval = interval;
        batch_size = batch_size;
        retention_years = retention_years;
      };
    })

  unfoldable pub apply_storer_environment : Storer → ConfigError ⊎ Storer
  unfolding common_logger common_storage apply_metrics_environment apply_kafka_environment
  apply_storer_environment c = do
    metrics ← apply_metrics_environment c.metrics
    kafka ← apply_kafka_environment c.kafka
    inr (record {
      logger = common_logger c.logger;
      metrics = metrics;
      storage = common_storage c.storage;
      kafka = kafka;
    })
