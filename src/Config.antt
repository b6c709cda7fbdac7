-- ===== src/Config.antt =====
-- hw12_13_14_15_16_calendar/internal/config/config.go: the settings of the three services and their
-- defaults. The children read the environment, check the settings and load them. An `int` and a
-- duration are signed numbers; whoever parses them keeps them within 64 bits.
pub mod Environment
pub mod Validation
pub mod Load
pub mod Accepted
mod Tests
use golang_hw.Prelude.Int.{ℤ, pos}
use golang_hw.Prelude.{ℕ, ◌*◌, List, [], ◌∷◌, ◌⊎◌, inl, inr, Text, codes}
use golang_hw.Kafka.Topic.{NameError}

-- Nanoseconds.
abbrev pub Duration : Type 0
Duration = ℤ

abbrev pub milliseconds : ℕ → Duration
milliseconds n = pos (n * 1000000)

pub record Logger : Type 0 where
  pub level : Text

pub record Http : Type 0 where
  pub host : Text
  pub port : ℤ

pub record Metrics : Type 0 where
  pub host : Text
  pub port : ℤ

pub record Storage : Type 0 where
  pub kind : Text
  pub dsn : Text

pub record Kafka : Type 0 where
  pub brokers : List Text
  pub topic : Text
  pub group_id : Text
  pub connect_timeout : Duration
  pub retry_initial : Duration
  pub retry_max : Duration
  pub write_timeout : Duration
  pub max_message_bytes : ℤ

pub record SchedulerSettings : Type 0 where
  pub interval : Duration
  pub batch_size : ℤ
  pub retention_years : ℤ

pub record Calendar : Type 0 where
  pub logger : Logger
  pub http : Http
  pub storage : Storage

pub record Scheduler : Type 0 where
  pub logger : Logger
  pub metrics : Metrics
  pub storage : Storage
  pub kafka : Kafka
  pub scheduler : SchedulerSettings

pub record Storer : Type 0 where
  pub logger : Logger
  pub metrics : Metrics
  pub storage : Storage
  pub kafka : Kafka

pub data ConfigError : Type 0 where
  empty_path decode_failed unknown_fields : ConfigError
  -- a variable of the environment that does not parse
  bad_variable : Text → ConfigError
  unsupported_level empty_host bad_port : ConfigError
  unsupported_storage empty_dsn : ConfigError
  no_brokers empty_broker empty_group : ConfigError
  bad_topic : NameError → ConfigError
  bad_connect_timeout bad_retry retry_exceeds_maximum bad_write_timeout bad_message_size :
      ConfigError
  bad_interval bad_batch_size bad_retention_years : ConfigError

infixl 1 ◌>>=◌
abbrev pub ◌>>=◌ : {A B : Type 0} → ConfigError ⊎ A → (A → ConfigError ⊎ B) → ConfigError ⊎ B
inl err >>= k = inl err
inr a >>= k = k a

abbrev pub storage_type_memory : Text
storage_type_memory = codes "memory"

abbrev pub storage_type_sql : Text
storage_type_sql = codes "sql"

unfoldable pub default_kafka : Kafka
default_kafka = record {
  brokers = codes "localhost:9092" ∷ [];
  topic = codes "calendar.notifications";
  group_id = [];
  connect_timeout = milliseconds 5000;
  retry_initial = milliseconds 500;
  retry_max = milliseconds 10000;
  write_timeout = milliseconds 10000;
  max_message_bytes = pos 1048576;
}

unfoldable pub new_calendar : Calendar
new_calendar = record {
  logger = record { level = codes "info" };
  http = record { host = codes "0.0.0.0"; port = pos 8080 };
  storage = record { kind = storage_type_memory; dsn = [] };
}

unfoldable pub new_scheduler : Scheduler
unfolding default_kafka
new_scheduler = record {
  logger = record { level = codes "info" };
  metrics = record { host = codes "0.0.0.0"; port = pos 8081 };
  storage = record { kind = storage_type_sql; dsn = [] };
  kafka = default_kafka;
  scheduler = record {
    interval = milliseconds 60000;
    batch_size = pos 100;
    retention_years = pos 1;
  };
}

unfoldable pub new_storer : Storer
unfolding default_kafka
new_storer = record {
  logger = record { level = codes "info" };
  metrics = record { host = codes "0.0.0.0"; port = pos 8082 };
  storage = record { kind = storage_type_sql; dsn = [] };
  kafka = record default_kafka { group_id = codes "calendar-storer" };
}
