-- ===== src/Config/Tests.antt =====
-- A file that sets the DSN, and an environment that sets the level and the batch size.
use golang_hw.Config.Environment.{
  override_string, override_int, override_duration, override_brokers, common_logger, common_storage,
  apply_metrics_environment, apply_kafka_environment, apply_scheduler_environment,
}
use golang_hw.Config.Load.{Decoder, decode, load_scheduler}
use golang_hw.Config.Validation.{
  is_kafka_topic_name_byte, check_topic_bytes, validate_kafka_topic_name, validate_logger,
  validate_metrics, validate_storage, any_broker_empty, validate_kafka, validate_settings,
  validate_scheduler,
}
use golang_hw.Config.{Duration, Scheduler, new_scheduler, default_kafka, storage_type_sql}
use golang_hw.Kafka.Topic.{utf8}
use golang_hw.Prelude.Int.{ℤ, pos}
use golang_hw.Prelude.{
  ◌-◌, false, Option, none, some, [], ◌∷◌, ◌≡◌, refl, inr, if◌then◌else◌, Text, codes, text_eq,
  text_mem, is_blank, is_space, trim_space,
}

program : Unit {0}
unfolding load_scheduler decode new_scheduler default_kafka apply_scheduler_environment
    apply_metrics_environment apply_kafka_environment common_logger common_storage override_string
    override_int override_duration override_brokers validate_scheduler validate_logger
    validate_metrics validate_storage validate_kafka validate_settings any_broker_empty
    validate_kafka_topic_name check_topic_bytes is_kafka_topic_name_byte utf8 text_eq text_mem
    is_blank is_space trim_space
program = tt

abbrev digit : Text → Option ℤ
digit (c ∷ []) = some (pos (c - b'0'))
digit _ = none

abbrev no_duration : Text → Option Duration
no_duration s = none

abbrev environment : Text → Option Text
environment name =
    if text_eq name (codes "CALENDAR_LOGGER_LEVEL")
    then some (codes "debug")
    else if text_eq name (codes "CALENDAR_SCHEDULER_BATCH_SIZE")
    then some (codes " 7 ")
    else none

abbrev file : Decoder Scheduler
file path c =
    some (record c { storage = record { kind = storage_type_sql; dsn = codes "host=db" } }, false)

abbrev loaded : Scheduler
loaded = record {
  logger = record { level = codes "debug" };
  metrics = record { host = codes "0.0.0.0"; port = pos 8081 };
  storage = record { kind = storage_type_sql; dsn = codes "host=db" };
  kafka = record {
    brokers = codes "localhost:9092" ∷ [];
    topic = codes "calendar.notifications";
    group_id = [];
    connect_timeout = pos 5000000000;
    retry_initial = pos 500000000;
    retry_max = pos 10000000000;
    write_timeout = pos 10000000000;
    max_message_bytes = pos 1048576;
  };
  scheduler = record { interval = pos 60000000000; batch_size = pos 7; retention_years = pos 1 };
}

loads : load_scheduler environment digit no_duration file (codes "scheduler.toml") ≡ inr loaded
unfolding program
loads = refl
