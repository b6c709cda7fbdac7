-- ===== src/Process/Tests.antt =====
-- A process whose topic is prepared and whose service fails, and one on the configuration of a file
-- that sets the level of the logger.
use golang_hw.Config.Accepted.{Fits}
use golang_hw.Config.Environment.{
  override_string, override_int, override_duration, override_brokers, common_logger, common_storage,
  apply_metrics_environment, apply_kafka_environment, apply_scheduler_environment,
}
use golang_hw.Config.Load.{Decoder, decode, load_scheduler}
use golang_hw.Config.Validation.{
  is_kafka_topic_name_byte, check_topic_bytes, validate_kafka_topic_name, validate_logger,
  validate_metrics, validate_storage, any_broker_empty, validate_kafka, validate_settings,
  validate_scheduler,
}
use golang_hw.Config.{
  ConfigError, empty_path, Scheduler, Storer, Calendar, new_scheduler, default_kafka,
  storage_type_sql,
}
use golang_hw.Kafka.Topic.{utf8}
use golang_hw.Notification.{fault}
use golang_hw.Process.Api.{run_calendar}
use golang_hw.Process.Closing.{closes, closes-run}
use golang_hw.Process.Starting.{EndsWell, run_scheduler-EndsWell}
use golang_hw.Process.{Answers, Parsed, flags, run_scheduler, run_storer}
use golang_hw.Prelude.Int.{ℤ, pos}
use golang_hw.Prelude.{
  true, false, Option, none, some, List, [], ◌∷◌, ◌≡◌, ◌↔◌, ◌⊎◌, refl, inl, inr, arith, Text, codes,
  text_eq, text_mem, is_blank, is_space, trim_space,
}

program : Unit {0}
unfolding load_scheduler decode new_scheduler default_kafka apply_scheduler_environment
    apply_metrics_environment apply_kafka_environment common_logger common_storage override_string
    override_int override_duration override_brokers validate_scheduler validate_logger
    validate_metrics validate_storage validate_kafka validate_settings any_broker_empty
    validate_kafka_topic_name check_topic_bytes is_kafka_topic_name_byte utf8 text_eq text_mem
    is_blank is_space trim_space Fits
program = tt

abbrev no_number : Text → Option ℤ
no_number s = none

abbrev no_variable : Text → Option Text
no_variable name = none

abbrev file : Decoder Scheduler
file path c =
    some (record c { storage = record { kind = storage_type_sql; dsn = codes "host=db" } }, false)

abbrev loaded : Scheduler
loaded = record {
  logger = record { level = codes "info" };
  metrics = record { host = codes "0.0.0.0"; port = pos 8081 };
  storage = record { kind = storage_type_sql; dsn = codes "host=db" };
  kafka = record {
    brokers = codes "localhost:9092" ∷ [];
    topic = codes "calendar.notifications";
    group_id = [];
    connect_timeout = pos 5000000000;
    retry_initial = pos 500000000;
    retry_max = pos 10000000000;
    write_timeout = pos 10000000000;
    max_message_bytes = pos 1048576;
  };
  scheduler = record { interval = pos 60000000000; batch_size = pos 100; retention_years = pos 1 };
}

loads : load_scheduler no_variable no_number no_number file (codes "scheduler.toml") ≡ inr loaded
unfolding program
loads = refl

abbrev answers : Answers
answers = record { connect = none; topic = none; run = some (fault 3) }

run_scheduler-EndsWell_example :
    ((run_scheduler
        (load_scheduler no_variable no_number no_number file)
        (flags (codes "scheduler.toml") [])
        answers).0
      ≡ none)
    ↔ EndsWell answers
unfolding program
run_scheduler-EndsWell_example =
    run_scheduler-EndsWell no_variable no_number no_number file (codes "scheduler.toml") loaded
      answers loads (omega arith, omega arith, omega arith)

abbrev no_storer : Text → ConfigError ⊎ Storer
no_storer path = inl empty_path

abbrev no_calendar : Text → ConfigError ⊎ Calendar
no_calendar path = inl empty_path

abbrev parse : List Text → Parsed
parse args = flags (codes "scheduler.toml") args

closes-run_example :
    (closes []
        (run_scheduler (load_scheduler no_variable no_number no_number file) (parse []) answers).1
      ≡ true)
    × (closes [] (run_storer no_storer (parse []) answers).1 ≡ true)
    × (closes [] (run_calendar no_calendar parse [] none (some (fault 3))).1 ≡ true)
closes-run_example =
    closes-run (load_scheduler no_variable no_number no_number file) no_storer no_calendar parse []
      answers
