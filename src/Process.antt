-- ===== src/Process.antt =====
-- cmd/calendar_scheduler/main.go and cmd/calendar_storer/main.go of the calendar (Process.Api is about
-- cmd/calendar/main.go): `run`, from the
-- command line to the end of the process. What the database, Kafka and the running service answer is
-- data. The calls on the two resources that `run` opens stand in their order beside its error.
pub mod Api
pub mod Closing
pub mod Starting
mod Tests
use golang_hw.Config.Accepted.{to_word}
use golang_hw.Config.{ConfigError, Kafka, Scheduler, Storer}
use golang_hw.Kafka.Retry.{validate_retry_config}
use golang_hw.Kafka.Topic.{NameError, validate_topic_name}
use golang_hw.Kafka.Retry
use golang_hw.Logger.{parse_level}
use golang_hw.Notification.{Failure, is_canceled}
use golang_hw.Scheduler.{validate_config}
use golang_hw.Prelude.{
  Bool, true, false, ◌&&◌, ◌||◌, Option, none, some, List, [], ◌∷◌, ◌++◌, ◌⊎◌, inl, inr, Text,
  if◌then◌else◌,
}

pub data TopicError : Type 0 where
  bad_name : NameError → TopicError
  bad_retry : Retry.ConfigError → TopicError
  unavailable : Failure → TopicError

pub data ProcessError : Type 0 where
  parse_command_line : Failure → ProcessError
  unexpected_arguments : List Text → ProcessError
  load_config : ConfigError → ProcessError
  create_logger : ProcessError
  connect_sql_storage : Failure → ProcessError
  prepare_topic : TopicError → ProcessError
  create_scheduler : golang_hw.Scheduler.ConfigError → ProcessError
  run_service : Failure → ProcessError
  run_http_server : Failure → ProcessError
  unsupported_storage : Text → ProcessError

pub data Resource : Type 0 where
  storage client : Resource

pub data Call : Type 0 where
  opened closed : Resource → Call
  ensured_topic served listened : Call

-- What the flag parser gives: its error, or the path and the arguments that are left.
pub data Parsed : Type 0 where
  bad_flags : Failure → Parsed
  flags : Text → List Text → Parsed

-- What `Connect`, the loop of `ensureTopic` and `RunWithServer` return.
pub record Answers : Type 0 where
  pub connect : Option Failure
  pub topic : Option Failure
  pub run : Option Failure

-- `EnsureTopic`: its checks, and then its loop.
unfoldable pub ensure_topic : Kafka → Option Failure → Option TopicError
unfolding validate_topic_name validate_retry_config
ensure_topic k answer = elim (validate_topic_name k.topic) [
  | some err ↦ some (bad_name err)
  | none ↦
      elim (validate_retry_config k.brokers (to_word k.connect_timeout) (to_word k.retry_initial)
        (to_word k.retry_max)) [
          | some err ↦ some (bad_retry err)
          | none ↦ elim answer [ some err ↦ some (unavailable err) | none ↦ none ]
        ]
]

-- `errors.Is(err, context.Canceled)`
unfoldable pub is_canceled_topic : TopicError → Bool
is_canceled_topic (unavailable err) = is_canceled err
is_canceled_topic _ = false

-- From the creation of the scheduler or the storer on, with the error of it.
unfoldable pub behind_client :
    Option ProcessError → Option Failure → Option ProcessError × List Call
behind_client (some err) run = (some err, [])
behind_client none (some err) = (some (run_service err), served ∷ [])
behind_client none none = (none, served ∷ [])

-- From `EnsureTopic` on; the producer or the consumer is closed at the end.
unfoldable pub behind_storage :
    Kafka → Option ProcessError → Answers → Option ProcessError × List Call
unfolding behind_client ensure_topic is_canceled_topic
behind_storage k create_err a = elim (ensure_topic k a.topic) [
  | some err ↦
      (if is_canceled_topic err then none else some (prepare_topic err), ensured_topic ∷ [])
  | none ↦
      let rest = behind_client create_err a.run in
      (rest.0, ensured_topic ∷ opened client ∷ rest.1 ++ closed client ∷ [])
]

-- From `connectStorage` on; the storage is closed at the end.
unfoldable pub behind_logger :
    Kafka → Option ProcessError → Answers → Option ProcessError × List Call
unfolding behind_storage
behind_logger k create_err a = elim a.connect [
  | some err ↦ (some (connect_sql_storage err), [])
  | none ↦
      let rest = behind_storage k create_err a in
      (rest.0, opened storage ∷ rest.1 ++ closed storage ∷ [])
]

-- `scheduler.New` with the settings of the configuration.
unfoldable pub new_scheduler : Scheduler → Option ProcessError
unfolding validate_config
new_scheduler c =
    elim (validate_config (record {
      interval = c.scheduler.interval;
      batch_size = c.scheduler.batch_size;
      retention_years = c.scheduler.retention_years;
    })) [ some err ↦ some (create_scheduler err) | none ↦ none ]

unfoldable pub run_scheduler :
    (load : Text → ConfigError ⊎ Scheduler) → Parsed → Answers → Option ProcessError × List Call
unfolding behind_logger new_scheduler parse_level
run_scheduler load (bad_flags err) a = (some (parse_command_line err), [])
run_scheduler load (flags path (x ∷ xs)) a = (some (unexpected_arguments (x ∷ xs)), [])
run_scheduler load (flags path []) a = elim (load path) [
  | inl err ↦ (some (load_config err), [])
  | inr c ↦ elim (parse_level c.logger.level) [
    | none ↦ (some create_logger, [])
    | some level ↦ behind_logger c.kafka (new_scheduler c) a
  ]
]

-- `storer.New` refuses only nil arguments.
unfoldable pub run_storer :
    (load : Text → ConfigError ⊎ Storer) → Parsed → Answers → Option ProcessError × List Call
unfolding behind_logger parse_level
run_storer load (bad_flags err) a = (some (parse_command_line err), [])
run_storer load (flags path (x ∷ xs)) a = (some (unexpected_arguments (x ∷ xs)), [])
run_storer load (flags path []) a = elim (load path) [
  | inl err ↦ (some (load_config err), [])
  | inr c ↦ elim (parse_level c.logger.level) [
    | none ↦ (some create_logger, [])
    | some level ↦ behind_logger c.kafka none a
  ]
]
