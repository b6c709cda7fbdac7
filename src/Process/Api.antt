-- ===== src/Process/Api.antt =====
-- cmd/calendar/main.go: `run` of the calendar service over either storage.
use golang_hw.Config.{ConfigError, Storage, Calendar, storage_type_memory, storage_type_sql}
use golang_hw.Logger.{parse_level}
use golang_hw.Notification.{Failure}
use golang_hw.Process.{
  ProcessError, parse_command_line, unexpected_arguments, load_config, create_logger,
  connect_sql_storage, run_http_server, unsupported_storage, storage, Call, opened, closed,
  listened, Parsed, bad_flags, flags,
}
use golang_hw.Prelude.{
  Option, none, some, List, [], ◌∷◌, ◌⊎◌, inl, inr, Text, codes, text_eq, if◌then◌else◌,
}

-- `newStorage`, with what `Connect` returns: an error, or none with a storage.
unfoldable pub new_storage : Storage → Option Failure → Option ProcessError
unfolding text_eq
new_storage config connect =
    if text_eq config.kind storage_type_memory
    then none
    else if text_eq config.kind storage_type_sql
    then (elim connect [ some err ↦ some (connect_sql_storage err) | none ↦ none ])
    else some (unsupported_storage config.kind)

-- From `server.Start` on, with what it returns; `closeStorage` is called at the end.
unfoldable pub listen : Option Failure → Option ProcessError × List Call
listen none = (none, opened storage ∷ listened ∷ closed storage ∷ [])
listen (some err) = (some (run_http_server err), opened storage ∷ listened ∷ closed storage ∷ [])

-- `run` when the first argument is not "version".
unfoldable pub run_flags :
    (load : Text → ConfigError ⊎ Calendar)
    → Parsed
    → (connect start : Option Failure) → Option ProcessError × List Call
unfolding new_storage listen parse_level
run_flags load (bad_flags err) connect start = (some (parse_command_line err), [])
run_flags load (flags path (x ∷ xs)) connect start = (some (unexpected_arguments (x ∷ xs)), [])
run_flags load (flags path []) connect start = elim (load path) [
  | inl err ↦ (some (load_config err), [])
  | inr c ↦ elim (parse_level c.logger.level) [
    | none ↦ (some create_logger, [])
    | some level ↦ elim (new_storage c.storage connect) [
      | some err ↦ (some err, [])
      | none ↦ listen start
    ]
  ]
]

-- `parse` stands for `flags.Parse`.
unfoldable pub run_calendar :
    (load : Text → ConfigError ⊎ Calendar) (parse : List Text → Parsed)
    → List Text
    → (connect start : Option Failure) → Option ProcessError × List Call
unfolding run_flags
run_calendar load parse [] connect start = run_flags load (parse []) connect start
run_calendar load parse (arg ∷ args) connect start =
    if text_eq arg (codes "version")
    then (none, [])
    else run_flags load (parse (arg ∷ args)) connect start
