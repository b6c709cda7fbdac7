-- ===== src/Config/Load.antt =====
-- The loading of a configuration in internal/config/config.go. `decode_file` is `toml.DecodeFile` on the
-- defaults: the decoded settings, and whether some key of the file was not used.
use golang_hw.Config.Environment.{
  apply_calendar_environment, apply_scheduler_environment, apply_storer_environment,
}
use golang_hw.Config.Validation.{validate_calendar, validate_scheduler, validate_storer}
use golang_hw.Config.{
  Duration, Calendar, Scheduler, Storer, ConfigError, empty_path, decode_failed, unknown_fields,
  new_calendar, new_scheduler, new_storer, ◌>>=◌,
}
use golang_hw.Prelude.Int.{ℤ}
use golang_hw.Prelude.{Bool, Option, none, some, ◌⊎◌, inl, inr, if◌then◌else◌, Text, is_blank}

abbrev pub Decoder : Type 0 → Type 0
Decoder A = Text → A → Option (A × Bool)

unfoldable pub decode : {A : Type 0} → Decoder A → Text → A → ConfigError ⊎ A
decode decode_file path target =
    if is_blank path then inl empty_path else elim (decode_file path target) [
      | none ↦ inl decode_failed
      | some (decoded, undecoded) ↦ if undecoded then inl unknown_fields else inr decoded
    ]

-- The settings, if there is no error.
abbrev pub accept : {A : Type 0} → Option ConfigError → A → ConfigError ⊎ A
accept none a = inr a
accept (some err) a = inl err

module _ (lookup : Text → Option Text) (atoi : Text → Option ℤ)
    (parse_duration : Text → Option Duration) where
  unfoldable pub load_calendar : Decoder Calendar → Text → ConfigError ⊎ Calendar
  load_calendar decode_file path = do
    decoded ← decode decode_file path new_calendar
    config ← apply_calendar_environment lookup atoi parse_duration decoded
    accept (validate_calendar config) config

  unfoldable pub load_scheduler : Decoder Scheduler → Text → ConfigError ⊎ Scheduler
  load_scheduler decode_file path = do
    decoded ← decode decode_file path new_scheduler
    config ← apply_scheduler_environment lookup atoi parse_duration decoded
    accept (validate_scheduler config) config

  unfoldable pub load_storer : Decoder Storer → Text → ConfigError ⊎ Storer
  load_storer decode_file path = do
    decoded ← decode decode_file path new_storer
    config ← apply_storer_environment lookup atoi parse_duration decoded
    accept (validate_storer config) config
