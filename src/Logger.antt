-- ===== src/Logger.antt =====
-- hw12_13_14_15_16_calendar/internal/logger/logger.go. What is written is the list of the lines' labels
-- and messages; the writer and the time stamps are left out.
use golang_hw.Prelude.{
  ℕ, Option, none, some, List, [], ◌∷◌, ◌++◌, ltb, if◌then◌else◌, Text, codes, text_eq,
}

pub data Level : Type 0 where
  error_level warn_level info_level debug_level : Level

-- The number of a level, which the comparisons use.
abbrev pub rank : Level → ℕ
rank error_level = 0
rank warn_level = 1
rank info_level = 2
rank debug_level = 3

unfoldable pub parse_level : Text → Option Level
parse_level value =
    if text_eq value (codes "error")
    then some error_level
    else if text_eq value (codes "warn")
    then some warn_level
    else if text_eq value (codes "info")
    then some info_level
    else if text_eq value (codes "debug")
    then some debug_level
    else none

abbrev pub label : Level → Text
label error_level = codes "ERROR"
label warn_level = codes "WARN"
label info_level = codes "INFO"
label debug_level = codes "DEBUG"

-- `Debug`, `Warn`, `Info` and `Error` of a logger with this level, by the level of the message.
unfoldable pub log : (level message_level : Level) → Text → List (Text × Text) → List (Text × Text)
log level message_level message written =
    if ltb (rank level) (rank message_level)
    then written
    else written ++ (label message_level, message) ∷ []
