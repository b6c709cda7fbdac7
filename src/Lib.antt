-- ===== src/Lib.antt =====
-- The repository holds the homework programs of a Go course: small libraries (hw02 to hw11) and a
-- calendar service (hw12_13_14_15_16_calendar). The libraries are independent of each other. The
-- service keeps events in a storage; its scheduler lists the events that are due, publishes a
-- notification of each to Kafka and marks the event; its storer consumes the notifications and saves
-- them.
--
-- Parts and files:
-- - Prelude: Boolean tests, native lists, texts, signed integers, sorting, the order of texts.
-- - Unpack: hw02_unpack_string/unpack.go, `Unpack`. Unpack.Grammar is the grammar it decides.
-- - Frequency: hw03_frequency_analysis/top.go, `Top10`: counts, comparison, sort, result.
-- - Lru: hw04_lru_cache. Lru.Queue is list.go, a doubly linked list in an explicit store of items;
--   Lru.Cache is cache.go on top of it, and Lru.Cache.Spec the list of entries it implements.
-- - Parallel: hw05_parallel_execution/run.go, `Run` and its workers as steps.
-- - Pipeline: hw06_pipeline_execution/pipeline.go, the goroutine of `forward` as steps.
-- - FileCopy: hw07_file_copying, `Copy` with the files as data, and `run`.
-- - Envdir: hw08_envdir_tool, `ReadDir` with the files of the directory as data, and the environment
--   that `RunCmd` hands to the command.
-- - Validator: hw09_struct_validator/validator.go, `Validate` over the fields that reflection gives.
-- - DomainStat: hw10_program_optimization/stats.go, `GetDomainStat` over the lines of its scanner.
-- - Telnet: hw11_telnet_client, a session and its two goroutines as steps.
-- - Calendar: internal/storage/event.go of the calendar, and Calendar.Memory its
--   internal/storage/memory/storage.go. A method is one step, since it holds the lock.
-- - Sql: internal/storage/sql, the guards, statements and errors of each method. Sql.Pool has
--   `Connect` and `Close` as steps of calls that overlap, Sql.Table the statements of scheduler.go on
--   a table.
-- - Notification, Scheduler, Storer: internal/notification, internal/scheduler and
--   internal/storer. Scheduler.Drain runs the scheduler over a storage given by its operations and
--   their laws, which Scheduler.Drain.SqlStore shows of Sql.Table.
-- - Config, Logger: internal/config/config.go and the levels of internal/logger. Config.Environment
--   overrides settings from the environment, Config.Validation checks them, Config.Load does both.
-- - Monitoring: internal/monitoring/server.go, `RunWithServer` and the server that it starts as steps.
-- - Process: cmd/calendar_scheduler, cmd/calendar_storer and, in Process.Api, cmd/calendar: `run` from
--   the command line to the end.
-- - App: internal/app/app.go, the use cases over a storage.
-- - Http: internal/server/http, the handlers; Http.Writer is about the status
--   writer, Http.Metrics about the labels of the metrics and Http.AccessLog about the log.
-- - Kafka: internal/kafka. Kafka.Retry is retry.go, Kafka.Topic topic.go, Kafka.Consumer consumer.go
--   and producer.go.
--
-- A text is the list of its runes. Times and durations are signed numbers of nanoseconds, except in
-- Kafka.Retry, where a duration is a 64-bit word whose sums wrap around. A context is what its
-- `Err()` answers, call by call. Code that is not in the repository is a parameter or data: the
-- Unicode digits, the order of a range over a map, the JSON and TOML decoders, strconv, regexp, the
-- files and variables of the operating system, floating point, the database, the client library of
-- Kafka. What it answers in a loop without an end is a list of rounds, so that a loop is a recursion
-- on it and a loop that still runs at the end of the list says so. `Unpack` has its length as fuel:
-- each round takes at least one rune.
--
-- Not modelled: the texts of error messages and logs; of the calendar, the generated HTTP interface,
-- the composition of the middleware, the metrics registries and the listening of the HTTP server;
-- the loop of the scheduler around its cycles; hw01 prints one line.
pub mod App
pub mod Calendar
pub mod Config
pub mod DomainStat
pub mod Envdir
pub mod FileCopy
pub mod Frequency
pub mod Http
pub mod Kafka
pub mod Logger
pub mod Lru
pub mod Monitoring
pub mod Notification
pub mod Parallel
pub mod Pipeline
pub mod Prelude
pub mod Process
pub mod Scheduler
pub mod Sql
pub mod Storer
pub mod Telnet
pub mod Unpack
pub mod Validator
