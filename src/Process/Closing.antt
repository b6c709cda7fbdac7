-- ===== src/Process/Closing.antt =====
-- What the processes of the calendar open, they close.
use golang_hw.Config.{ConfigError, Kafka, Scheduler, Storer, Calendar}
use golang_hw.Logger.{parse_level}
use golang_hw.Notification.{Failure}
use golang_hw.Process.{
  ProcessError, Resource, storage, client, Call, opened, closed, ensured_topic, served, listened,
  Parsed, bad_flags, flags, Answers, ensure_topic, behind_client, behind_storage, behind_logger,
  new_scheduler, run_scheduler, run_storer,
}
use golang_hw.Process.Api.{new_storage, listen, run_flags, run_calendar}
use golang_hw.Prelude.{
  Bool-cases, codes, text_eq, Bool, true, false, ◌&&◌, ◌||◌, Option, none, some, List, [], ◌∷◌,
  ◌++◌, ◌⊎◌, inl, inr, ◌≡◌, refl, Text, Option-cases, outcome-cases,
}

unfoldable pub same : Resource → Resource → Bool
same storage storage = true
same client client = true
same _ _ = false

unfoldable pub holds : List Resource → Resource → Bool
holds [] r = false
holds (h ∷ held) r = same h r || holds held r

-- The calls close what is open, the last opened first, and use the broker and the service only while
-- what they need is open; in the end nothing is open.
unfoldable pub closes : List Resource → List Call → Bool
closes [] [] = true
closes (h ∷ held) [] = false
closes held (opened r ∷ calls) = closes (r ∷ held) calls
closes [] (closed r ∷ calls) = false
closes (h ∷ held) (closed r ∷ calls) = same h r && closes held calls
closes held (ensured_topic ∷ calls) = holds held storage && closes held calls
closes held (listened ∷ calls) = holds held storage && closes held calls
closes held (served ∷ calls) = holds held storage && (holds held client && closes held calls)

-- The calls of a service that starts.
closes-behind_client :
    (create_err : Option ProcessError) (run : Option Failure)
    → closes [] (
        opened storage
          ∷ (ensured_topic ∷ opened client ∷ (behind_client create_err run).1 ++ closed client ∷ [])
        ++ closed storage ∷ [])
      ≡ true
unfolding behind_client closes holds same
closes-behind_client (some err) run = refl
closes-behind_client none (some err) = refl
closes-behind_client none none = refl

closes-behind_logger :
    (k : Kafka) (create_err : Option ProcessError) (a : Answers)
    → closes [] (behind_logger k create_err a).1 ≡ true
unfolding behind_logger behind_storage closes holds same
closes-behind_logger k create_err a = elim (Option-cases a.connect) [
  | inr (err, p) ↦ rw (p, behind_logger) refl
  | inl p ↦ elim (Option-cases (ensure_topic k a.topic)) [
    | inr (err, q) ↦ rw (p, q, behind_logger, behind_storage) refl
    | inl q ↦ rw (p, q, behind_logger, behind_storage) (closes-behind_client create_err a.run)
  ]
]

closes-run_scheduler :
    (load : Text → ConfigError ⊎ Scheduler) (parsed : Parsed) (a : Answers)
    → closes [] (run_scheduler load parsed a).1 ≡ true
unfolding run_scheduler closes
closes-run_scheduler load (bad_flags err) a = refl
closes-run_scheduler load (flags path (x ∷ xs)) a = refl
closes-run_scheduler load (flags path []) a = elim (outcome-cases (load path)) [
  | inl (err, p) ↦ rw (p, run_scheduler) refl
  | inr (c, p) ↦ elim (Option-cases (parse_level c.logger.level)) [
    | inl q ↦ rw (p, q, run_scheduler) refl
    | inr (level, q) ↦ rw (p, q, run_scheduler) (closes-behind_logger c.kafka (new_scheduler c) a)
  ]
]

closes-run_storer :
    (load : Text → ConfigError ⊎ Storer) (parsed : Parsed) (a : Answers)
    → closes [] (run_storer load parsed a).1 ≡ true
unfolding run_storer closes
closes-run_storer load (bad_flags err) a = refl
closes-run_storer load (flags path (x ∷ xs)) a = refl
closes-run_storer load (flags path []) a = elim (outcome-cases (load path)) [
  | inl (err, p) ↦ rw (p, run_storer) refl
  | inr (c, p) ↦ elim (Option-cases (parse_level c.logger.level)) [
    | inl q ↦ rw (p, q, run_storer) refl
    | inr (level, q) ↦ rw (p, q, run_storer) (closes-behind_logger c.kafka none a)
  ]
]

closes-listen : (start : Option Failure) → closes [] (listen start).1 ≡ true
unfolding listen closes holds same
closes-listen none = refl
closes-listen (some err) = refl

closes-run_flags :
    (load : Text → ConfigError ⊎ Calendar) (parsed : Parsed) (connect start : Option Failure)
    → closes [] (run_flags load parsed connect start).1 ≡ true
unfolding run_flags closes
closes-run_flags load (bad_flags err) connect start = refl
closes-run_flags load (flags path (x ∷ xs)) connect start = refl
closes-run_flags load (flags path []) connect start = elim (outcome-cases (load path)) [
  | inl (err, p) ↦ rw (p, run_flags) refl
  | inr (c, p) ↦ elim (Option-cases (parse_level c.logger.level)) [
    | inl q ↦ rw (p, q, run_flags) refl
    | inr (level, q) ↦ elim (Option-cases (new_storage c.storage connect)) [
      | inl r ↦ rw (p, q, r, run_flags) (closes-listen start)
      | inr (err, r) ↦ rw (p, q, r, run_flags) refl
    ]
  ]
]

closes-run_calendar :
    (load : Text → ConfigError ⊎ Calendar) (parse : List Text → Parsed) (args : List Text)
    → (connect start : Option Failure)
    → closes [] (run_calendar load parse args connect start).1 ≡ true
unfolding run_calendar closes
closes-run_calendar load parse [] connect start = closes-run_flags load (parse []) connect start
closes-run_calendar load parse (arg ∷ args) connect start =
    elim (Bool-cases (text_eq arg (codes "version"))) [
      | inl p ↦ rw (p, run_calendar) refl
      | inr p ↦ rw (p, run_calendar) (closes-run_flags load (parse (arg ∷ args)) connect start)
    ]

-- However the processes of the scheduler, the storer and the calendar end, they have closed what they
-- opened, the client of Kafka before the storage, and used nothing that was not open.
pub closes-run :
    (load : Text → ConfigError ⊎ Scheduler) (load_storer : Text → ConfigError ⊎ Storer)
    → (load_calendar : Text → ConfigError ⊎ Calendar) (parse : List Text → Parsed)
    → (args : List Text) (a : Answers)
    → (closes [] (run_scheduler load (parse args) a).1 ≡ true)
      × (closes [] (run_storer load_storer (parse args) a).1 ≡ true)
      × (closes [] (run_calendar load_calendar parse args a.connect a.run).1 ≡ true)
closes-run load load_storer load_calendar parse args a = (
  closes-run_scheduler load (parse args) a,
  closes-run_storer load_storer (parse args) a,
  closes-run_calendar load_calendar parse args a.connect a.run,
)
