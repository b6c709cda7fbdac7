-- ===== src/Process/Starting.antt =====
-- A scheduler process on a configuration that loads.
use golang_hw.Config.Accepted.{Fits, Accepted, load_scheduler-Accepted}
use golang_hw.Config.Load.{Decoder, load_scheduler}
use golang_hw.Config.{Duration, Scheduler}
use golang_hw.Logger.{parse_level}
use golang_hw.Notification.{Failure, canceled, invalid, fault}
use golang_hw.Process.{
  flags, Answers, unavailable, ensure_topic, is_canceled_topic, behind_client, behind_storage,
  behind_logger, new_scheduler, run_scheduler,
}
use golang_hw.Prelude.Int.{ℤ}
use golang_hw.Prelude.{
  Option, none, some, [], inl, inr, ◌≡◌, ◌≢◌, ◌⊎◌, ◌↔◌, refl, arith, Text, Option-cases,
}

-- What ends a process that has started without an error.
unfoldable pub EndsWell : Answers → Type 0
EndsWell a = (a.connect ≡ none) × ((a.topic ≡ some canceled) ⊎ ((a.topic ≡ none) × (a.run ≡ none)))

Accepted-ensure_topic :
    (c : Scheduler) (answer : Option Failure)
    → Accepted c
    → ensure_topic c.kafka answer
      ≡ (elim answer [ some err ↦ some (unavailable err) | none ↦ none ])
unfolding ensure_topic Accepted
Accepted-ensure_topic c answer (l, t, r, s) = rw (t, r, ensure_topic) refl

Accepted-new_scheduler : (c : Scheduler) → Accepted c → new_scheduler c ≡ none
unfolding new_scheduler Accepted
Accepted-new_scheduler c (l, t, r, s) = rw (s, new_scheduler) refl

level_known : (c : Scheduler) → Accepted c → parse_level c.logger.level ≢ none
unfolding Accepted
level_known c (l, t, r, s) = l

-- The answers of a process, one by one.
decided :
    (c : Scheduler) (connect topic run : Option Failure)
    → Accepted c
    → ((behind_logger c.kafka none (record { connect = connect; topic = topic; run = run })).0
        ≡ none)
      ↔ EndsWell (record { connect = connect; topic = topic; run = run })
unfolding behind_logger behind_storage behind_client EndsWell is_canceled_topic
decided c (some err) topic run h = ground arith
decided c none none none h = rw (Accepted-ensure_topic c none h, behind_storage) (ground arith)
decided c none none (some err) h =
    rw (Accepted-ensure_topic c none h, behind_storage) (ground arith)
decided c none (some canceled) run h =
    rw (Accepted-ensure_topic c (some canceled) h, behind_storage) (ground arith)
decided c none (some (invalid i)) run h =
    rw (Accepted-ensure_topic c (some (invalid i)) h, behind_storage) (ground arith)
decided c none (some (fault n)) run h =
    rw (Accepted-ensure_topic c (some (fault n)) h, behind_storage) (ground arith)

-- A scheduler process on a configuration that loads, with durations of 64 bits, is refused by none of
-- its parts: it returns nil exactly where the database connects, and the topic is prepared and the
-- service runs to its end without an error, or the preparation of the topic is cancelled.
pub run_scheduler-EndsWell :
    (lookup : Text → Option Text) (atoi : Text → Option ℤ) (parse_duration : Text → Option Duration)
    (decode_file : Decoder Scheduler) (path : Text) (c : Scheduler) (a : Answers)
    → load_scheduler lookup atoi parse_duration decode_file path ≡ inr c
    → Fits c.kafka
    → ((run_scheduler (load_scheduler lookup atoi parse_duration decode_file) (flags path []) a).0
        ≡ none)
      ↔ EndsWell a
unfolding run_scheduler
run_scheduler-EndsWell lookup atoi parse_duration decode_file path c a h f =
    let ok = load_scheduler-Accepted lookup atoi parse_duration decode_file path c h f in
    elim (Option-cases (parse_level c.logger.level)) [
      | inl q ↦ absurd (level_known c ok q)
      | inr (level, q) ↦
          rw (h, q, Accepted-new_scheduler c ok, run_scheduler)
            (decided c a.connect a.topic a.run ok)
    ]
