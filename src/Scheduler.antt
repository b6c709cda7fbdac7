-- ===== src/Scheduler.antt =====
-- hw12_13_14_15_16_calendar/internal/scheduler/scheduler.go. What the storage, the producer, the
-- serializer and the context answer is data, for each event and each round of a cycle; a cycle gives
-- the calls that it makes, in order, beside its end.
pub mod Publication
pub mod Completion
pub mod Drain
mod Tests
use golang_hw.Calendar.Event.{Time, Duration, Event}
use golang_hw.Notification.{Notification, validate, Failure, canceled, invalid, is_canceled}
use golang_hw.Prelude.Int.{ℤ, pos, leb_ℤ}
use golang_hw.Prelude.{
  ℕ, Bool, true, false, not, ◌&&◌, Option, none, some, List, [], ◌∷◌, ◌++◌, ◌⊎◌, inl, inr, ltb,
  ◌==◌, if◌then◌else◌, length, map, Text,
}

pub record Config : Type 0 where
  pub interval : Duration
  pub batch_size : ℤ
  pub retention_years : ℤ

pub data ConfigError : Type 0 where
  bad_interval bad_batch_size bad_retention_years : ConfigError

unfoldable pub validate_config : Config → Option ConfigError
validate_config c =
    if leb_ℤ c.interval (pos 0)
    then some bad_interval
    else if leb_ℤ c.batch_size (pos 0)
    then some bad_batch_size
    else if leb_ℤ c.retention_years (pos 0)
    then some bad_retention_years
    else none

-- The calls, those of the storage and the producer with what they have answered.
pub data Call : Type 0 where
  deleted_before : Time → Option Failure → Call
  listed : Time → ℤ → Failure ⊎ List Event → Call
  sent : Text → Notification → Option Failure → Call
  marked : Event → Time → Failure ⊎ Bool → Call
  -- the metrics
  published : Bool → Call
  observed : Bool → Call

-- What the serializer, the producer and the storage answer for one event.
pub record Answers : Type 0 where
  pub marshal : Option Failure
  pub send : Option Failure
  pub mark : Failure ⊎ Bool

unfoldable pub notification_of : Event → Notification
notification_of event = record {
  event_id = event.id;
  title = event.title;
  event_at = event.start_at;
  user_id = event.user_id;
}

unfoldable pub publish : Event → Time → Answers → (Failure ⊎ Bool) × List Call
unfolding notification_of validate
publish event sent_at a =
    let message = notification_of event in
    elim (validate message) [
      | some err ↦ (inl (invalid err), published false ∷ [])
      | none ↦ elim a.marshal [
        | some err ↦ (inl err, published false ∷ [])
        | none ↦ elim a.send [
          | some err ↦ (
            inl err,
            sent event.id message (some err)
                ∷ (if not (is_canceled err) then published false ∷ [] else []),
          )
          | none ↦ (
            a.mark,
            sent event.id message none ∷ published true ∷ marked event sent_at a.mark ∷ [],
          )
        ]
      ]
    ]

-- `for _, event := range events`: the failure, or whether the snapshot is stale.
unfoldable pub batch : Time → Bool → List (Event × Answers) → (Failure ⊎ Bool) × List Call
batch now stale [] = (inr stale, [])
batch now stale ((event, a) ∷ events) =
    let p = publish event now a in
    elim p.0 [
      | inl err ↦ (inl err, p.1)
      | inr was_marked ↦
          let rest = batch now (if not was_marked then true else stale) events in
          (rest.0, p.1 ++ rest.1)
    ]

-- One round of the loop of `RunOnce`.
pub record Round : Type 0 where
  pub ctx_err : Option Failure
  pub listing : Failure ⊎ List (Event × Answers)

pub data Ending : Type 0 where
  returned : Option Failure → Ending
  running : Ending

unfoldable pub rounds_from : Config → Time → List Round → Ending × List Call
unfolding batch
rounds_from config now [] = (running, [])
rounds_from config now (r ∷ rounds) =
    let rest = rounds_from config now rounds in
    elim r.ctx_err [
      | some err ↦ (returned (some err), [])
      | none ↦ elim r.listing [
        | inl err ↦ (returned (some err), listed now config.batch_size (inl err) ∷ [])
        | inr events ↦
            let b = batch now false events in
            let l = listed now config.batch_size (inr (map (λ e. e.0) events)) in
            if length events == 0 then (returned none, l ∷ []) else elim b.0 [
              | inl err ↦ (returned (some err), l ∷ b.1)
              | inr stale ↦
                  if not (leb_ℤ config.batch_size (pos (length events))) && not stale
                  then (returned none, l ∷ b.1)
                  else (rest.0, l ∷ b.1 ++ rest.1)
            ]
      ]
    ]

-- The metrics of the deferred function.
unfoldable pub observe : Ending → List Call
observe running = []
observe (returned none) = observed true ∷ []
observe (returned (some err)) = if is_canceled err then [] else observed false ∷ []

-- `cutoff` is `now.AddDate(-RetentionYears, 0, 0)`, `deletion` what DeleteEventsBefore answers.
unfoldable pub cycle :
    Config
    → Time
    → (cutoff : Time) → Option Failure
    → Option Failure
    → List Round
    → Ending × List Call
unfolding rounds_from
cycle config now cutoff ctx_err deletion rounds = elim ctx_err [
  | some err ↦ (returned (some err), [])
  | none ↦ elim deletion [
    | some err ↦ (returned (some err), deleted_before cutoff (some err) ∷ [])
    | none ↦
        let rest = rounds_from config now rounds in (rest.0, deleted_before cutoff none ∷ rest.1)
  ]
]

unfoldable pub run_once :
    Config
    → Time
    → (cutoff : Time) → Option Failure
    → Option Failure
    → List Round
    → Ending × List Call
unfolding cycle observe
run_once config now cutoff ctx_err deletion rounds =
    let c = cycle config now cutoff ctx_err deletion rounds in (c.0, c.1 ++ observe c.0)
