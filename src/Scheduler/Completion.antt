-- ===== src/Scheduler/Completion.antt =====
-- When a cycle of internal/scheduler/scheduler.go returns nil.
use golang_hw.Calendar.Event.{Time, Event}
use golang_hw.Notification.{validate, Failure}
use golang_hw.Scheduler.{
  Config, Answers, notification_of, publish, batch, Round, returned, rounds_from, cycle, run_once,
}
use golang_hw.Prelude.Int.{ℤ, pos, leb_ℤ, ltb_ℤ}
use golang_hw.Prelude.{
  outcome-cases, Bool, true, false, Option, none, some, List, [], ◌∷◌, ◌≡◌, ◌⊎◌, inl, inr, length,
  arith, refl, Bool-cases,
}

-- The event's notification is valid and sent, and the storage answers its mark by `ok`.
unfoldable pub Published : Bool → Event × Answers → Type 0
Published ok (event, a) =
    (validate (notification_of event) ≡ none)
    × (a.marshal ≡ none)
    × (a.send ≡ none)
    × (a.mark ≡ inr ok)

-- Each event is published; `stale` says whether some mark was refused, or was before.
unfoldable pub AllPublished : (before stale : Bool) → List (Event × Answers) → Type 0
AllPublished before stale [] = before ≡ stale
AllPublished before stale (e ∷ events) =
    (Published true e × AllPublished before stale events)
    ⊎ (Published false e × AllPublished true stale events)

-- Under a live context, round after round publishes all that the storage lists, until it lists
-- nothing, or less than a batch with no mark refused.
unfoldable pub Finishes : ℤ → List Round → Type 0
Finishes batch_size [] = ⊥
Finishes batch_size (r ∷ rounds) =
    (r.ctx_err ≡ none)
    × ((r.listing ≡ inr [])
        ⊎ ((events : List (Event × Answers)) × (r.listing ≡ inr events)
            × ((ltb_ℤ (pos (length events)) batch_size ≡ true) × AllPublished false false events
                ⊎ ((stale : Bool) × AllPublished false stale events × Finishes batch_size rounds))))

publish_to :
    (event : Event) (now : Time) (a : Answers) (ok : Bool)
    → (publish event now a).0 ≡ inr ok
    → Published ok (event, a)
unfolding publish Published
publish_to event now a ok h = (ground arith, ground arith, ground arith, ground arith)

batch_to :
    (now : Time) (before stale : Bool) (events : List (Event × Answers))
    → (batch now before events).0 ≡ inr stale
    → AllPublished before stale events
unfolding batch AllPublished
batch_to now before stale [] h = ground arith
batch_to now before stale ((event, a) ∷ events) h = elim (outcome-cases (publish event now a).0) [
  | inl (e, p) ↦ absurd (ground arith)
  | inr (true, p) ↦
      inl (publish_to event now a true p, batch_to now before stale events (ground arith))
  | inr (false, p) ↦
      inr (publish_to event now a false p, batch_to now true stale events (ground arith))
]

rounds_to :
    (config : Config) (now : Time) (rounds : List Round)
    → (rounds_from config now rounds).0 ≡ returned none
    → Finishes config.batch_size rounds
unfolding rounds_from Finishes
rounds_to config now [] h = absurd (ground arith)
rounds_to config now (r ∷ rounds) h = elim (outcome-cases r.listing) [
  | inl (e, q) ↦ absurd (ground arith)
  | inr ([], q) ↦ (ground arith, inl q)
  | inr (e ∷ events, q) ↦ elim (outcome-cases (batch now false (e ∷ events)).0) [
    | inl (err, t) ↦ absurd (ground arith)
    | inr (true, t) ↦ (
      ground arith,
      inr (
        e ∷ events,
        q,
        inr (
          true,
          batch_to now false true (e ∷ events) t,
          rounds_to config now rounds (ground arith),
        ),
      ),
    )
    | inr (false, t) ↦ elim (Bool-cases (leb_ℤ config.batch_size (pos (length (e ∷ events))))) [
      | inl c ↦ (
        ground arith,
        inr (
          e ∷ events,
          q,
          inr (
            false,
            batch_to now false false (e ∷ events) t,
            rounds_to config now rounds (ground arith),
          ),
        ),
      )
      | inr c ↦ (
        ground arith,
        inr (e ∷ events, q, inl ((ground arith), batch_to now false false (e ∷ events) t)),
      )
    ]
  ]
]

-- `RunOnce` returns nil only when the context was live and the old events were deleted, and in each
-- round, under a live context, every listed event was valid, sent, and marked or its mark refused;
-- the rounds went on until the storage listed nothing, or less than a batch with no mark refused.
pub run_once-Finishes :
    (config : Config) (now cutoff : Time) (ctx_err deletion : Option Failure) (rounds : List Round)
    → (run_once config now cutoff ctx_err deletion rounds).0 ≡ returned none
    → (ctx_err ≡ none) × (deletion ≡ none) × Finishes config.batch_size rounds
unfolding run_once cycle
run_once-Finishes config now cutoff (some err) deletion rounds h = absurd (ground arith)
run_once-Finishes config now cutoff none (some err) rounds h = absurd (ground arith)
run_once-Finishes config now cutoff none none rounds h = (refl, refl, rounds_to config now rounds h)
