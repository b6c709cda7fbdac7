-- ===== src/Scheduler/Publication.antt =====
-- A cycle of internal/scheduler/scheduler.go marks what it has sent, and ends when nothing is due.
use golang_hw.Calendar.Event.{Time, Event}
use golang_hw.Notification.{Notification, validate, Failure, is_canceled}
use golang_hw.Scheduler.{
  Config, Call, deleted_before, listed, sent, marked, published, observed, Answers, notification_of,
  publish, batch, Round, Ending, returned, running, rounds_from, observe, cycle, run_once,
}
use golang_hw.Prelude.Int.{pos, leb_ℤ}
use golang_hw.Prelude.{
  outcome-cases, Bool, true, false, not, ◌&&◌, Option, none, some, List, [], ◌∷◌, ◌++◌, ◌≡◌, inl,
  inr, ◌==◌, if◌then◌else◌, length, refl, Option-cases, Bool-cases, Text,
}

-- Every mark stands right behind a send of the notification of its event that the producer has answered
-- without an error, and its metric; `last` is the notification that the calls before have so sent.
unfoldable pub Marks : Option (Text × Notification) → List Call → Type 0
Marks last [] = Unit
Marks last (deleted_before t r ∷ calls) = Marks none calls
Marks last (listed t n r ∷ calls) = Marks none calls
Marks last (observed ok ∷ calls) = Marks none calls
Marks last (sent key n none ∷ calls) = Marks (some (key, n)) calls
Marks last (sent key n (some err) ∷ calls) = Marks none calls
Marks last (published ok ∷ calls) = Marks (if ok then last else none) calls
Marks last (marked event t r ∷ calls) =
    (last ≡ some (event.id, notification_of event)) × Marks none calls

Marks-append :
    (last : Option (Text × Notification)) (l k : List Call)
    → Marks last l
    → ((o : Option (Text × Notification)) → Marks o k)
    → Marks last (l ++ k)
unfolding Marks
Marks-append last [] k h f = f last
Marks-append last (deleted_before t r ∷ l) k h f = Marks-append none l k h f
Marks-append last (listed t n r ∷ l) k h f = Marks-append none l k h f
Marks-append last (observed ok ∷ l) k h f = Marks-append none l k h f
Marks-append last (sent key n none ∷ l) k h f = Marks-append (some (key, n)) l k h f
Marks-append last (sent key n (some err) ∷ l) k h f = Marks-append none l k h f
Marks-append last (published ok ∷ l) k h f = Marks-append (if ok then last else none) l k h f
Marks-append last (marked event t r ∷ l) k (p, h) f = (p, Marks-append none l k h f)

publish-Marks :
    (event : Event) (now : Time) (a : Answers) (o : Option (Text × Notification))
    → Marks o (publish event now a).1
unfolding publish Marks
publish-Marks event now a o = elim (Option-cases (validate (notification_of event))) [
  | inr (e, p) ↦ rw (p) tt
  | inl p ↦ elim (Option-cases a.marshal) [
    | inr (e, q) ↦ rw (p, q) tt
    | inl q ↦ elim (Option-cases a.send) [
      | inl t ↦ rw (p, q, t) (refl, tt)
      | inr (e, t) ↦ elim (Bool-cases (is_canceled e)) [
        | inl c ↦ rw (p, q, t, c) tt
        | inr c ↦ rw (p, q, t, c) tt
      ]
    ]
  ]
]

batch-Marks :
    (now : Time) (stale : Bool) (events : List (Event × Answers)) (o : Option (Text × Notification))
    → Marks o (batch now stale events).1
unfolding batch Marks publish
batch-Marks now stale [] o = tt
batch-Marks now stale ((event, a) ∷ events) o = elim (outcome-cases (publish event now a).0) [
  | inl (e, p) ↦ rw (p) (publish-Marks event now a o)
  | inr (m, p) ↦ rw (p) (
      Marks-append o (publish event now a).1 (batch now (if not m then true else stale) events).1
        (publish-Marks event now a o) (batch-Marks now (if not m then true else stale) events))
]

rounds_from-Marks :
    (config : Config) (now : Time) (rounds : List Round) (o : Option (Text × Notification))
    → Marks o (rounds_from config now rounds).1
unfolding rounds_from batch Marks
rounds_from-Marks config now [] o = tt
rounds_from-Marks config now (r ∷ rounds) o = elim (Option-cases r.ctx_err) [
  | inr (e, p) ↦ rw (p) tt
  | inl p ↦ elim (outcome-cases r.listing) [
    | inl (e, q) ↦ rw (p, q) tt
    | inr (events, q) ↦ elim (Bool-cases (length events == 0)) [
      | inl z ↦ rw (p, q, z) tt
      | inr z ↦ elim (outcome-cases (batch now false events).0) [
        | inl (e, t) ↦ rw (p, q, z, t) (batch-Marks now false events none)
        | inr (stale, t) ↦
            elim (Bool-cases (not (leb_ℤ config.batch_size (pos (length events))) && not stale)) [
              | inl c ↦ rw (p, q, z, t, c) (batch-Marks now false events none)
              | inr c ↦
                  rw (p, q, z, t, c)
                    (Marks-append none (batch now false events).1 (rounds_from config now rounds).1
                      (batch-Marks now false events none) (rounds_from-Marks config now rounds))
            ]
      ]
    ]
  ]
]

observe-Marks : (e : Ending) (o : Option (Text × Notification)) → Marks o (observe e)
unfolding observe Marks
observe-Marks running o = tt
observe-Marks (returned none) o = tt
observe-Marks (returned (some err)) o = elim (Bool-cases (is_canceled err)) [
  | inl c ↦ rw (c) tt
  | inr c ↦ rw (c) tt
]

-- Whatever the storage, the producer and the context answer, every mark of a cycle stands right
-- behind a send of the notification of the same event, under the event's ID, that the producer has
-- answered without an error; between them stand only metrics of a success.
pub run_once-Marks :
    (config : Config) (now cutoff : Time) (ctx_err deletion : Option Failure) (rounds : List Round)
    → Marks none (run_once config now cutoff ctx_err deletion rounds).1
unfolding run_once cycle Marks
run_once-Marks config now cutoff (some err) deletion rounds =
    observe-Marks (returned (some err)) none
run_once-Marks config now cutoff none (some err) rounds = observe-Marks (returned (some err)) none
run_once-Marks config now cutoff none none rounds =
    Marks-append none (rounds_from config now rounds).1 (observe (rounds_from config now rounds).0)
      (rounds_from-Marks config now rounds none) (observe-Marks (rounds_from config now rounds).0)
