-- ===== src/Http/Requests.antt =====
-- The requests of handler.go: their durations do not wrap around, and when an event is created.
use golang_hw.Calendar.Event.{
  event_already_exists, event_not_found, date_busy, canceled, deadline_exceeded, not_connected,
  database, Event, Error, invalid_event, validate_event,
}
use golang_hw.Http.{
  second, max_int64, signed, times_second, notification_duration, to_seconds, Request, event_of,
  new_storage_event, event_response, request, Application, write_application_error, handle_event,
  create_event,
}
use golang_hw.Prelude.Int.{ℤ, pos, negsuc}
use golang_hw.Prelude.{
  Bool-cases, subst, ℕ, ◌*◌, ◌/◌, true, false, Option, none, some, ◌≡◌, ◌↔◌, inl, inr, ltb, arith,
  refl, ap, Option-cases, outcome-cases, ◌∙◌, sym,
}

unfoldable pub requested : Option ℤ → ℤ
requested none = pos 0
requested (some s) = s

times_second_lem : (s : ℕ) → ltb (max_int64 / second) s ≡ false → times_second s ≡ pos (s * second)
unfolding signed
times_second_lem s h = ground arith

seconds-times : (s : ℕ) → s * second / second ≡ s
seconds-times s = omega arith

duration_round_trip :
    (seconds : Option ℤ) (d : ℤ)
    → notification_duration seconds ≡ inr d
    → to_seconds d ≡ requested seconds
unfolding notification_duration requested
duration_round_trip none d h =
    subst (λ x. to_seconds x ≡ pos 0) {x = pos 0} {y = d} (ground arith) refl
duration_round_trip (some (negsuc n)) d h = absurd (ground arith)
duration_round_trip (some (pos s)) d h =
    subst (λ x. to_seconds x ≡ pos s) {y = d}
      (sym (times_second_lem s (ground arith)) ∙ ground arith) (ap pos (seconds-times s))

accepted :
    (r : Request) (d : ℤ) (event : Event)
    → notification_duration r.notify_before_seconds ≡ inr d
    → validate_event (event_of r d) ≡ true
    → new_storage_event r ≡ inr event
    → event_of r d ≡ event
unfolding new_storage_event
accepted r d event p q h = ground arith

not_created : (err : Error) → ((write_application_error err).0 ≡ 201) ↔ (some err ≡ none)
unfolding write_application_error
not_created event_already_exists = ground arith
not_created event_not_found = ground arith
not_created date_busy = ground arith
not_created invalid_event = ground arith
not_created canceled = ground arith
not_created deadline_exceeded = ground arith
not_created not_connected = ground arith
not_created database = ground arith

-- A request that is accepted becomes an event that is valid, and the response of this event gives
-- the seconds of the request back, 0 where it has none: the nanoseconds have not wrapped around.
pub new_storage_event_round_trip :
    (r : Request) (event : Event)
    → new_storage_event r ≡ inr event
    → (validate_event event ≡ true)
      × ((event_response event).notify_before_seconds ≡ requested r.notify_before_seconds)
      × ((event_response event).id ≡ r.id)
unfolding new_storage_event event_response
new_storage_event_round_trip r event h =
    elim (outcome-cases (notification_duration r.notify_before_seconds)) [
      | inl (e, p) ↦ absurd (ground arith)
      | inr (d, p) ↦ elim (Bool-cases (validate_event (event_of r d))) [
        | inr q ↦ absurd (ground arith)
        | inl q ↦
            subst
              (λ x.
                (validate_event x ≡ true)
                × ((event_response x).notify_before_seconds ≡ requested r.notify_before_seconds)
                × ((event_response x).id ≡ r.id))
              (accepted r d event p q h) (q, duration_round_trip r.notify_before_seconds d p, refl)
      ]
    ]

-- The application takes the event.
unfoldable pub Takes : Option Application → Event → Type 0
Takes none event = ⊥
Takes (some a) event = a.create event ≡ none

-- `CreateEvent` answers 201 for a request exactly where the request becomes a valid event that the
-- application takes.
create_event-Takes :
    (app : Option Application) (r : Request) (event : Event)
    → new_storage_event r ≡ inr event
    → ((create_event app (request r)).0 ≡ 201) ↔ Takes app event
unfolding create_event handle_event Takes
create_event-Takes none r event h = rw (h, handle_event) (ground arith)
create_event-Takes (some a) r event h = elim (Option-cases (a.create event)) [
  | inl p ↦ rw (h, p, handle_event) (ground arith)
  | inr (err, p) ↦ rw (h, p, handle_event) (not_created err)
]
