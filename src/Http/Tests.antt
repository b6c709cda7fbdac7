-- ===== src/Http/Tests.antt =====
-- A request with a reminder of 90 seconds, and a handler that writes two statuses.
use golang_hw.Calendar.Event.{Event, validate_event}
use golang_hw.Http.AccessLog.{HttpRequest, IsOneLine, log_message, log_message-IsOneLine}
use golang_hw.Http.Metrics.{event_operation}
use golang_hw.Http.Requests.{requested, new_storage_event_round_trip}
use golang_hw.Http.Writer.{statuses, fresh, IsStatus, serve-status_code}
use golang_hw.Http.{
  Request, Application, event_of, new_storage_event, notification_duration, signed, event_response,
  serve, status_code,
}
use golang_hw.Prelude.Int.{pos}
use golang_hw.Prelude.{
  ℕ, Option, none, some, List, [], ◌∷◌, ◌≡◌, ◌≢◌, text_eq, ◌⊎◌, true, refl, codes, is_blank,
  is_space, arith,
}

program : Unit {0}
unfolding new_storage_event notification_duration signed validate_event is_blank is_space IsStatus
program = tt

abbrev asked : Request
asked = record {
  id = codes "e1";
  title = codes "Call";
  start_at = pos 500;
  end_at = pos 600;
  description = none;
  user_id = codes "u1";
  notify_before_seconds = some (pos 90);
}

abbrev made : Event
made = event_of asked (pos 90000000000)

abbrev application : Application
application = record { create = λ e. none; update = λ e. none; delete = λ id. none }

new_storage_event_round_trip_example :
    (validate_event made ≡ true)
    × ((event_response made).notify_before_seconds ≡ requested asked.notify_before_seconds)
    × ((event_response made).id ≡ asked.id)
unfolding program
new_storage_event_round_trip_example = new_storage_event_round_trip asked made refl

abbrev calls : List (Option ℕ)
calls = some 404 ∷ none ∷ some 200 ∷ []

serve-status_code_example :
    (statuses (serve calls fresh).passed ≡ [])
    ⊎ (statuses (serve calls fresh).passed ≡ status_code (serve calls fresh) ∷ [])
unfolding IsStatus
serve-status_code_example = serve-status_code calls (omega arith, (tt, (omega arith, tt)))

-- A POST of an event counts as one.
counted : event_operation (codes "POST") (codes "/api/v1/events") ≢ none
unfolding event_operation text_eq
counted = λ e. absurd (ground arith)

-- A request line with a forged entry behind it.
abbrev forged : HttpRequest
forged = record {
  remote_addr = codes "10.0.0.1:4242";
  method = codes "GET";
  request_uri = codes "/hello\nGET /forged";
  url_request_uri = [];
  proto = codes "HTTP/1.1";
  user_agent = codes "curl";
}

forged_address : IsOneLine forged.remote_addr
forged_address = (
  refl,
  (
    refl,
    (refl, (refl, (refl, (refl, (refl, (refl, (refl, (refl, (refl, (refl, (refl, tt))))))))))),
  ),
)

log_message-IsOneLine_example : IsOneLine (
    log_message
      (λ s. none)
      (λ s. codes "quoted")
      (λ n. codes "200")
      (codes "now")
      (codes "5ms")
      forged
      fresh)
log_message-IsOneLine_example =
    log_message-IsOneLine (λ s. none) (λ s. codes "quoted") (λ n. codes "200")
      (λ address host e h. absurd (ground arith))
      (λ s. (refl, (refl, (refl, (refl, (refl, (refl, tt))))))) (λ n. (refl, (refl, (refl, tt))))
      (codes "now") (codes "5ms") forged fresh forged_address (refl, (refl, (refl, tt)))
      (refl, (refl, (refl, tt)))
