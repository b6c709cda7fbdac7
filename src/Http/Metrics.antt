-- ===== src/Http/Metrics.antt =====
-- The labels of the metrics in middleware.go.
use golang_hw.Prelude.{
  ◌&&◌, ◌||◌, Option, none, some, ◌≡◌, ◌≢◌, if◌then◌else◌, Text, codes, text_eq, arith,
}

unfoldable pub metrics_method : Text → Text
metrics_method method =
    if text_eq method (codes "GET")
      || (text_eq method (codes "POST")
          || (text_eq method (codes "PUT") || text_eq method (codes "DELETE")))
    then method
    else codes "OTHER"

-- `none` is the empty operation.
unfoldable pub event_operation : Text → Text → Option Text
event_operation method route =
    if text_eq method (codes "POST") && text_eq route (codes "/api/v1/events")
    then some (codes "create")
    else if text_eq method (codes "PUT") && text_eq route (codes "/api/v1/events/{eventId}")
    then some (codes "update")
    else if text_eq method (codes "DELETE") && text_eq route (codes "/api/v1/events/{eventId}")
    then some (codes "delete")
    else if text_eq method (codes "GET") && text_eq route (codes "/api/v1/events/day")
    then some (codes "list_day")
    else if text_eq method (codes "GET") && text_eq route (codes "/api/v1/events/week")
    then some (codes "list_week")
    else if text_eq method (codes "GET") && text_eq route (codes "/api/v1/events/month")
    then some (codes "list_month")
    else none

-- A request that counts as an operation on events is recorded under its own method.
metrics_method-event_operation :
    (method route : Text) → event_operation method route ≢ none → metrics_method method ≡ method
unfolding metrics_method event_operation
metrics_method-event_operation method route h = ground arith
