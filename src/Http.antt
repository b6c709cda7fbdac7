-- ===== src/Http.antt =====
-- hw12_13_14_15_16_calendar/internal/server/http: the handlers of handler.go and the status writer of
-- middleware.go; AccessLog and Metrics are about the rest of that file. The decoders of JSON, media types and dates, and the application, are what they
-- answer; a nil application is `none`. A body is its data; the texts of its messages are left out.
pub mod AccessLog
pub mod Metrics
pub mod Requests
pub mod Writer
mod Tests
use golang_hw.Calendar.Event.{
  Time, Duration, Error, event_already_exists, event_not_found, date_busy, invalid_event, Event,
  validate_event,
}
use golang_hw.Prelude.Int.{ℤ, pos, negsuc, ltb_ℤ}
use golang_hw.Prelude.{
  ℕ, ◌+◌, ◌-◌, ◌*◌, ◌/◌, ◌%◌, Bool, true, false, not, ◌&&◌, ◌||◌, Option, none, some, List, [], ◌∷◌,
  ◌++◌, ◌⊎◌, inl, inr, ltb, ◌==◌, if◌then◌else◌, Text, codes, text_eq, is_blank, map,
}

abbrev pub second : ℕ
second = 1000000000

abbrev pub max_int64 : ℕ
max_int64 = 0x7fffffffffffffff

-- The signed value of a 64-bit word.
unfoldable pub signed : ℕ → ℤ
signed w = if ltb max_int64 w then negsuc (0xffffffffffffffff - w) else pos w

-- `time.Duration(seconds) * time.Second` for `seconds` of at least 0: it wraps around.
abbrev pub times_second : ℕ → Duration
times_second s = signed (s * second % 0x10000000000000000)

unfoldable pub notification_duration : Option ℤ → Error ⊎ Duration
unfolding signed
notification_duration none = inr (pos 0)
notification_duration (some (negsuc n)) = inl invalid_event
notification_duration (some (pos s)) =
    if ltb (max_int64 / second) s then inl invalid_event else inr (times_second s)

-- `event.NotifyBefore / time.Second`, which rounds to 0.
abbrev pub to_seconds : Duration → ℤ
to_seconds (pos n) = pos (n / second)
to_seconds (negsuc n) = let q = (n + 1) / second in if q == 0 then pos 0 else negsuc (q - 1)

-- The fields of the create and update requests; the update takes its ID from the path.
pub record Request : Type 0 where
  pub id : Text
  pub title : Text
  pub start_at : Time
  pub end_at : Time
  pub description : Option Text
  pub user_id : Text
  pub notify_before_seconds : Option ℤ

abbrev pub event_of : Request → Duration → Event
event_of r notify_before = record {
  id = r.id;
  title = r.title;
  start_at = r.start_at;
  end_at = r.end_at;
  description = elim r.description [ none ↦ [] | some d ↦ d ];
  user_id = r.user_id;
  notify_before = notify_before;
}

unfoldable pub new_storage_event : Request → Error ⊎ Event
unfolding notification_duration
new_storage_event r = elim (notification_duration r.notify_before_seconds) [
  | inl err ↦ inl err
  | inr notify_before ↦
      if validate_event (event_of r notify_before)
      then inr (event_of r notify_before)
      else inl invalid_event
]

pub record EventBody : Type 0 where
  pub description : Text
  pub end_at : Time
  pub id : Text
  pub notify_before_seconds : ℤ
  pub start_at : Time
  pub title : Text
  pub user_id : Text

unfoldable pub event_response : Event → EventBody
event_response e = record {
  description = e.description;
  end_at = e.end_at;
  id = e.id;
  notify_before_seconds = to_seconds e.notify_before;
  start_at = e.start_at;
  title = e.title;
  user_id = e.user_id;
}

pub data Body : Type 0 where
  no_body : Body
  error_body : (code : Text) → Body
  event_body : EventBody → Body
  events_body : List EventBody → Body

-- The status and the body.
abbrev pub Response : Type 0
Response = ℕ × Body

unfoldable pub write_application_error : Error → Response
write_application_error invalid_event = (400, error_body (codes "invalid_event"))
write_application_error event_not_found = (404, error_body (codes "event_not_found"))
write_application_error event_already_exists = (409, error_body (codes "event_already_exists"))
write_application_error date_busy = (409, error_body (codes "date_busy"))
write_application_error _ = (500, error_body (codes "internal_error"))

abbrev pub not_configured : Response
not_configured = (500, error_body (codes "internal_error"))

-- What `decodeJSON` finds.
pub data Decoded : Type 0 where
  unsupported_media_type : Decoded
  malformed : Decoded
  request : Request → Decoded

pub record Application : Type 0 where
  pub create : Event → Option Error
  pub update : Event → Option Error
  pub delete : Text → Option Error

-- What both handlers do with a request: the application's method, and the status of success.
unfoldable pub handle_event :
    (method : Application → Event → Option Error) → ℕ → Option Application → Decoded → Response
handle_event method success app unsupported_media_type =
    (415, error_body (codes "unsupported_media_type"))
handle_event method success app malformed = (400, error_body (codes "invalid_request"))
handle_event method success app (request r) = elim (new_storage_event r) [
  | inl err ↦ write_application_error err
  | inr event ↦ elim app [
    | none ↦ not_configured
    | some a ↦ elim (method a event) [
      | some err ↦ write_application_error err
      | none ↦ (success, event_body (event_response event))
    ]
  ]
]

unfoldable pub create_event : Option Application → Decoded → Response
unfolding handle_event
create_event app decoded = handle_event (λ a. a.create) 201 app decoded

unfoldable pub update_event : Option Application → Decoded → Response
unfolding handle_event
update_event app decoded = handle_event (λ a. a.update) 200 app decoded

unfoldable pub delete_event : Option Application → Text → Response
unfolding write_application_error
delete_event none id = not_configured
delete_event (some app) id = elim (app.delete id) [
  | some err ↦ write_application_error err
  | none ↦ (204, no_body)
]

-- `date` is the parsed date, where it parses; `list` is the method of the application.
unfoldable pub list_events :
    Option (Text → Time → Error ⊎ List Event) → Text → (date : Option Time) → Response
unfolding event_response write_application_error
list_events none user_id date = not_configured
list_events (some list) user_id none = (400, error_body (codes "invalid_request"))
list_events (some list) user_id (some date) =
    if is_blank user_id then write_application_error invalid_event else elim (list user_id date) [
      | inl err ↦ write_application_error err
      | inr events ↦ (200, events_body (map event_response events))
    ]

-- The `statusWriter` of middleware.go, with what it has passed on: statuses and bodies.
pub data Passed : Type 0 where
  header : ℕ → Passed
  body : Passed

pub record StatusWriter : Type 0 where
  pub status : ℕ
  pub passed : List Passed

unfoldable pub write_header : ℕ → StatusWriter → StatusWriter
write_header status w =
    if not (w.status == 0)
    then w
    else record { status = status; passed = w.passed ++ header status ∷ [] }

unfoldable pub write : StatusWriter → StatusWriter
unfolding write_header
write w =
    let w' = if w.status == 0 then write_header 200 w else w in
    record w' { passed = w'.passed ++ body ∷ [] }

unfoldable pub status_code : StatusWriter → ℕ
status_code w = if w.status == 0 then 200 else w.status

-- The calls of a handler, in order: `some status` for WriteHeader, `none` for Write.
unfoldable pub serve : List (Option ℕ) → StatusWriter → StatusWriter
unfolding write_header write
serve [] w = w
serve (none ∷ calls) w = serve calls (write w)
serve (some status ∷ calls) w = serve calls (write_header status w)
