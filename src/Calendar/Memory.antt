-- ===== src/Calendar/Memory.antt =====
-- internal/storage/memory/storage.go. The map is a list of keys with their events, and a method that
-- changes the storage returns it beside its error. A method holds the lock while it reads or writes
-- the map, so it is one step. A context is the answers of `ctx.Err()`, in the order of the calls.
pub mod Invariant
pub mod Methods
pub mod Listing
mod Tests
use golang_hw.Calendar.Event.{
  Time, Error, event_already_exists, event_not_found, date_busy, invalid_event, Event, time_before,
  is_zero, validate_event, intervals_overlap,
}
use golang_hw.Prelude.TextOrder.{text_ltb}
use golang_hw.Prelude.Sort.{sort_slice}
use golang_hw.Prelude.{
  ℕ, zero, suc, ◌+◌, Bool, true, false, not, ◌&&◌, ◌||◌, Option, none, some, List, [], ◌∷◌, ◌++◌,
  if◌then◌else◌, Text, text_eq, is_blank,
}

abbrev pub Context : Type 0
Context = ℕ → Option Error

abbrev pub Storage : Type 0
Storage = List (Text × Event)

abbrev pub Outcome : Type 0
Outcome = Option Error × Storage

abbrev pub empty : Storage
empty = []

-- `s.events[id]`
unfoldable pub lookup : Text → Storage → Option Event
lookup id [] = none
lookup id ((k, e) ∷ s) = if text_eq k id then some e else lookup id s

-- `s.events[id] = event`
unfoldable pub assign : Text → Event → Storage → Storage
assign id event [] = (id, event) ∷ []
assign id event ((k, e) ∷ s) = if text_eq k id then (k, event) ∷ s else (k, e) ∷ assign id event s

-- `delete(s.events, id)`
unfoldable pub erase : Text → Storage → Storage
erase id [] = []
erase id ((k, e) ∷ s) = if text_eq k id then s else (k, e) ∷ erase id s

unfoldable pub date_busy_for : Event → Text → Storage → Bool
date_busy_for candidate excluded_id [] = false
date_busy_for candidate excluded_id ((id, event) ∷ s) =
    let rest = date_busy_for candidate excluded_id s in
    if text_eq id excluded_id || not (text_eq event.user_id candidate.user_id)
    then rest
    else if intervals_overlap event.start_at event.end_at candidate.start_at candidate.end_at
    then true
    else rest

abbrev pub is_some : {A : Type 0} → Option A → Bool
is_some none = false
is_some (some a) = true

-- `return err` if the context or the test gives an error, else the rest.
abbrev pub check : Option Error → Storage → Outcome → Outcome
check none s rest = rest
check (some e) s rest = (some e, s)

abbrev pub check_that : Bool → Error → Storage → Outcome → Outcome
check_that good e s rest = if good then rest else (some e, s)

unfoldable pub create_event : Context → Event → Storage → Outcome
create_event ctx event s = check (ctx 0) s (
    check_that (validate_event event) invalid_event s (
      check (ctx 1) s (
        check_that (not (is_some (lookup event.id s))) event_already_exists s (
          check_that (not (date_busy_for event [] s)) date_busy s
            (none, assign event.id event s)))))

unfoldable pub update_event : Context → Event → Storage → Outcome
update_event ctx event s = check (ctx 0) s (
    check_that (validate_event event) invalid_event s (
      check (ctx 1) s (
        check_that (is_some (lookup event.id s)) event_not_found s (
          check_that (not (date_busy_for event event.id s)) date_busy s
            (none, assign event.id event s)))))

unfoldable pub delete_event : Context → Text → Storage → Outcome
delete_event ctx id s = check (ctx 0) s (
    check_that (not (is_blank id)) invalid_event s
      (check (ctx 1) s (check_that (is_some (lookup id s)) event_not_found s (none, erase id s))))

pub data Listed : Type 0 where
  listed : List Event → Listed
  failed : Error → Listed

-- The range loop of `ListEvents`: the context is asked before each event, from call `n` on.
unfoldable pub collect : Context → ℕ → Text → Time → Time → List Event → Storage → Listed
collect ctx n user_id from to events [] = elim (ctx n) [ none ↦ listed events | some e ↦ failed e ]
collect ctx n user_id from to events ((k, event) ∷ s) = elim (ctx n) [
  | none ↦
      collect ctx (n + 1) user_id from to
        (if text_eq event.user_id user_id && intervals_overlap event.start_at event.end_at from to
          then events ++ event ∷ []
          else events)
        s
  | some e ↦ failed e
]

-- The comparison of `sort.Slice`: by the start, then by the ID.
unfoldable pub starts_before : Event → Event → Bool
starts_before a b =
    if not (time_before a.start_at b.start_at) && not (time_before b.start_at a.start_at)
    then text_ltb a.id b.id
    else time_before a.start_at b.start_at

-- The context is asked again behind the sort: that call is the last of `collect`, since sorting
-- asks nothing.
unfoldable pub list_events : Context → Text → Time → Time → Storage → Listed
list_events ctx user_id from to s = elim (ctx 0) [
  | some e ↦ failed e
  | none ↦
      if is_blank user_id || is_zero from || is_zero to || not (time_before from to)
      then failed invalid_event
      else elim (collect ctx 1 user_id from to [] s) [
        | failed e ↦ failed e
        | listed events ↦ listed (sort_slice starts_before events)
      ]
]
