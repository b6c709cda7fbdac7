-- ===== src/Calendar/Memory/Tests.antt =====
-- Two meetings of one user, one after the other.
use golang_hw.Calendar.Event.{Event, date_busy, event_already_exists, validate_event}
use golang_hw.Calendar.Memory.Invariant.{IsValid, Fits, clash}
use golang_hw.Calendar.Memory.Listing.{IsListing, list_events-IsListing}
use golang_hw.Calendar.Memory.Methods.{
  Sets, is_live, create, perform_all, perform_all-IsValid, create_event_lem, update_event_lem,
}
use golang_hw.Calendar.Memory.{
  Context, Storage, empty, listed, lookup, assign, erase, date_busy_for, is_some, create_event,
  update_event, delete_event, collect, list_events, starts_before,
}
use golang_hw.Prelude.Int.{pos}
use golang_hw.Prelude.Sort.{sort_slice}
use golang_hw.Prelude.TextOrder.{text_ltb}
use golang_hw.Prelude.{
  ◌≡◌, ◌↔◌, refl, true, false, none, some, [], ◌∷◌, codes, text_eq, is_blank, All,
}

program : Unit {0}
unfolding validate_event lookup assign erase date_busy_for create_event update_event delete_event
    collect list_events starts_before sort_slice text_ltb text_eq is_blank
program = tt

abbrev live : Context
live n = none

abbrev meeting : Event
meeting = record {
  id = codes "a";
  title = codes "standup";
  start_at = pos 10;
  end_at = pos 20;
  description = [];
  user_id = codes "ann";
  notify_before = pos 0;
}

abbrev next : Event
next = record meeting { id = codes "b"; start_at = pos 20; end_at = pos 30 }

abbrev overlapping : Event
overlapping = record meeting { id = codes "c"; start_at = pos 19 }

abbrev one : Storage
one = (codes "a", meeting) ∷ []

adjacent : create_event live next one ≡ (none, (codes "a", meeting) ∷ (codes "b", next) ∷ [])
unfolding program
adjacent = refl

busy : create_event live overlapping one ≡ (some date_busy, one)
unfolding program
busy = refl

taken : create_event live meeting one ≡ (some event_already_exists, one)
unfolding program
taken = refl

shifted :
    update_event live (record meeting { start_at = pos 15 }) one
    ≡ (none, (codes "a", record meeting { start_at = pos 15 }) ∷ [])
unfolding program
shifted = refl

in_order :
    list_events live (codes "ann") (pos 5) (pos 25) ((codes "b", next) ∷ one)
    ≡ listed (meeting ∷ next ∷ [])
unfolding program
in_order = refl

one-IsValid : IsValid one
unfolding program
one-IsValid = record { entries = ((refl, refl), tt); distinct = (tt, tt); apart = (tt, tt) }

create_event_lem_example :
    (((create_event live next one).0 ≡ none) ↔ (
      (is_live live ≡ true)
      × (validate_event next ≡ true)
      × (lookup next.id one ≡ none)
      × All (λ p. clash p.1 next ≡ false) one))
    × Sets (create_event live next one) one next.id (some next)
    × IsValid (create_event live next one).1
create_event_lem_example = create_event_lem live one one-IsValid next

update_event_lem_example :
    (((update_event live meeting one).0 ≡ none) ↔ (
      (is_live live ≡ true)
      × (validate_event meeting ≡ true)
      × (is_some (lookup meeting.id one) ≡ true)
      × Fits meeting meeting.id one))
    × Sets (update_event live meeting one) one meeting.id (some meeting)
    × IsValid (update_event live meeting one).1
update_event_lem_example = update_event_lem live one one-IsValid meeting

perform_all-IsValid_example :
    IsValid
      (perform_all (create live meeting ∷ create live overlapping ∷ create live next ∷ []) empty)
perform_all-IsValid_example =
    perform_all-IsValid (create live meeting ∷ create live overlapping ∷ create live next ∷ [])

list_events-IsListing_example : IsListing live (codes "ann") (pos 5) (pos 25) one (meeting ∷ [])
unfolding program
list_events-IsListing_example =
    list_events-IsListing live (codes "ann") (pos 5) (pos 25) one (meeting ∷ []) refl
