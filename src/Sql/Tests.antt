-- ===== src/Sql/Tests.antt =====
-- A table with one due event and one that has been notified about, and an answer of one row.
use golang_hw.Calendar.Event.{Time, Event}
use golang_hw.Prelude.Int.{pos, pos_part, leb_ℤ}
use golang_hw.Prelude.{Bool, none, some, List, [], ◌∷◌, ◌+◌, inr, codes, Option}
use golang_hw.Sql.Table.{Row}
use golang_hw.Sql.{DbError, Queried}

abbrev call : Event
call = record {
  id = codes "e1";
  title = codes "Call";
  start_at = pos 500;
  end_at = pos 600;
  description = [];
  user_id = codes "u1";
  notify_before = pos 100;
}

abbrev lunch : Event
lunch = record {
  id = codes "e2";
  title = codes "Lunch";
  start_at = pos 480;
  end_at = pos 700;
  description = [];
  user_id = codes "u1";
  notify_before = pos 100;
}

abbrev reached : Time → Event → Bool
reached now e = leb_ℤ e.start_at (pos (pos_part now + pos_part e.notify_before))

abbrev table : List Row
table =
    record { event = call; notification_sent_at = none }
    ∷ record { event = lunch; notification_sent_at = some (pos 440) }
    ∷ []

abbrev no_failure : Option DbError
no_failure = none

abbrev answer : Queried
answer = record { failure = none; rows = inr call ∷ []; rows_err = none }
