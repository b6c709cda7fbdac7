-- ===== src/Scheduler/Tests.antt =====
-- A cycle that publishes one due event of a batch of two, and one over a table of two due events.
use golang_hw.Calendar.Event.{Event, Time, validate_event}
use golang_hw.Notification.{Failure, validate}
use golang_hw.Prelude.Int.{pos, leb_ℤ, pos_part}
use golang_hw.Prelude.TextOrder.{text_ltb}
use golang_hw.Prelude.Sort.{sort_slice}
use golang_hw.Prelude.{
  ap, none, map, ◌+◌, length, Bool, All, subst, sym, text_eq, text_mem, arith, List, [], ◌∷◌, ◌≡◌,
  refl, inr, true, codes, is_blank, is_space, Option,
}
use golang_hw.Scheduler.Drain.SqlStore.{Rows, sql_store, sql_store-IsLawful}
use golang_hw.Scheduler.Drain.{IsPublishable, LeavesNothing, message, sends}
use golang_hw.Sql.Table.Good.{Good}
use golang_hw.Sql.Table.{Row, before, is_pending, pending, due as due_events}
use golang_hw.Scheduler.Drain.Rounds.{run_once-Drains}
use golang_hw.Scheduler.Completion.{Finishes, run_once-Finishes}
use golang_hw.Scheduler.Publication.{Marks, run_once-Marks}
use golang_hw.Scheduler.{
  Config, Round, returned, run_once, cycle, rounds_from, batch, publish, observe, notification_of,
}

program : Unit {0}
unfolding run_once cycle rounds_from batch publish observe notification_of validate is_blank
    is_space
program = tt

abbrev no_error : Option Failure
no_error = none

abbrev due : Event
due = record {
  id = codes "e1";
  title = codes "Call";
  start_at = pos 500;
  end_at = pos 600;
  description = [];
  user_id = codes "u1";
  notify_before = pos 100;
}

abbrev config : Config
config = record { interval = pos 60; batch_size = pos 2; retention_years = pos 1 }

abbrev rounds : List Round
rounds =
    record {
      ctx_err = none;
      listing = inr ((due, record { marshal = none; send = none; mark = inr true }) ∷ []);
    }
    ∷ []

run_once-Marks_example : Marks none (run_once config (pos 450) (pos 9) none none rounds).1
run_once-Marks_example = run_once-Marks config (pos 450) (pos 9) none none rounds

run_once-Finishes_example : (no_error ≡ none) × (no_error ≡ none) × Finishes (pos 2) rounds
unfolding program
run_once-Finishes_example = run_once-Finishes config (pos 450) (pos 9) none none rounds refl

publishable : IsPublishable due
unfolding program IsPublishable
publishable = refl

abbrev later : Event
later = record {
  id = codes "e2";
  title = codes "Lunch";
  start_at = pos 480;
  end_at = pos 700;
  description = [];
  user_id = codes "u1";
  notify_before = pos 100;
}

later-IsPublishable : IsPublishable later
unfolding program IsPublishable
later-IsPublishable = refl

-- A database that reads the interval of the query to the nanosecond, and sorts IDs by their bytes.
abbrev reached : Time → Event → Bool
reached now e = leb_ℤ e.start_at (pos (pos_part now + pos_part e.notify_before))

abbrev first : Row
first = record { event = due; notification_sent_at = none }

abbrev second : Row
second = record { event = later; notification_sent_at = none }

valid : (validate_event due ≡ true) × (validate_event later ≡ true)
unfolding program validate_event
valid = (refl, refl)

good : Good (first ∷ second ∷ [])
unfolding text_mem text_eq
good = ((refl, (refl, tt)), (valid.0, (valid.1, tt)))

abbrev table : Rows
table = (first ∷ second ∷ [], good)

-- Both events of the table are due, the one that starts first in front.
both : due_events reached text_ltb (pos 450) (first ∷ second ∷ []) ≡ later ∷ due ∷ []
unfolding due_events pending is_pending before sort_slice text_ltb
both = refl

run_once-Drains_example :
    (rounds : List Round) × ((run_once config (pos 450) (pos 9) none none rounds).0 ≡ returned none)
    × (sends (run_once config (pos 450) (pos 9) none none rounds).1
        ≡ map message (due_events reached text_ltb (pos 450) (first ∷ second ∷ [])))
    × LeavesNothing
        (sql_store reached text_ltb)
        (pos 450)
        table
        (run_once config (pos 450) (pos 9) none none rounds).1
    × (length rounds ≡ 3)
run_once-Drains_example =
    run_once-Drains (sql_store reached text_ltb) (sql_store-IsLawful reached text_ltb) (pos 450)
      refl config (pos 9) 1 3 table refl refl refl (omega (arith, ap length both))
      (subst (All IsPublishable) (sym both) (later-IsPublishable, (publishable, tt)))
