-- ===== src/App/Tests.antt =====
-- A command over a storage that refuses every event.
use golang_hw.App.{Store, error, create_event, perform}
use golang_hw.Calendar.Event.{Event, date_busy}
use golang_hw.Prelude.Int.{pos}
use golang_hw.Prelude.{ℕ, none, some, [], ◌∷◌, ◌≡◌, refl, inr, codes}

abbrev busy : Store ℕ
busy = record {
  create = λ e s. (some date_busy, s);
  update = λ e s. (some date_busy, s);
  delete = λ id s. (none, s);
  list = λ u from to s. inr [];
}

abbrev call : Event
call = record {
  id = codes "e1";
  title = codes "Call";
  start_at = pos 500;
  end_at = pos 600;
  description = [];
  user_id = codes "u1";
  notify_before = pos 0;
}

refused : perform busy (create_event call) 0 ≡ ((some date_busy, 0), error ∷ [])
unfolding perform
refused = refl
