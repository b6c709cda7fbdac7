-- ===== src/Pipeline/Tests.antt =====
-- A value passes, then the pipeline is cancelled while the next is at hand, and drained.
use golang_hw.Pipeline.Laws.{is_running, forward_order}
use golang_hw.Pipeline.{
  checking, delivering, draining, returned, drain, Forward, start, stop, cancel, see_default,
  receive, deliver_done, deliver, Reach, here, more,
}
use golang_hw.Prelude.{ℕ, ◌≤◌, ◌≡◌, ◌↔◌, refl, true, false, List, [], ◌∷◌, ◌++◌, ◌⊎◌, length}

-- 7 is sent, 8 is at hand, `done` is closed.
abbrev at_hand : Forward ℕ
at_hand = record {
  phase = delivering 8;
  done = true;
  in_closed = false;
  out_closed = false;
  received = 7 ∷ 8 ∷ [];
  drained = [];
  sent = 7 ∷ [];
}

abbrev delivered : Forward ℕ
delivered = record at_hand { phase = checking; done = false; received = 7 ∷ [] }

abbrev cancelled : Forward ℕ
cancelled = record at_hand { phase = returned; out_closed = true }

-- With `drainOnDone`, `stop` takes 9 and 10 and drops them.
abbrev drained : Forward ℕ
drained = record cancelled { phase = draining; drained = 9 ∷ 10 ∷ [] }

drained-Reach : Reach true (start ℕ) drained
unfolding start stop
drained-Reach =
    more
      (more
        (more
          (more
            (more
              (more
                (more
                  (more (more (more here (see_default (start ℕ) refl refl)) (receive _ 7 refl refl))
                    (deliver _ 7 refl))
                  (see_default delivered refl refl))
                (receive _ 8 refl refl))
              (cancel _))
            (deliver_done at_hand 8 refl refl))
          (drain _ 9 refl refl))
        (drain _ 10 refl refl))
      (cancel _)

forward_order_example :
    ((lost : List ℕ) × (7 ∷ 8 ∷ 9 ∷ 10 ∷ [] ≡ (7 ∷ []) ++ (lost ++ 9 ∷ 10 ∷ []))
      × (length lost ≤ 1))
    × ((drained.drained ≡ [])
        ⊎ ((true ≡ true) × (drained.done ≡ true) × (drained.out_closed ≡ true)))
    × ((drained.out_closed ≡ true) ↔ (is_running drained.phase ≡ false))
    × ((drained.out_closed ≡ false)
        ⊎ ((drained.in_closed ≡ true) × (drained.received ≡ drained.sent) × (drained.drained ≡ []))
        ⊎ (drained.done ≡ true))
forward_order_example = forward_order true drained drained-Reach
