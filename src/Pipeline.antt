-- ===== src/Pipeline.antt =====
-- hw06_pipeline_execution/pipeline.go: the goroutine of `forward`, as a machine that takes part in
-- channel operations. The owners of `in`, `done` and the reader of `out` choose when an operation is
-- possible. A select with several ready cases may take any of them. `in` is not nil.
pub mod Laws
mod Tests
use golang_hw.Prelude.{ℕ, Bool, true, false, List, [], ◌∷◌, ◌++◌, if◌then◌else◌, ◌≡◌}

-- Where the goroutine stands.
pub data Phase (A : Type 0) : Type 0 where
  -- before the first select of a round
  checking : Phase A
  -- at the second select
  receiving : Phase A
  -- at the third select, with a value
  delivering : A → Phase A
  -- in the loop of `stop`
  draining : Phase A
  returned : Phase A

pub record Forward (A : Type 0) : Type 0 where
  pub phase : Phase A
  -- `done` is closed, `in` is closed, `out` is closed
  pub done : Bool
  pub in_closed : Bool
  pub out_closed : Bool
  -- the values received before the stop, those received in `stop`, and those sent
  pub received : List A
  pub drained : List A
  pub sent : List A

unfoldable pub start : (A : Type 0) → Forward A
start A = record {
  phase = checking;
  done = false;
  in_closed = false;
  out_closed = false;
  received = [];
  drained = [];
  sent = [];
}

module _ {A : Type 0} (drain_on_done : Bool) where
  -- The call of `stop()`, up to its loop.
  unfoldable pub stop : Forward A → Forward A
  stop f = record f { out_closed = true; phase = if drain_on_done then draining else returned }

  -- `close(out); return`
  abbrev pub finish : Forward A → Forward A
  finish f = record f { out_closed = true; phase = returned }

  pub data Step : Forward A → Forward A → Type 0 where
    -- the environment
    cancel : (f : Forward A) → Step f (record f { done = true })
    close_in : (f : Forward A) → Step f (record f { in_closed = true })
    -- the first select
    see_done : (f : Forward A) → f.phase ≡ checking → f.done ≡ true → Step f (stop f)
    see_default :
        (f : Forward A)
        → f.phase ≡ checking
        → f.done ≡ false
        → Step f (record f { phase = receiving })
    -- the second select
    wait_done : (f : Forward A) → f.phase ≡ receiving → f.done ≡ true → Step f (stop f)
    receive :
        (f : Forward A) (v : A)
        → f.phase ≡ receiving
        → f.in_closed ≡ false
        → Step f (record f { phase = delivering v; received = f.received ++ v ∷ [] })
    receive_closed : (f : Forward A) → f.phase ≡ receiving → f.in_closed ≡ true → Step f (finish f)
    -- the third select
    deliver_done :
        (f : Forward A) (v : A) → f.phase ≡ delivering v → f.done ≡ true → Step f (stop f)
    deliver :
        (f : Forward A) (v : A)
        → f.phase ≡ delivering v
        → Step f (record f { phase = checking; sent = f.sent ++ v ∷ [] })
    -- the loop of `stop`
    drain :
        (f : Forward A) (v : A)
        → f.phase ≡ draining
        → f.in_closed ≡ false
        → Step f (record f { drained = f.drained ++ v ∷ [] })
    drain_closed :
        (f : Forward A)
        → f.phase ≡ draining
        → f.in_closed ≡ true
        → Step f (record f { phase = returned })

  pub data Reach (f : Forward A) : Forward A → Type 0 where
    here : Reach f f
    more : {g h : Forward A} → Reach f g → Step g h → Reach f h
