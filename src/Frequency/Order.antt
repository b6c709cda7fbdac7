-- ===== src/Frequency/Order.antt =====
-- The comparison of words is a strict total order.
use golang_hw.Frequency.{Counts, less}
use golang_hw.Prelude.TextOrder.{text_ltb_irrefl, text_ltb_trans, text_ltb_total}
use golang_hw.Prelude.{◌≡◌, ◌≢◌, true, false, Text, arith}

module _ (m : Counts) where
  -- The word `v` stands before `w`.
  abbrev pub Before : Text → Text → Type 0
  Before v w = less m v w ≡ true

  pub less_irrefl : (v : Text) → less m v v ≡ false
  unfolding less
  less_irrefl v = ground (arith, text_ltb_irrefl v)

  pub less_trans : (u v w : Text) → Before u v → Before v w → Before u w
  unfolding less
  less_trans u v w h k = ground (arith, text_ltb_trans u v w)

  pub less_total : (v w : Text) → v ≢ w → less m v w ≡ false → Before w v
  unfolding less
  less_total v w n h = ground (arith, text_ltb_total v w)
