-- ===== src/Kafka/Retry/Loop.antt =====
-- How the loop of internal/kafka/retry.go ends, and how long it waits.
use golang_hw.Kafka.Failure.{Failure, as_permanent}
use golang_hw.Kafka.Retry.Backoff.{next_backoff_lem}
use golang_hw.Kafka.Retry.{Duration, half, next_backoff, Round, returned, retry_with_backoff}
use native.Mathlib.Decide.{dec_le}
use native.Mathlib.Nat.{mul-le-mul_left, mul_assoc}
use golang_hw.Prelude.{
  ◌≢◌, ◌∙◌, Option-cases, sym, ap, ℕ, zero, suc, ◌*◌, ◌^◌, ◌≤◌, ◌<◌, Bool, true, false, Option,
  none, some, List, [], ◌∷◌, ◌≡◌, ltb, if◌then◌else◌, arith, get_elem?, ◌↔◌, ◌⊎◌, inl, inr,
}

-- The smaller one.
unfoldable pub at_most : ℕ → ℕ → ℕ
at_most limit n = if ltb limit n then limit else n

pow-pos : (i : ℕ) → 1 ≤ 2 ^ i
pow-pos zero = omega arith
pow-pos (suc i) = omega (arith, pow-pos i)

at_most_of-le : (m n : ℕ) → m ≤ n → at_most m n ≡ m
unfolding at_most
at_most_of-le m n h = ground arith

pow-suc : (i : ℕ) → 2 ^ suc i ≡ 2 * 2 ^ i
pow-suc i = omega arith

at_most_le : (m n : ℕ) → at_most m n ≤ m
unfolding at_most
at_most_le m n = ground arith

at_most_of-ge : (m n : ℕ) → n ≤ m → at_most m n ≡ n
unfolding at_most
at_most_of-ge m n h = ground arith

le-mul : (m p : ℕ) → 1 ≤ p → m ≤ m * p
le-mul m p h = omega (arith, mul-le-mul_left m h)

-- Cutting off each doubling, and cutting off once behind them.
at_most-mul : (m b p : ℕ) → 1 ≤ p → at_most m (at_most m (b * 2) * p) ≡ at_most m (b * (2 * p))
at_most-mul m b p h = elim (dec_le m (b * 2)) [
  | yes le ↦
      rw (at_most_of-le m (b * 2) le, at_most_of-le m (m * p) (le-mul m p h))
        (sym (at_most_of-le m (b * (2 * p)) (omega (arith, le, le-mul (b * 2) p h))))
  | no gt ↦ ap (at_most m) (rw (at_most_of-ge m (b * 2) (omega arith)) (mul_assoc b 2 p))
]

unfoldable pub can_retry : Option Failure → Bool
can_retry none = false
can_retry (some err) = elim (as_permanent err) [ none ↦ true | some cause ↦ false ]

-- The operation fails, nothing asks the loop to stop, and it goes on behind the wait.
unfoldable pub Transient : Round → Type 0
unfolding can_retry
Transient r = (r.before ≡ none) × (can_retry r.result ≡ true) × (r.after ≡ none) × (r.waited ≡ none)

-- Some round succeeds, and those before it are transient.
unfoldable pub Succeeds : List Round → Type 0
Succeeds [] = ⊥
Succeeds (r ∷ rounds) = (r.before ≡ none) × ((r.result ≡ none) ⊎ (Transient r × Succeeds rounds))

retry_to :
    (b m : Duration) (rounds : List Round)
    → (retry_with_backoff b m rounds).0 ≡ returned none
    → Succeeds rounds
unfolding retry_with_backoff Succeeds Transient can_retry
retry_to b m [] e = absurd (ground arith)
retry_to b m (r ∷ rounds) e = elim (Option-cases r.result) [
  | inl p ↦ (ground arith, inl p)
  | inr (err, p) ↦ (
    ground arith,
    inr (
      (ground arith, ground arith, ground arith, ground arith),
      retry_to (next_backoff b m) m rounds (ground arith),
    ),
  )
]

retry_from :
    (b m : Duration) (rounds : List Round)
    → Succeeds rounds
    → (retry_with_backoff b m rounds).0 ≡ returned none
unfolding retry_with_backoff Succeeds Transient can_retry
retry_from b m [] e = absurd e
retry_from b m (r ∷ rounds) (e, inl h) = ground arith
retry_from b m (r ∷ rounds) (e, inr (t, h)) =
    ground (arith, retry_from (next_backoff b m) m rounds h)

-- The loop returns nil exactly where the operation succeeds in a round under a live context, and
-- every round before it fails with a failure that is not permanent, under a live context, and waits
-- to the end.
pub retry_with_backoff-Succeeds :
    (initial maximum : Duration) (rounds : List Round)
    → ((retry_with_backoff initial maximum rounds).0 ≡ returned none) ↔ Succeeds rounds
retry_with_backoff-Succeeds b m rounds = (retry_to b m rounds, retry_from b m rounds)

next_backoff-at_most : (b m : Duration) → b ≤ m → m < half → next_backoff b m ≡ at_most m (b * 2)
unfolding at_most
next_backoff-at_most = next_backoff_lem

-- A later wait is a wait of the rounds behind the first.
delays-later :
    (b m : Duration) (r : Round) (rounds : List Round) (i : ℕ) (d : Duration)
    → get_elem? (retry_with_backoff b m (r ∷ rounds)).1 (suc i) ≡ some d
    → get_elem? (retry_with_backoff (next_backoff b m) m rounds).1 i ≡ some d
unfolding retry_with_backoff
delays-later b m r rounds i d e = ground arith

delays-first :
    (b m : Duration) (r : Round) (rounds : List Round) (d : Duration)
    → get_elem? (retry_with_backoff b m (r ∷ rounds)).1 0 ≡ some d
    → d ≡ b
unfolding retry_with_backoff
delays-first b m r rounds d e = ground arith

no_delays :
    (b m : Duration) (i : ℕ) (d : Duration) → get_elem? (retry_with_backoff b m []).1 i ≢ some d
unfolding retry_with_backoff
no_delays b m i d e = ground arith

-- With a maximum of at least the initial delay, the wait number `i`, counted from 0, takes
-- `initial * 2 ^ i`, or the maximum where that is more: doubling never wraps around.
pub retry_with_backoff_delays :
    (initial maximum : Duration) (rounds : List Round) (i : ℕ) (d : Duration)
    → initial ≤ maximum
    → maximum < half
    → get_elem? (retry_with_backoff initial maximum rounds).1 i ≡ some d
    → d ≡ at_most maximum (initial * 2 ^ i)
retry_with_backoff_delays b m [] i d h k e = absurd (no_delays b m i d e)
retry_with_backoff_delays b m (r ∷ rounds) zero d h k e =
    omega (arith, delays-first b m r rounds d e, at_most_of-ge m (b * 2 ^ 0) (omega arith))
retry_with_backoff_delays b m (r ∷ rounds) (suc i) d h k e =
    let q = next_backoff-at_most b m h k in
    retry_with_backoff_delays (next_backoff b m) m rounds i d
      (ground (arith, q, at_most_le m (b * 2))) k (delays-later b m r rounds i d e)
    ∙ rw (q, pow-suc i) (at_most-mul m b (2 ^ i) (pow-pos i))
