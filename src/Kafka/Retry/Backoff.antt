-- ===== src/Kafka/Retry/Backoff.antt =====
-- The delays of internal/kafka/retry.go stay within their bounds: no sum of durations wraps around.
use golang_hw.Kafka.Retry.{Duration, half, less, minus, next_backoff}
use golang_hw.Prelude.{◌-◌, ◌*◌, ◌≤◌, ◌<◌, ◌≡◌, ltb, if◌then◌else◌, arith}

pub half-less : (a b : Duration) → a < half → b < half → less a b ≡ ltb a b
unfolding less
half-less a b h k = ground arith

pub minus_lem : (a b : Duration) → b ≤ a → a < half → minus a b ≡ a - b
unfolding minus
minus_lem a b h k = omega arith

pub next_backoff_lem :
    (current maximum : Duration)
    → current ≤ maximum
    → maximum < half
    → next_backoff current maximum ≡ (if ltb maximum (current * 2) then maximum else current * 2)
unfolding next_backoff
next_backoff_lem c m h k = ground (
  arith,
  half-less c m (omega arith) k,
  minus_lem m c h k,
  half-less (m - c) c (omega arith) (omega arith),
)
