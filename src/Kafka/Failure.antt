-- ===== src/Kafka/Failure.antt =====
-- The error values of internal/kafka: `%w` wraps a failure, retry.go marks the permanent ones, and
-- `errors.As` searches the chain. A `protocol` failure is a `segmentio.Error`, with its code and
-- what its `Temporary` answers; the library decides both.
use golang_hw.Prelude.{ℕ, Bool, false, Option, none, some, ◌==◌}

pub data Failure : Type 0 where
  plain : ℕ → Failure
  protocol : (code : ℕ) (temporary : Bool) → Failure
  wrapped : Failure → Failure
  -- `permanentRetryError`
  permanent : Failure → Failure

-- `var permanent *permanentRetryError; errors.As(err, &permanent)`: the cause that it finds.
unfoldable pub as_permanent : Failure → Option Failure
as_permanent (plain n) = none
as_permanent (protocol c t) = none
as_permanent (wrapped e) = as_permanent e
as_permanent (permanent cause) = some cause

-- `errors.As(err, &protocolErr)`: the code and whether it is temporary.
unfoldable pub as_protocol : Failure → Option (ℕ × Bool)
as_protocol (plain n) = none
as_protocol (protocol c t) = some (c, t)
as_protocol (wrapped e) = as_protocol e
as_protocol (permanent cause) = as_protocol cause

-- `errors.Is(err, segmentio.TopicAlreadyExists)`
unfoldable pub is_code : ℕ → Failure → Bool
is_code code (plain n) = false
is_code code (protocol c t) = c == code
is_code code (wrapped e) = is_code code e
is_code code (permanent cause) = is_code code cause
