-- ===== src/Unpack.antt =====
-- hw02_unpack_string/unpack.go. A text is its runes. `unicode.IsDigit` reads the Unicode table, which
-- is a parameter; `strconv.Atoi` of one rune succeeds at the ASCII digits alone.
pub mod Grammar
mod Tests
use golang_hw.Prelude.{
  ℕ, zero, suc, ◌-◌, Bool, true, false, not, ◌&&◌, ◌||◌, Option, none, some, List, [], ◌∷◌, ◌++◌,
  leb, ◌==◌, if◌then◌else◌, length, replicate, Text,
}

pub data Outcome : Type 0 where
  ok : Text → Outcome
  invalid_string : Outcome
  out_of_fuel : Outcome

abbrev pub backslash : ℕ
backslash = 0x5c

-- `strconv.Atoi(string(r))`
abbrev pub atoi : ℕ → Option ℕ
atoi r = if leb b'0' r && leb r b'9' then some (r - b'0') else none

module _ (is_digit : ℕ → Bool) where
  -- From `repeatCount := 1` to the end of a round: what is written, and the runes left.
  unfoldable pub repeat_block : ℕ → Text → Option (Text × Text)
  repeat_block current [] = some (current ∷ [], [])
  repeat_block current (d ∷ rest) =
      if is_digit d
      then elim (atoi d) [ none ↦ none | some n ↦ some (replicate n current, rest) ]
      else some (current ∷ [], d ∷ rest)

  -- The rune behind a backslash.
  unfoldable pub escaped : Text → Option (Text × Text)
  unfolding repeat_block
  escaped [] = none
  escaped (r ∷ rest) =
      if not (r == backslash) && not (is_digit r) then none else repeat_block r rest

  -- One round of the loop at a rune; `none` is the return with ErrInvalidString.
  unfoldable pub round : ℕ → Text → Option (Text × Text)
  unfolding escaped repeat_block
  round current rest =
      if is_digit current
      then none
      else if current == backslash
      then escaped rest
      else repeat_block current rest

  unfoldable pub loop : ℕ → Text → Text → Outcome
  unfolding round
  loop fuel result [] = ok result
  loop zero result (c ∷ rest) = out_of_fuel
  loop (suc fuel) result (c ∷ rest) = elim (round c rest) [
    | none ↦ invalid_string
    | some (written, left) ↦ loop fuel (result ++ written) left
  ]

  unfoldable pub unpack : Text → Outcome
  unfolding loop
  unpack input = loop (length input) [] input
