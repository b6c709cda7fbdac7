-- ===== src/DomainStat.antt =====
-- hw10_program_optimization/stats.go. The two JSON decoders, the regular expressions and
-- `strings.ToLower` are parameters, the scanner is the list of its lines. The map of counts is that of
-- Frequency; a count cannot overflow before 2^63 lines. An error is its text.
pub mod Users
mod Tests
use golang_hw.Frequency.{Counts, add_word}
use golang_hw.Prelude.Int.{ℤ, pos}
use golang_hw.Prelude.{
  ℕ, Bool, true, false, not, ◌||◌, Option, none, some, List, [], ◌∷◌, ◌++◌, ◌⊎◌, inl, inr, ◌==◌,
  if◌then◌else◌, Text, codes, text_eq, cut, is_empty,
}

abbrev pub Error : Type 0
Error = Text

pub data StatError : Type 0 where
  -- "compile domain regexp" and "get users error", each around its cause
  compile_error users_error : Error → StatError

pub record User : Type 0 where
  pub id : ℤ
  pub name : Text
  pub username : Text
  pub email : Text
  pub phone : Text
  pub password : Text
  pub address : Text

-- `User{}`
abbrev pub zero_user : User
zero_user = record {
  id = pos 0;
  name = [];
  username = [];
  email = [];
  phone = [];
  password = [];
  address = [];
}

-- A line of the scanner, with what its `Err` answers as long as the line is the current one.
pub record Line : Type 0 where
  pub bytes : Text
  pub read_err : Option Error

-- The lines up to the end of the scan, and the error behind them.
pub record Stream : Type 0 where
  pub lines : List Line
  pub err : Option Error

-- `bytes.Trim(line, " \t\r")`
abbrev pub is_cutset : ℕ → Bool
is_cutset c = c == 0x20 || c == 0x9 || c == 0xd

unfoldable pub trim_start : Text → Text
trim_start [] = []
trim_start (c ∷ s) = let rest = trim_start s in if is_cutset c then rest else c ∷ s

unfoldable pub trim_stop : Text → Text
trim_stop [] = []
trim_stop (c ∷ s) =
    let rest = trim_stop s in
    elim rest [ [] ↦ if is_cutset c then [] else c ∷ [] | d ∷ t ↦ c ∷ d ∷ t ]

unfoldable pub trim : Text → Text
unfolding trim_start trim_stop
trim s = trim_stop (trim_start s)

-- `bytes.IndexByte(line, b) >= 0`
unfoldable pub has_byte : ℕ → Text → Bool
has_byte b [] = false
has_byte b (c ∷ s) = c == b || has_byte b s

-- `userID.UnmarshalJSON`: the error, or the new value.
unfoldable pub unmarshal_json : (parse_int : Text → Error ⊎ ℤ) → Text → ℤ → Error ⊎ ℤ
unfolding text_eq
unmarshal_json parse_int text id = if text_eq text (codes "null") then inr id else parse_int text

module _ (unmarshal std_unmarshal : Text → User → Error ⊎ User) (to_lower : Text → Text) where
  -- The decoder of a line, into an empty user.
  unfoldable pub decode : Text → Error ⊎ User
  unfolding has_byte
  decode line =
      if has_byte 0x5c line then std_unmarshal line zero_user else unmarshal line zero_user

  -- The tests and the count for one user.
  unfoldable pub count_user : (Text → Bool) → User → Counts → Counts
  unfolding cut add_word
  count_user matches user result =
      if not (matches user.email) then result else elim (cut 0x40 user.email) [
        | none ↦ result
        | some parts ↦ add_word (to_lower parts.1) result
      ]

  -- The body of the loop.
  unfoldable pub count_line : (Text → Bool) → Line → Counts → StatError ⊎ Counts
  unfolding trim decode count_user
  count_line matches line result =
      if is_empty (trim line.bytes) then inr result else elim (decode (trim line.bytes)) [
        | inl err ↦ elim line.read_err [
          | some read_err ↦ inl (users_error read_err)
          | none ↦ inl (users_error err)
        ]
        | inr user ↦ inr (count_user matches user result)
      ]

  unfoldable pub count_lines : (Text → Bool) → List Line → Counts → StatError ⊎ Counts
  unfolding count_line
  count_lines matches [] result = inr result
  count_lines matches (line ∷ lines) result = elim (count_line matches line result) [
    | inl err ↦ inl err
    | inr next ↦ count_lines matches lines next
  ]

  -- `compile` stands for `regexp.Compile`, a matcher for its `MatchString`.
  unfoldable pub get_domain_stat :
      (compile : Text → Error ⊎ (Text → Bool)) → Stream → Text → StatError ⊎ Counts
  unfolding count_lines
  get_domain_stat compile r domain = elim (compile (codes "\\." ++ domain)) [
    | inl err ↦ inl (compile_error err)
    | inr matches ↦ elim (count_lines matches r.lines []) [
      | inl err ↦ inl err
      | inr result ↦ elim r.err [ some err ↦ inl (users_error err) | none ↦ inr result ]
    ]
  ]
