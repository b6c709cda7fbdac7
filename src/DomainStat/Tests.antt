-- ===== src/DomainStat/Tests.antt =====
-- A stream with a user, a blank line and another user, and one that a bad line ends.
use golang_hw.DomainStat.Users.{
  Holds, Counted, domains, cause, get_domain_stat-Counted, get_domain_stat-stops,
}
use golang_hw.DomainStat.{
  Error, User, zero_user, Line, Stream, trim, trim_start, trim_stop, has_byte, decode, count_user,
  count_line, count_lines, get_domain_stat, users_error,
}
use golang_hw.Frequency.{Counts}
use golang_hw.Prelude.{
  Bool, true, false, none, ◌==◌, ◌++◌, List, [], ◌∷◌, ◌⊎◌, inl, inr, ◌≡◌, refl, Text, codes,
}

program : Unit {0}
unfolding get_domain_stat count_lines count_line count_user decode has_byte trim trim_start
    trim_stop Holds Counted domains cause
program = tt

-- A line is the address itself, and one that starts with "!" does not decode.
abbrev unmarshal : Text → User → Error ⊎ User
unmarshal [] user = inr user
unmarshal (c ∷ s) user = elim (c == 0x21) [
  | true ↦ inl (codes "bad")
  | false ↦ inr (record {
    id = user.id;
    name = user.name;
    username = user.username;
    email = c ∷ s;
    phone = user.phone;
    password = user.password;
    address = user.address;
  })
]

abbrev compile : Text → Error ⊎ (Text → Bool)
compile pattern = inr (λ email. true)

abbrev line : Text → Line
line text = record { bytes = text; read_err = none }

abbrev lines : List Line
lines = line (codes " ann@b.com") ∷ line (codes " ") ∷ line (codes "bob@b.com\r") ∷ []

abbrev user : Text → User
user email = record {
  id = zero_user.id;
  name = [];
  username = [];
  email = email;
  phone = [];
  password = [];
  address = [];
}

abbrev users : List User
users = user (codes "ann@b.com") ∷ user (codes "bob@b.com") ∷ []

lines-Holds : Holds unmarshal unmarshal (λ s. s) lines users
unfolding program
lines-Holds = inr (
  user (codes "ann@b.com"),
  user (codes "bob@b.com") ∷ [],
  refl,
  refl,
  refl,
  inl (refl, inr (user (codes "bob@b.com"), [], refl, refl, refl, refl)),
)

get_domain_stat-Counted_example :
    (stat : Counts) × (get_domain_stat unmarshal unmarshal
        (λ s. s)
        compile
        (record { lines = lines; err = none })
        (codes "com")
      ≡ inr stat)
    × Counted unmarshal unmarshal (λ s. s) (λ email. true) users [] stat
get_domain_stat-Counted_example =
    get_domain_stat-Counted unmarshal unmarshal (λ s. s) compile
      (record { lines = lines; err = none }) (codes "com") (λ email. true) users refl lines-Holds
      refl

abbrev broken : Stream
broken = record { lines = lines ++ line (codes "!") ∷ lines; err = none }

get_domain_stat-stops_example :
    get_domain_stat unmarshal unmarshal (λ s. s) compile broken (codes "com")
    ≡ inl (users_error (cause none (codes "bad")))
unfolding program
get_domain_stat-stops_example =
    get_domain_stat-stops unmarshal unmarshal (λ s. s) compile broken (codes "com") (λ email. true)
      lines lines (line (codes "!")) users (codes "bad") refl refl lines-Holds refl refl
