-- ===== src/Kafka/Topic/Names.antt =====
-- Which topic names internal/kafka/topic.go accepts.
use golang_hw.Kafka.Topic.{
  rune_bytes, utf8, is_topic_name_byte, validate_bytes, validate_topic_name,
}
use native.Mathlib.Decide.{dec_le}
use golang_hw.Prelude.{
  Bool-cases, subst, ℕ, suc, ◌≤◌, true, false, none, List, [], ◌∷◌, ◌++◌, ◌≡◌, ◌≢◌, ◌↔◌, ◌⊎◌, inl,
  inr, Text, codes, text_eq, is_blank, is_space, length, All, arith, refl, text_eq_iff,
}

-- A letter or a digit of ASCII, or one of `.`, `_` and `-`.
unfoldable pub IsNameRune : ℕ → Type 0
IsNameRune r =
    ((b'a' ≤ r) × (r ≤ b'z'))
    ⊎ ((b'A' ≤ r) × (r ≤ b'Z'))
    ⊎ ((b'0' ≤ r) × (r ≤ b'9'))
    ⊎ (r ≡ b'.')
    ⊎ (r ≡ b'_')
    ⊎ (r ≡ b'-')

byte_to : (r : ℕ) → is_topic_name_byte r ≡ true → IsNameRune r
unfolding is_topic_name_byte IsNameRune
byte_to r h = ground arith

byte_from : (r : ℕ) → IsNameRune r → is_topic_name_byte r ≡ true
unfolding is_topic_name_byte IsNameRune
byte_from r h = ground arith

IsNameRune-small : (r : ℕ) → IsNameRune r → suc r ≤ 0x80
unfolding IsNameRune
IsNameRune-small r h = ground arith

IsNameRune-is_space : (r : ℕ) → IsNameRune r → is_space r ≡ false
unfolding IsNameRune is_space
IsNameRune-is_space r h = ground arith

validate_bytes_to :
    (b : ℕ) (bs : List ℕ)
    → validate_bytes (b ∷ bs) ≡ none
    → (is_topic_name_byte b ≡ true) × (validate_bytes bs ≡ none)
unfolding validate_bytes
validate_bytes_to b bs h = ground arith

high_byte : (b : ℕ) → 0x80 ≤ b → is_topic_name_byte b ≡ false
unfolding is_topic_name_byte
high_byte b h = ground arith

first_byte : List ℕ → ℕ
first_byte [] = 0
first_byte (b ∷ bs) = b

rune_bytes-high : (r : ℕ) → 0x80 ≤ r → 0x80 ≤ first_byte (rune_bytes r)
unfolding first_byte
rune_bytes-high r h = ground arith

high_bytes : (l bs : List ℕ) → 0x80 ≤ first_byte l → validate_bytes (l ++ bs) ≢ none
unfolding validate_bytes first_byte
high_bytes [] bs h = absurd (omega arith)
high_bytes (b ∷ l) bs h = ground (arith, high_byte b h)

rune_to :
    (r : ℕ) (bs : List ℕ)
    → validate_bytes (rune_bytes r ++ bs) ≡ none
    → (IsNameRune r) × (validate_bytes bs ≡ none)
rune_to r bs h = elim (dec_le 0x80 r) [
  | yes le ↦ absurd (high_bytes (rune_bytes r) bs (rune_bytes-high r le) h)
  | no gt ↦ let q = validate_bytes_to r bs (ground arith) in (byte_to r q.0, q.1)
]

rune_from : (r : ℕ) → IsNameRune r → rune_bytes r ≡ r ∷ []
rune_from r h = ground (arith, IsNameRune-small r h)

bytes_to : (s : Text) → validate_bytes (utf8 s) ≡ none → All IsNameRune s
unfolding utf8
bytes_to [] h = tt
bytes_to (r ∷ s) h = let q = rune_to r (utf8 s) h in (q.0, bytes_to s q.1)

utf8_ascii : (s : Text) → All IsNameRune s → utf8 s ≡ s
unfolding utf8
utf8_ascii [] h = refl
utf8_ascii (r ∷ s) (p, h) = rw (rune_from r p, utf8_ascii s h) refl

bytes_from : (s : Text) → All IsNameRune s → validate_bytes s ≡ none
unfolding validate_bytes
bytes_from [] h = refl
bytes_from (r ∷ s) (p, h) = ground (arith, byte_from r p, bytes_from s h)

not-blank : (s : Text) → All IsNameRune s → 1 ≤ length s → is_blank s ≡ false
unfolding is_blank
not-blank [] h k = absurd (omega arith)
not-blank (r ∷ s) (p, h) k = ground (arith, IsNameRune-is_space r p)

nonempty : (s : Text) → is_blank s ≡ false → 1 ≤ length s
unfolding is_blank
nonempty [] h = absurd (ground arith)
nonempty (r ∷ s) h = omega arith

-- Between 1 and 249 runes, all of them ASCII letters, digits, `.`, `_` or `-`; not `.` nor `..`.
unfoldable pub IsName : Text → Type 0
IsName topic =
    All IsNameRune topic
    × (1 ≤ length topic)
    × (length topic ≤ 249)
    × (topic ≢ codes ".")
    × (topic ≢ codes "..")

not_text_eq : (s t : Text) → s ≢ t → text_eq s t ≡ false
not_text_eq s t h = elim (Bool-cases (text_eq s t)) [
  | inl p ↦ absurd (h ((text_eq_iff s t).0 p))
  | inr p ↦ p
]

text_eq-apart : (s t : Text) → text_eq s t ≡ false → s ≢ t
text_eq-apart s t h e = absurd (ground (arith, (text_eq_iff s t).1 e))

IsName-from : (s : Text) → IsName s → validate_topic_name s ≡ none
unfolding validate_topic_name IsName
IsName-from s (h, one, most, dot, dots) =
    let q = bytes_from s h in
    rw
      (
        not-blank s h one,
        utf8_ascii s h,
        not_text_eq s (codes ".") dot,
        not_text_eq s (codes "..") dots,
      )
      (ground arith)

-- The conditions that the name has passed.
name_guards :
    (s : Text)
    → validate_topic_name s ≡ none
    → (is_blank s ≡ false)
      × (text_eq s (codes ".") ≡ false)
      × (text_eq s (codes "..") ≡ false)
      × (length (utf8 s) ≤ 249)
      × (validate_bytes (utf8 s) ≡ none)
unfolding validate_topic_name
name_guards s e = ground arith

IsName-to : (s : Text) → validate_topic_name s ≡ none → IsName s
unfolding IsName
IsName-to s e =
    let g = name_guards s e in
    let h = bytes_to s g.4 in
    (
      h,
      nonempty s g.0,
      subst (λ t. length t ≤ 249) (utf8_ascii s h) g.3,
      text_eq-apart s (codes ".") g.1,
      text_eq-apart s (codes "..") g.2,
    )

-- `validateTopicName` accepts a name exactly where it has between 1 and 249 runes, all of them ASCII
-- letters, digits, `.`, `_` or `-`, and is neither `.` nor `..`.
validate_topic_name_lem : (topic : Text) → (validate_topic_name topic ≡ none) ↔ IsName topic
validate_topic_name_lem s = (IsName-to s, IsName-from s)
