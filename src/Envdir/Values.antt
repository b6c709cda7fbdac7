-- ===== src/Envdir/Values.antt =====
-- The values that hw08_envdir_tool/env_reader.go makes of files.
use golang_hw.Envdir.{first_line, replace_nul, is_trimmed, trim_right, parse_value}
use golang_hw.Prelude.{
  Bool-cases, inl, inr, ℕ, true, false, ◌&&◌, [], ◌∷◌, ◌≡◌, ◌≢◌, ◌↔◌, arith, refl, All, Text,
  is_empty, if◌then◌else◌,
}

-- The last byte is no space and no tab.
unfoldable pub IsTrimmed : Text → Type 0
IsTrimmed [] = Unit
IsTrimmed (c ∷ []) = is_trimmed c ≡ false
IsTrimmed (c ∷ d ∷ s) = IsTrimmed (d ∷ s)

unfoldable pub NoNul : Text → Type 0
NoNul s = All (λ c. c ≢ 0) s

-- The byte `c` in front of a trimmed rest, as `trim_right` puts it there.
put-IsTrimmed :
    (c : ℕ) (rest : Text)
    → IsTrimmed rest
    → IsTrimmed (if is_empty rest && is_trimmed c then [] else c ∷ rest)
unfolding IsTrimmed
put-IsTrimmed c [] h = elim (Bool-cases (is_trimmed c)) [ inl p ↦ rw (p) tt | inr p ↦ rw (p) p ]
put-IsTrimmed c (d ∷ s) h = h

put-NoNul :
    (c : ℕ) (rest : Text)
    → c ≢ 0
    → NoNul rest
    → NoNul (if is_empty rest && is_trimmed c then [] else c ∷ rest)
unfolding NoNul
put-NoNul c rest p h = elim (Bool-cases (is_empty rest && is_trimmed c)) [
  | inl q ↦ rw (q) tt
  | inr q ↦ rw (q) (p, h)
]

trim_right-IsTrimmed : (s : Text) → IsTrimmed (trim_right s)
unfolding trim_right IsTrimmed
trim_right-IsTrimmed [] = tt
trim_right-IsTrimmed (c ∷ s) = put-IsTrimmed c (trim_right s) (trim_right-IsTrimmed s)

replace_nul-NoNul : (s : Text) → NoNul (replace_nul s)
unfolding replace_nul NoNul
replace_nul-NoNul [] = tt
replace_nul-NoNul (c ∷ s) = (ground arith, replace_nul-NoNul s)

trim_right-NoNul : (s : Text) → NoNul s → NoNul (trim_right s)
unfolding trim_right NoNul
trim_right-NoNul [] h = tt
trim_right-NoNul (c ∷ s) (p, h) = put-NoNul c (trim_right s) p (trim_right-NoNul s h)

-- A variable is removed exactly for an empty file; its value has no NUL byte, and no space or tab
-- at its end.
parse_value-IsTrimmed :
    (content : Text)
    → (((parse_value content).need_remove ≡ true) ↔ (content ≡ []))
      × NoNul (parse_value content).value
      × IsTrimmed (parse_value content).value
unfolding parse_value NoNul IsTrimmed
parse_value-IsTrimmed [] = ((λ _. refl, λ _. refl), tt, tt)
parse_value-IsTrimmed (c ∷ s) =
    let kept = replace_nul (first_line (c ∷ s)) in
    (
      ground arith,
      trim_right-NoNul kept (replace_nul-NoNul (first_line (c ∷ s))),
      trim_right-IsTrimmed kept,
    )
