-- ===== src/Unpack/Tests.antt =====
-- Runs of `Unpack`, with the ASCII digits for the Unicode table.
use golang_hw.Prelude.{ℕ, Bool, ◌&&◌, leb, ◌≡◌, ◌≢◌, ◌↔◌, refl, Text, codes}
use golang_hw.Unpack.Grammar.{Stands, unpack-Stands}
use golang_hw.Unpack.{ok, invalid_string, out_of_fuel, unpack}

abbrev ascii_digit : ℕ → Bool
ascii_digit c = leb b'0' c && leb c b'9'

repeats : unpack ascii_digit (codes "a4bc2d5e") ≡ ok (codes "aaaabccddddde")
unfolding unpack
repeats = refl

drops : unpack ascii_digit (codes "aaa0b") ≡ ok (codes "aab")
unfolding unpack
drops = refl

escapes : unpack ascii_digit (codes "qwe\\45") ≡ ok (codes "qwe44444")
unfolding unpack
escapes = refl

number : unpack ascii_digit (codes "aaa10b") ≡ invalid_string
unfolding unpack
number = refl

unpack-Stands_example :
    ((t : Text)
      → (unpack ascii_digit (codes "a4b\\5") ≡ ok t) ↔ Stands ascii_digit (codes "a4b\\5") t)
    × (unpack ascii_digit (codes "a4b\\5") ≢ out_of_fuel)
unpack-Stands_example = unpack-Stands ascii_digit refl (codes "a4b\\5")
