-- ===== src/Prelude/Split.antt =====
-- Texts in parts: `strings.Split` and `strings.Cut` at one rune, their inverses, and sets of texts.
use Prim.Native.Nat.{ℕ}
use mathlib.Core.Bool.{Bool, true, false, ◌||◌}
use mathlib.Core.List.{List, [], ◌∷◌, ◌++◌}
use mathlib.Core.Option.{Option, none, some}
use mathlib.Core.Path.{◌≡◌, refl, ap, ◌∙◌}
use native.Mathlib.Omega.{arith}
use golang_hw.Prelude.Lists.{All}
use golang_hw.Prelude.Tests.{◌==◌, if◌then◌else◌}
use golang_hw.Prelude.Texts.{Text, text_eq}

abbrev pub is_empty : Text → Bool
is_empty [] = true
is_empty (c ∷ s) = false

-- The text is one of these.
unfoldable pub text_mem : Text → List Text → Bool
text_mem s [] = false
text_mem s (t ∷ ts) = text_eq s t || text_mem s ts

-- The rune goes in front of the first part.
unfoldable pub add_rune : ℕ → List Text → List Text
add_rune c [] = (c ∷ []) ∷ []
add_rune c (w ∷ ws) = (c ∷ w) ∷ ws

-- `strings.Split(s, sep)`: one part more than there are separators.
unfoldable pub split_on : ℕ → Text → List Text
unfolding add_rune
split_on sep [] = [] ∷ []
split_on sep (c ∷ s) = let rest = split_on sep s in if c == sep then [] ∷ rest else add_rune c rest

-- `strings.Join(parts, sep)`
unfoldable pub join : ℕ → List Text → Text
join sep [] = []
join sep (w ∷ []) = w
join sep (w ∷ v ∷ ws) = w ++ sep ∷ join sep (v ∷ ws)

unfoldable pub before_cut : ℕ → Option (Text × Text) → Option (Text × Text)
before_cut c none = none
before_cut c (some (s, t)) = some (c ∷ s, t)

-- `strings.Cut(s, sep)`: the parts around the first separator.
unfoldable pub cut : ℕ → Text → Option (Text × Text)
unfolding before_cut
cut sep [] = none
cut sep (c ∷ s) = let rest = cut sep s in if c == sep then some ([], s) else before_cut c rest

-- The separator does not occur.
abbrev pub Avoids : ℕ → Text → Type 0
Avoids sep s = All (λ c. (c == sep) ≡ false) s

pub cut-append : (sep : ℕ) (s t : Text) → Avoids sep s → cut sep (s ++ sep ∷ t) ≡ some (s, t)
unfolding cut
cut-append sep [] t h = ground arith
cut-append sep (c ∷ s) t (p, h) = ground (arith, cut-append sep s t h)

split_on-append :
    (sep : ℕ) (w s : Text) → Avoids sep w → split_on sep (w ++ sep ∷ s) ≡ w ∷ split_on sep s
unfolding split_on
split_on-append sep [] s h = ground arith
split_on-append sep (c ∷ w) s (p, h) = ground (arith, split_on-append sep w s h)

split_on-single : (sep : ℕ) (w : Text) → Avoids sep w → split_on sep w ≡ w ∷ []
unfolding split_on
split_on-single sep [] h = refl
split_on-single sep (c ∷ w) (p, h) = ground (arith, split_on-single sep w h)

-- Parts without the separator come back from their join.
pub split_on-join :
    (sep : ℕ) (w : Text) (ws : List Text)
    → All (Avoids sep) (w ∷ ws)
    → split_on sep (join sep (w ∷ ws)) ≡ w ∷ ws
unfolding join
split_on-join sep w [] (h, _) = split_on-single sep w h
split_on-join sep w (v ∷ ws) (h, k) =
    split_on-append sep w (join sep (v ∷ ws)) h ∙ ap (◌∷◌ w) (split_on-join sep v ws k)
