-- ===== src/Frequency/Tests.antt =====
-- Runs of `Top10`.
use golang_hw.Frequency.Top.{VisitsKeys, IsTop, top10-IsTop}
use golang_hw.Frequency.{top10, fields}
use golang_hw.Prelude.{Text, codes, List, [], ◌∷◌, ◌≡◌, refl}

abbrev in_place : List Text → List Text
in_place ks = ks

in_place-VisitsKeys : VisitsKeys in_place
in_place-VisitsKeys = record { visits = λ ks v. refl; once = λ ks d. d }

abbrev sample : Text
sample = codes "cat and dog, one dog, two cats and one man"

ranked :
    top10 in_place sample
    ≡ codes "and"
      ∷ codes "dog,"
      ∷ codes "one"
      ∷ codes "cat"
      ∷ codes "cats"
      ∷ codes "man"
      ∷ codes "two"
      ∷ []
unfolding top10
ranked = refl

top10-IsTop_example : IsTop (fields sample) (top10 in_place sample)
top10-IsTop_example = top10-IsTop in_place in_place-VisitsKeys sample
