-- ===== src/Frequency/Counts.antt =====
-- The map holds each word of the text once, with the number of times that it occurs.
use golang_hw.Frequency.{Counts, count_of, add_word, count_words}
use golang_hw.Prelude.{
  ℕ, ◌+◌, ◌≡◌, refl, Bool, false, List, [], ◌∷◌, ◌++◌, if◌then◌else◌, Text, text_eq, text_eq_iff,
  arith, map, ◌||◌,
}

-- How often the word stands in the list.
unfoldable pub occurrences : List Text → Text → ℕ
occurrences [] w = 0
occurrences (v ∷ vs) w = (if text_eq v w then 1 else 0) + occurrences vs w

unfoldable pub contains : List Text → Text → Bool
contains [] w = false
contains (v ∷ vs) w = text_eq v w || contains vs w

pub occurrences-append :
    (vs ws : List Text) (w : Text) → occurrences (vs ++ ws) w ≡ occurrences vs w + occurrences ws w
unfolding occurrences
occurrences-append [] ws w = omega arith
occurrences-append (v ∷ vs) ws w = omega (arith, occurrences-append vs ws w)

pub contains-append :
    (vs ws : List Text) (w : Text) → contains (vs ++ ws) w ≡ (contains vs w || contains ws w)
unfolding contains
contains-append [] ws w = refl
contains-append (v ∷ vs) ws w = ground (arith, contains-append vs ws w)

abbrev pub Absent : Text → List Text → Type 0
Absent w vs = contains vs w ≡ false

abbrev pub Distinct : List Text → Type 0
Distinct [] = Unit
Distinct (v ∷ vs) = Absent v vs × Distinct vs

abbrev pub keys : Counts → List Text
keys m = map (λ e. e.0) m

pub count_of-add_word :
    (w v : Text) (m : Counts)
    → count_of (add_word w m) v ≡ count_of m v + (if text_eq w v then 1 else 0)
unfolding count_of add_word
count_of-add_word w v [] = ground arith
count_of-add_word w v ((u, n) ∷ m) =
    ground (arith, text_eq_iff u w, text_eq_iff u v, text_eq_iff w v, count_of-add_word w v m)

pub contains-add_word :
    (w v : Text) (m : Counts)
    → contains (keys (add_word w m)) v ≡ (text_eq w v || contains (keys m) v)
unfolding add_word contains
contains-add_word w v [] = refl
contains-add_word w v ((u, n) ∷ m) =
    ground (arith, text_eq_iff u w, text_eq_iff u v, text_eq_iff w v, contains-add_word w v m)

add_word-Distinct : (w : Text) (m : Counts) → Distinct (keys m) → Distinct (keys (add_word w m))
unfolding add_word contains
add_word-Distinct w [] d = (refl, tt)
add_word-Distinct w ((u, n) ∷ m) (a, d) =
    ground
      (arith, text_eq_iff u w, text_eq_iff w u, contains-add_word w u m, add_word-Distinct w m d)

pub count_of-count_words :
    (m : Counts) (ws : List Text) (v : Text)
    → count_of (count_words m ws) v ≡ count_of m v + occurrences ws v
unfolding count_words occurrences
count_of-count_words m [] v = omega arith
count_of-count_words m (w ∷ ws) v =
    omega (arith, count_of-count_words (add_word w m) ws v, count_of-add_word w v m)

pub contains-count_words :
    (m : Counts) (ws : List Text) (v : Text)
    → contains (keys (count_words m ws)) v ≡ (contains (keys m) v || contains ws v)
unfolding count_words contains
contains-count_words m [] v = ground arith
contains-count_words m (w ∷ ws) v =
    ground (arith, contains-count_words (add_word w m) ws v, contains-add_word w v m)

pub count_words-Distinct :
    (m : Counts) (ws : List Text) → Distinct (keys m) → Distinct (keys (count_words m ws))
unfolding count_words
count_words-Distinct m [] d = d
count_words-Distinct m (w ∷ ws) d = count_words-Distinct (add_word w m) ws (add_word-Distinct w m d)
