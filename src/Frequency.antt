-- ===== src/Frequency.antt =====
-- hw03_frequency_analysis/top.go. The map of counts is an association list; the order in which a
-- range visits its keys is a parameter, as Go leaves it open. `sort.Slice` is an insertion sort by the
-- same `less`: no two different words are tied under it, so every sort gives the same list.
pub mod Order
pub mod Counts
pub mod Sort
pub mod Top
mod Tests
use golang_hw.Prelude.Sort.{sort_slice}
use golang_hw.Prelude.TextOrder.{text_ltb}
use golang_hw.Prelude.{
  ℕ, ◌+◌, Bool, true, false, List, [], ◌∷◌, ◌++◌, take, ltb, ◌==◌, if◌then◌else◌, Text, text_eq,
  is_space, length, map,
}

abbrev pub top_words_limit : ℕ
top_words_limit = 10

-- `strings.Fields`: the runs of runes that are no spaces.
flush : Text → List Text → List Text
flush [] ws = ws
flush (c ∷ s) ws = (c ∷ s) ∷ ws

fields_from : Text → Text → List Text
unfolding flush
fields_from cur [] = flush cur []
fields_from cur (c ∷ s) = elim (is_space c) [
  | true ↦ flush cur (fields_from [] s)
  | false ↦ fields_from (cur ++ c ∷ []) s
]

unfoldable pub fields : Text → List Text
unfolding fields_from is_space
fields s = fields_from [] s

abbrev pub Counts : Type 0
Counts = List (Text × ℕ)

-- `wordCounts[word]`, 0 where the word is missing
unfoldable pub count_of : Counts → Text → ℕ
unfolding text_eq
count_of [] w = 0
count_of ((v, n) ∷ m) w = if text_eq v w then n else count_of m w

-- `wordCounts[word]++`
unfoldable pub add_word : Text → Counts → Counts
unfolding text_eq
add_word w [] = (w, 1) ∷ []
add_word w ((v, n) ∷ m) = if text_eq v w then (v, n + 1) ∷ m else (v, n) ∷ add_word w m

unfoldable pub count_words : Counts → List Text → Counts
unfolding add_word
count_words m [] = m
count_words m (w ∷ ws) = count_words (add_word w m) ws

-- The comparison that `sort.Slice` is given.
unfoldable pub less : Counts → Text → Text → Bool
unfolding count_of text_ltb
less m v w =
    if count_of m v == count_of m w then text_ltb v w else ltb (count_of m w) (count_of m v)

module _ (range_order : List Text → List Text) where
  unfoldable pub top10 : Text → List Text
  unfolding fields count_words sort_slice less
  top10 text =
      let word_counts = count_words [] (fields text) in
      let words = range_order (map (λ e. e.0) word_counts) in
      take top_words_limit (sort_slice (less word_counts) words)
