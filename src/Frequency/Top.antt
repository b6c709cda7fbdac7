-- ===== src/Frequency/Top.antt =====
-- What `Top10` returns, described by the words of the text.
use golang_hw.Frequency.Counts.{
  occurrences, contains, Distinct, keys, count_of-count_words, contains-count_words,
  count_words-Distinct,
}
use golang_hw.Frequency.Order.{Before}
use golang_hw.Frequency.Sort.{
  Sorted, contains-sort_slice, sort_slice-Sorted, Sorted_unique, take_complete, take-Sorted,
  contains-take,
}
use golang_hw.Frequency.{Counts, top_words_limit, fields, count_of, count_words, less, top10}
use golang_hw.Prelude.TextOrder.{text_ltb}
use golang_hw.Prelude.Sort.{sort_slice}
use golang_hw.Prelude.{
  ◌<◌, ◌≤◌, ◌≡◌, refl, sym, ap, true, List, [], ◌∷◌, Text, arith, All, All-map, ◌⊎◌, inl, inr, take,
  length, length-take-le, ◌∙◌,
}

-- A range visits each key of the map, and each once.
pub record VisitsKeys (range_order : List Text → List Text) : Type 0 where
  pub visits : (ks : List Text) (v : Text) → contains (range_order ks) v ≡ contains ks v
  pub once : (ks : List Text) → Distinct ks → Distinct (range_order ks)

-- The word `v` stands before `w`: it occurs more often, or as often and is less.
abbrev pub Precedes : List Text → Text → Text → Type 0
Precedes ws v w =
    (occurrences ws w < occurrences ws v)
    ⊎ (occurrences ws v ≡ occurrences ws w) × (text_ltb v w ≡ true)

abbrev pub Ordered : List Text → List Text → Type 0
Ordered ws [] = Unit
Ordered ws (v ∷ vs) = All (Precedes ws v) vs × Ordered ws vs

-- The most frequent words of a text, the most frequent first.
pub record IsTop (ws top : List Text) : Type 0 where
  pub ordered : Ordered ws top
  pub within : (v : Text) → contains top v ≡ true → contains ws v ≡ true
  pub few : length top ≤ top_words_limit
  pub most :
      (v : Text)
      → contains ws v ≡ true
      → (contains top v ≡ true) ⊎ ((length top ≡ top_words_limit) × All (λ u. Precedes ws u v) top)

module _ (ws : List Text) where
  abbrev counted : Counts
  counted = count_words [] ws

  count_of-counted : (v : Text) → count_of counted v ≡ occurrences ws v
  count_of-counted v = omega (arith, count_of-count_words [] ws v, none-counted)
    where
      none-counted : count_of [] v ≡ 0
      none-counted = unfold count_of in refl

  Before-Precedes : (v w : Text) → Before counted v w → Precedes ws v w
  unfolding less
  Before-Precedes v w b = ground (arith, count_of-counted v, count_of-counted w)

  Sorted-Ordered : (vs : List Text) → Sorted counted vs → Ordered ws vs
  Sorted-Ordered [] s = tt
  Sorted-Ordered (v ∷ vs) (a, s) = (All-map _ _ vs (Before-Precedes v) a, Sorted-Ordered vs s)

  contains-keys : (v : Text) → contains (keys counted) v ≡ contains ws v
  contains-keys v = contains-count_words [] ws v ∙ (unfold contains in refl)

  module _ (range_order : List Text → List Text) (h : VisitsKeys range_order) where
    abbrev sorted : List Text
    sorted = sort_slice (less counted) (range_order (keys counted))

    sorted-Sorted : Sorted counted sorted
    sorted-Sorted =
        sort_slice-Sorted counted (range_order (keys counted))
          (h.once (keys counted) (count_words-Distinct [] ws tt))

    contains-sorted : (v : Text) → contains sorted v ≡ contains ws v
    contains-sorted v =
        contains-sort_slice counted (range_order (keys counted)) v
        ∙ h.visits (keys counted) v
        ∙ contains-keys v

    take-IsTop : IsTop ws (take top_words_limit sorted)
    take-IsTop = record {
      ordered = Sorted-Ordered _ (take-Sorted counted top_words_limit sorted sorted-Sorted);
      within = λ v c. sym (contains-sorted v) ∙ contains-take counted top_words_limit sorted v c;
      few = length-take-le top_words_limit sorted;
      most = λ v c.
          elim (take_complete counted top_words_limit sorted v sorted-Sorted
            (contains-sorted v ∙ c)) [
              | inl k ↦ inl k
              | inr (l, b) ↦
                  inr (l, All-map _ _ (take top_words_limit sorted) (λ u. Before-Precedes u v) b)
            ];
    }

-- `Top10` returns words of the text, at most ten, the more frequent before the less frequent and
-- equally frequent ones in the order of the strings; a word of the text is missing only where ten
-- others, all of which precede it, are returned.
pub top10-IsTop :
    (range_order : List Text → List Text)
    → VisitsKeys range_order
    → (text : Text) → IsTop (fields text) (top10 range_order text)
unfolding top10
top10-IsTop range_order h text = take-IsTop (fields text) range_order h

-- The result does not depend on the order in which the map is ranged over.
top10_range :
    (r r' : List Text → List Text)
    → VisitsKeys r
    → VisitsKeys r'
    → (text : Text) → top10 r text ≡ top10 r' text
unfolding top10
top10_range r r' h h' text = ap (take top_words_limit) (
    Sorted_unique (counted ws) (sorted ws r h) (sorted ws r' h') (sorted-Sorted ws r h)
      (sorted-Sorted ws r' h') (λ v. contains-sorted ws r h v ∙ sym (contains-sorted ws r' h' v)))
  where
    ws : List Text
    ws = fields text
