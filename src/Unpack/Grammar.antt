-- ===== src/Unpack/Grammar.antt =====
-- Packed texts as sequences of blocks: a symbol, behind a backslash or not, with a digit or not.
use golang_hw.Prelude.{
  ℕ, zero, suc, ◌≤◌, ◌≡◌, ◌≢◌, ◌↔◌, refl, sym, ap, Bool, true, false, ◌||◌, Option, none, some,
  List, [], ◌∷◌, ◌++◌, ◌==◌, if◌then◌else◌, length, replicate, Text, All, arith, inl, inr,
  append_assoc, append-nil, ◌∙◌, length-append, Bool-cases, Option-cases, subst,
}
use golang_hw.Unpack.{
  ok, invalid_string, out_of_fuel, backslash, atoi, repeat_block, escaped, round, loop, unpack,
}

-- A symbol with the digit that counts it, if there is one.
pub record Block : Type 0 where
  pub symbol : ℕ
  pub is_escaped : Bool
  pub count : Option ℕ

abbrev pub print_count : Option ℕ → Text
print_count none = []
print_count (some d) = d ∷ []

-- The block as it is written, and what it stands for.
abbrev pub print : Block → Text
print b =
    if b.is_escaped
    then backslash ∷ b.symbol ∷ print_count b.count
    else b.symbol ∷ print_count b.count

abbrev pub times : Option ℕ → ℕ
times none = 1
times (some d) = elim (atoi d) [ none ↦ 0 | some n ↦ n ]

abbrev pub expand : Block → Text
expand b = replicate (times b.count) b.symbol

abbrev pub print_all : List Block → Text
print_all [] = []
print_all (b ∷ bs) = print b ++ print_all bs

abbrev pub expand_all : List Block → Text
expand_all [] = []
expand_all (b ∷ bs) = expand b ++ expand_all bs

print-pos : (b : Block) → 1 ≤ length (print b)
print-pos b = elim (Bool-cases b.is_escaped) [
  | inl e ↦ rw e (omega arith)
  | inr e ↦ rw e (omega arith)
]

module _ (is_digit : ℕ → Bool) where
  abbrev pub IsCount : Option ℕ → Type 0
  IsCount none = Unit
  IsCount (some d) = (is_digit d ≡ true) × (n : ℕ) × (atoi d ≡ some n)

  -- Digits and backslashes are symbols behind a backslash, all other runes without one.
  pub record IsBlock (b : Block) : Type 0 where
    pub symbol : (is_digit b.symbol || b.symbol == backslash) ≡ b.is_escaped
    pub count : IsCount b.count

  -- What follows a block without a digit does not begin with one.
  abbrev Follows : Text → Type 0
  Follows [] = Unit
  Follows (c ∷ s) = is_digit c ≡ false

  loop_step :
      (fuel : ℕ) (result : Text) (c : ℕ) (s w left : Text)
      → round is_digit c s ≡ some (w, left)
      → loop is_digit (suc fuel) result (c ∷ s) ≡ loop is_digit fuel (result ++ w) left
  unfolding loop
  loop_step fuel result c s w left e = rw (e, loop)

  loop_stop :
      (fuel : ℕ) (result : Text) (c : ℕ) (s : Text)
      → round is_digit c s ≡ none
      → loop is_digit (suc fuel) result (c ∷ s) ≡ invalid_string
  unfolding loop
  loop_stop fuel result c s e = rw (e, loop)

  module _ (no_digit : is_digit backslash ≡ false) where
    print_all-Follows : (bs : List Block) → All IsBlock bs → Follows (print_all bs)
    print_all-Follows [] h = tt
    print_all-Follows (b ∷ bs) (p, h) = elim (Bool-cases b.is_escaped) [
      | inl e ↦ rw e no_digit
      | inr e ↦ rw e (ground (arith, p.symbol))
    ]

    repeat_block-print :
        (c : ℕ) (k : Option ℕ) (rest : Text)
        → IsCount k
        → Follows rest
        → repeat_block is_digit c (print_count k ++ rest) ≡ some (replicate (times k) c, rest)
    unfolding repeat_block
    repeat_block-print c none [] h f = refl
    repeat_block-print c none (d ∷ rest) h f = rw f
    repeat_block-print c (some d) rest (h, n, e) f = ground (arith, h, e)

    round-print :
        (b : Block) (rest : Text)
        → IsBlock b
        → Follows rest
        → (c : ℕ) × (s : Text) × (print b ++ rest ≡ c ∷ s)
          × (round is_digit c s ≡ some (expand b, rest))
    unfolding round escaped
    round-print b rest p f = elim (Bool-cases b.is_escaped) [
      | inl e ↦ (
        backslash,
        b.symbol ∷ (print_count b.count ++ rest),
        rw e,
        ground (arith, no_digit, p.symbol, repeat_block-print b.symbol b.count rest p.count f),
      )
      | inr e ↦ (
        b.symbol,
        print_count b.count ++ rest,
        rw e,
        ground (arith, p.symbol, repeat_block-print b.symbol b.count rest p.count f),
      )
    ]

    loop-print_all :
        (fuel : ℕ) (result : Text) (bs : List Block)
        → All IsBlock bs
        → length (print_all bs) ≤ fuel
        → loop is_digit fuel result (print_all bs) ≡ ok (result ++ expand_all bs)
    unfolding loop
    loop-print_all zero result [] h l = ap ok (sym (append-nil result))
    loop-print_all (suc fuel) result [] h l = ap ok (sym (append-nil result))
    loop-print_all zero result (b ∷ bs) (p, h) l =
        let (c, s, e, r) = round-print b (print_all bs) p (print_all-Follows bs h) in
        absurd (omega (arith, ap length e))
    loop-print_all (suc fuel) result (b ∷ bs) (p, h) l =
        let (c, s, e, r) = round-print b (print_all bs) p (print_all-Follows bs h) in
        let shorter : length (print_all bs) ≤ fuel =
          omega (arith, ap length e, length-append (print b) (print_all bs), print-pos b) in
        rw e (
          loop_step fuel result c s (expand b) (print_all bs) r
          ∙ loop-print_all fuel (result ++ expand b) bs h shorter
          ∙ ap ok (append_assoc result (expand b) (expand_all bs)))

    -- Every sequence of blocks, written down, is unpacked into what the blocks stand for.
    pub unpack-print_all :
        (bs : List Block) → All IsBlock bs → unpack is_digit (print_all bs) ≡ ok (expand_all bs)
    unfolding unpack
    unpack-print_all bs h = loop-print_all _ [] bs h (omega arith)

  repeat_block_sound :
      (c : ℕ) (s w left : Text)
      → repeat_block is_digit c s ≡ some (w, left)
      → (k : Option ℕ) × IsCount k × (print_count k ++ left ≡ s) × (w ≡ replicate (times k) c)
  unfolding repeat_block
  repeat_block_sound c [] w left e = (none, tt, ground arith, ground arith)
  repeat_block_sound c (d ∷ rest) w left e = elim (Bool-cases (is_digit d)) [
    | inl digit ↦ elim (Option-cases (atoi d)) [
      | inl bad ↦ absurd (ground arith)
      | inr (n, good) ↦ (some d, (digit, n, good), ground arith, ground arith)
    ]
    | inr other ↦ (none, tt, ground arith, ground arith)
  ]

  round_sound :
      (c : ℕ) (s w left : Text)
      → round is_digit c s ≡ some (w, left)
      → (b : Block) × IsBlock b × (print b ++ left ≡ c ∷ s) × (w ≡ expand b)
  unfolding round escaped
  round_sound c [] w left e = (
    record { symbol = c; is_escaped = false; count = none },
    record { symbol = ground arith; count = tt },
    ground (arith, repeat_block_sound c [] w left),
    ground (arith, repeat_block_sound c [] w left),
  )
  round_sound c (d ∷ s) w left e = elim (Bool-cases (c == backslash)) [
    | inl slash ↦
        let (k, count, q, r) = repeat_block_sound d s w left (ground arith) in
        (
          record { symbol = d; is_escaped = true; count = k },
          record { symbol = ground arith; count = count },
          ground arith,
          r,
        )
    | inr plain ↦
        let (k, count, q, r) = repeat_block_sound c (d ∷ s) w left (ground arith) in
        (
          record { symbol = c; is_escaped = false; count = k },
          record { symbol = ground arith; count = count },
          ground arith,
          r,
        )
  ]

  round-shorter :
      (c : ℕ) (s w left : Text) → round is_digit c s ≡ some (w, left) → length left ≤ length s
  round-shorter c s w left e =
      let (b, p, q, r) = round_sound c s w left e in
      omega (arith, ap length q, length-append (print b) left, print-pos b)

  -- The text is written in blocks, and stands for `t`.
  pub record Stands (s t : Text) : Type 0 where
    pub blocks : List Block
    pub valid : All IsBlock blocks
    pub printed : print_all blocks ≡ s
    pub expanded : expand_all blocks ≡ t

  loop_sound :
      (fuel : ℕ) (result s t : Text)
      → loop is_digit fuel result s ≡ ok t
      → (u : Text) × Stands s u × (t ≡ result ++ u)
  unfolding loop
  loop_sound zero result [] t e = (
    [],
    record { blocks = []; valid = tt; printed = refl; expanded = refl },
    ground (arith, append-nil result),
  )
  loop_sound (suc fuel) result [] t e = (
    [],
    record { blocks = []; valid = tt; printed = refl; expanded = refl },
    ground (arith, append-nil result),
  )
  loop_sound zero result (c ∷ s) t e = absurd (ground arith)
  loop_sound (suc fuel) result (c ∷ s) t e = elim (Option-cases (round is_digit c s)) [
    | inl bad ↦ absurd (ground (arith, loop_stop fuel result c s bad))
    | inr ((w, left), good) ↦
        let (u, st, q) =
          loop_sound fuel (result ++ w) left t (sym (loop_step fuel result c s w left good) ∙ e) in
        let (b, p, printed, r) = round_sound c s w left good in
        (
          w ++ u,
          record {
            blocks = b ∷ st.blocks;
            valid = (p, st.valid);
            printed = ap (λ z. print b ++ z) st.printed ∙ printed;
            expanded = ground (arith, r, st.expanded);
          },
          q ∙ append_assoc result w u,
        )
  ]

  loop-ne-out_of_fuel :
      (fuel : ℕ) (result s : Text) → length s ≤ fuel → loop is_digit fuel result s ≢ out_of_fuel
  unfolding loop
  loop-ne-out_of_fuel zero result [] l = cc
  loop-ne-out_of_fuel (suc fuel) result [] l = cc
  loop-ne-out_of_fuel zero result (c ∷ s) l = absurd (omega arith)
  loop-ne-out_of_fuel (suc fuel) result (c ∷ s) l = elim (Option-cases (round is_digit c s)) [
    | inl bad ↦ λ e. absurd (ground (arith, loop_stop fuel result c s bad))
    | inr ((w, left), good) ↦ λ e.
        loop-ne-out_of_fuel fuel (result ++ w) left (omega (arith, round-shorter c s w left good))
          (sym (loop_step fuel result c s w left good) ∙ e)
  ]

  -- If the backslash is no digit, `Unpack` ends on every text, and gives the text t exactly where the
  -- input is written in blocks that stand for t: each a symbol with at most one digit behind it,
  -- where a digit or a backslash is a symbol only behind a backslash. All other inputs are
  -- ErrInvalidString.
  pub unpack-Stands :
      (is_digit backslash ≡ false)
      → (s : Text)
      → ((t : Text) → (unpack is_digit s ≡ ok t) ↔ Stands s t) × (unpack is_digit s ≢ out_of_fuel)
  unfolding unpack
  unpack-Stands no_digit s = (
    (λ t. (
      (λ e. let (u, st, q) = loop_sound (length s) [] s t e in subst (Stands s) (sym q) st),
      λ st.
          subst (λ z. unpack is_digit z ≡ ok t) st.printed
            (unpack-print_all no_digit st.blocks st.valid ∙ ap ok st.expanded),
    )),
    loop-ne-out_of_fuel (length s) [] s (omega arith),
  )
