-- ===== src/Validator/Rules.antt =====
-- Which tags hw09_struct_validator/validator.go reads, and what it says of the names in them.
use golang_hw.Validator.{
  Kind, int_kind, string_kind, other_kind, Error, err_unsupported_validator, Rule,
  new_string_length_rule, new_string_regexp_rule, new_int_in_rule, new_int_min_rule,
  new_int_max_rule, parse_ints, parse_validation_rule, parse_raw_rule, parse_raw_rules,
  parse_validation_rules,
}
use golang_hw.Prelude.Int.{ℤ}
use golang_hw.Prelude.{
  Bool, false, Option, List, [], ◌∷◌, ◌++◌, ◌≡◌, ◌≢◌, ◌↔◌, ◌⊎◌, inl, inr, arith, refl, All, Text,
  codes, text_mem, is_empty, join, split_on, split_on-join, cut-append, Avoids, map,
}

abbrev pub known : List Text
known = codes "len" ∷ codes "regexp" ∷ codes "in" ∷ codes "min" ∷ codes "max" ∷ []

-- A rule as it stands in a tag: its name and its argument.
abbrev pub rule_text : Text × Text → Text
rule_text (name, argument) = name ++ b':' ∷ argument

-- Neither part is empty, the name has no `:`, and the rule no `|`.
unfoldable pub IsWritten : Text × Text → Type 0
IsWritten (name, argument) =
    (is_empty name ≡ false)
    × (is_empty argument ≡ false)
    × Avoids b':' name
    × Avoids b'|' (name ++ b':' ∷ argument)

module _ (parse_int : Text → Option ℤ) (compile : Text → Option (Text → Bool)) where
  -- The rules of these names and arguments, up to the first that is refused.
  unfoldable pub rules_of : List (Text × Text) → (k : Kind) → Error ⊎ List (Rule k)
  rules_of [] k = inr []
  rules_of ((name, argument) ∷ rest) k =
      elim (parse_validation_rule parse_int compile name argument k) [
        | inl err ↦ inl err
        | inr rule ↦ elim (rules_of rest k) [ inl err ↦ inl err | inr rules ↦ inr (rule ∷ rules) ]
      ]

  parse_raw_rule-rule_text :
      (r : Text × Text) (k : Kind)
      → IsWritten r
      → parse_raw_rule parse_int compile (rule_text r) k
        ≡ parse_validation_rule parse_int compile r.0 r.1 k
  unfolding parse_raw_rule IsWritten
  parse_raw_rule-rule_text (name, argument) k (p, q, c, d) =
      rw (cut-append b':' name argument c, p, q, parse_raw_rule) refl

  parse_raw_rules-map :
      (rs : List (Text × Text)) (k : Kind)
      → All IsWritten rs
      → parse_raw_rules parse_int compile (map rule_text rs) k ≡ rules_of rs k
  unfolding parse_raw_rules rules_of
  parse_raw_rules-map [] k h = refl
  parse_raw_rules-map (r ∷ rs) k (p, h) =
      ground (arith, parse_raw_rule-rule_text r k p, parse_raw_rules-map rs k h)

  written : (rs : List (Text × Text)) → All IsWritten rs → All (Avoids b'|') (map rule_text rs)
  unfolding IsWritten
  written [] h = tt
  written ((name, argument) ∷ rs) ((p, q, c, d), h) = (d, written rs h)

  -- A tag that joins one or more rules by `|`, each a name and an argument around a `:`, none of them
  -- empty, with no `:` in a name and no `|` in a rule, is read as these rules in their order.
  pub parse_validation_rules-join :
      (r : Text × Text) (rs : List (Text × Text)) (k : Kind)
      → All IsWritten (r ∷ rs)
      → parse_validation_rules parse_int compile (join b'|' (map rule_text (r ∷ rs))) k
        ≡ rules_of (r ∷ rs) k
  unfolding parse_validation_rules
  parse_validation_rules-join r rs k h =
      rw (split_on-join b'|' (rule_text r) (map rule_text rs) (written (r ∷ rs) h))
        (parse_raw_rules-map (r ∷ rs) k h)

  parse_ints_error :
      (items : List Text) → parse_ints parse_int compile items ≢ inl err_unsupported_validator
  unfolding parse_ints
  parse_ints_error [] = ground arith
  parse_ints_error (item ∷ items) = ground (arith, parse_ints_error items)

  int_in_error :
      (argument : Text) → new_int_in_rule parse_int compile argument ≢ inl err_unsupported_validator
  unfolding new_int_in_rule
  int_in_error argument = ground (arith, parse_ints_error (split_on b',' argument))

  int_min_error :
      (argument : Text)
      → new_int_min_rule parse_int compile argument ≢ inl err_unsupported_validator
  unfolding new_int_min_rule
  int_min_error argument = ground arith

  int_max_error :
      (argument : Text)
      → new_int_max_rule parse_int compile argument ≢ inl err_unsupported_validator
  unfolding new_int_max_rule
  int_max_error argument = ground arith

  length_error :
      (argument : Text)
      → new_string_length_rule parse_int compile argument ≢ inl err_unsupported_validator
  unfolding new_string_length_rule
  length_error argument = ground arith

  regexp_error :
      (argument : Text)
      → new_string_regexp_rule parse_int compile argument ≢ inl err_unsupported_validator
  unfolding new_string_regexp_rule
  regexp_error argument = ground arith

  -- `parseValidationRule` says that a validator is not supported exactly for a name that is none of
  -- len, regexp, in, min and max, whatever the argument and the kind.
  parse_validation_rule-known :
      (name argument : Text) (k : Kind)
      → (parse_validation_rule parse_int compile name argument k ≡ inl err_unsupported_validator)
        ↔ (text_mem name known ≡ false)
  unfolding parse_validation_rule text_mem
  parse_validation_rule-known name argument int_kind =
      ground (arith, int_in_error argument, int_min_error argument, int_max_error argument)
  parse_validation_rule-known name argument string_kind =
      ground (arith, length_error argument, regexp_error argument)
  parse_validation_rule-known name argument other_kind = ground arith
