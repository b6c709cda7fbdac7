-- ===== src/Validator/Tests.antt =====
-- Fields with rules about their length and their numbers.
use golang_hw.Prelude.Int.{ℤ, pos}
use golang_hw.Prelude.{
  ◌-◌, Bool, true, Option, none, some, List, [], ◌∷◌, ◌≡◌, ◌↔◌, refl, All, Text, codes, join, map,
  text_eq, split_on, cut,
}
use golang_hw.Validator.Rules.{rule_text, IsWritten, rules_of, parse_validation_rules-join}
use golang_hw.Validator.Verdict.{Passes, validate-Passes}
use golang_hw.Validator.{
  int_kind, string_kind, scalar, slice, Field, struct, err_max, valid, errors,
  parse_validation_rule, parse_validation_rules, parse_raw_rules, parse_raw_rule,
  new_string_length_rule, new_int_max_rule, kind_of, validated_kind, validate_value,
  validate_elements, validate_field, check_tagged, check_field, check_fields, validate,
}

program : Unit {0}
unfolding validate check_fields check_field check_tagged validated_kind kind_of
    parse_validation_rules parse_raw_rules parse_raw_rule parse_validation_rule
    new_string_length_rule new_int_max_rule validate_field validate_value validate_elements split_on
    cut text_eq IsWritten
program = tt

-- Numbers of one digit, and no regular expressions.
abbrev digit : Text → Option ℤ
digit (c ∷ []) = some (pos (c - b'0'))
digit _ = none

abbrev compile : Text → Option (Text → Bool)
compile expression = none

abbrev name : Field
name = record {
  name = codes "Name";
  exported = true;
  tag = some (codes "len:3");
  value = scalar string_kind (codes "abc");
}

abbrev marks : Field
marks = record {
  name = codes "Marks";
  exported = true;
  tag = some (codes "max:5");
  value = slice int_kind (pos 4 ∷ pos 9 ∷ []);
}

accepted : validate digit compile (struct (name ∷ [])) ≡ valid
unfolding program
accepted = refl

-- The second element is too large.
refused :
    validate digit compile (struct (name ∷ marks ∷ []))
    ≡ errors (record { field = codes "Marks"; index = some 1; err = err_max } ∷ [])
unfolding program
refused = refl

validate-Passes_example :
    (validate digit compile (struct (name ∷ [])) ≡ valid) ↔ All (Passes digit compile) (name ∷ [])
validate-Passes_example = validate-Passes digit compile (name ∷ [])

abbrev rules : List (Text × Text)
rules = (codes "max", codes "5") ∷ []

parse_validation_rules-join_example :
    parse_validation_rules digit compile
      (join b'|' (map rule_text ((codes "min", codes "1") ∷ rules)))
      int_kind
    ≡ rules_of digit compile ((codes "min", codes "1") ∷ rules) int_kind
unfolding program
parse_validation_rules-join_example =
    parse_validation_rules-join digit compile (codes "min", codes "1") rules int_kind
      (
        (refl, refl, (refl, (refl, (refl, tt))), (refl, (refl, (refl, (refl, (refl, tt)))))),
        ((refl, refl, (refl, (refl, (refl, tt))), (refl, (refl, (refl, (refl, (refl, tt)))))), tt),
      )
