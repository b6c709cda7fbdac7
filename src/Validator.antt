-- ===== src/Validator.antt =====
-- hw09_struct_validator/validator.go. A struct is the list of its fields, as reflection shows them, and
-- a field's value has the type that its kind says. `strconv` and `regexp` are parameters. An error is
-- its sentinel: `%w` keeps it, and the rest of a message is left out.
pub mod Rules
pub mod Verdict
mod Tests
use golang_hw.Prelude.Int.{ℤ, pos, negsuc, leb_ℤ, eq_ℤ}
use golang_hw.Prelude.{
  ℕ, suc, ◌+◌, Bool, true, false, not, ◌&&◌, ◌||◌, Option, none, some, List, [], ◌∷◌, ◌++◌, ◌⊎◌,
  inl, inr, ◌==◌, if◌then◌else◌, length, map, Text, codes, text_eq, text_mem, split_on, cut,
  is_empty,
}

-- The kinds that the rules tell apart.
pub data Kind : Type 0 where
  int_kind string_kind other_kind : Kind

-- The values of a kind; those of the other kinds are never looked at.
abbrev pub ValueOf : Kind → Type 0
ValueOf int_kind = ℤ
ValueOf string_kind = Text
ValueOf other_kind = Unit

pub data Value : Type 0 where
  scalar : (k : Kind) → ValueOf k → Value
  slice : (k : Kind) → List (ValueOf k) → Value

pub record Field : Type 0 where
  pub name : Text
  pub exported : Bool
  -- `Tag.Lookup("validate")`
  pub tag : Option Text
  pub value : Value

-- What `Validate` is given.
pub data Input : Type 0 where
  struct : List Field → Input
  no_struct : Input

pub data Error : Type 0 where
  err_not_struct err_invalid_tag err_unsupported_type err_unsupported_validator : Error
  err_len err_regexp err_in err_min err_max : Error

-- With the index of the element, where the field is a slice.
pub record ValidationError : Type 0 where
  pub field : Text
  pub index : Option ℕ
  pub err : Error

abbrev pub Rule : Kind → Type 0
Rule k = ValueOf k → Option Error

pub data Outcome : Type 0 where
  valid : Outcome
  errors : List ValidationError → Outcome
  broken : Error → Outcome

-- `allowed[value]` for a map made of these numbers.
unfoldable pub int_mem : ℤ → List ℤ → Bool
int_mem n [] = false
int_mem n (m ∷ allowed) = eq_ℤ m n || int_mem n allowed

module _ (parse_int : Text → Option ℤ) (compile : Text → Option (Text → Bool)) where
  unfoldable pub new_string_length_rule : Text → Error ⊎ Rule string_kind
  new_string_length_rule argument = elim (parse_int argument) [
    | none ↦ inl err_invalid_tag
    | some (negsuc n) ↦ inl err_invalid_tag
    | some (pos want) ↦ inr (λ value. if length value == want then none else some err_len)
  ]

  -- The parameter stands for `regexp.Compile` and `MatchString` of the argument between `\A(` and
  -- `)\z`.
  unfoldable pub new_string_regexp_rule : Text → Error ⊎ Rule string_kind
  new_string_regexp_rule argument = elim (compile (codes "\\A(" ++ argument ++ codes ")\\z")) [
    | none ↦ inl err_invalid_tag
    | some matches ↦ inr (λ value. if matches value then none else some err_regexp)
  ]

  unfoldable pub new_string_in_rule : Text → Rule string_kind
  new_string_in_rule argument value =
      if text_mem value (split_on b',' argument) then none else some err_in

  unfoldable pub new_int_min_rule : Text → Error ⊎ Rule int_kind
  new_int_min_rule argument = elim (parse_int argument) [
    | none ↦ inl err_invalid_tag
    | some minimum ↦ inr (λ value. if leb_ℤ minimum value then none else some err_min)
  ]

  unfoldable pub new_int_max_rule : Text → Error ⊎ Rule int_kind
  new_int_max_rule argument = elim (parse_int argument) [
    | none ↦ inl err_invalid_tag
    | some maximum ↦ inr (λ value. if leb_ℤ value maximum then none else some err_max)
  ]

  -- The loop of `newIntInRule`.
  unfoldable pub parse_ints : List Text → Error ⊎ List ℤ
  parse_ints [] = inr []
  parse_ints (item ∷ items) = elim (parse_int item) [
    | none ↦ inl err_invalid_tag
    | some number ↦ elim (parse_ints items) [
      | inl err ↦ inl err
      | inr allowed ↦ inr (number ∷ allowed)
    ]
  ]

  unfoldable pub new_int_in_rule : Text → Error ⊎ Rule int_kind
  unfolding parse_ints int_mem
  new_int_in_rule argument = elim (parse_ints (split_on b',' argument)) [
    | inl err ↦ inl err
    | inr allowed ↦ inr (λ value. if int_mem value allowed then none else some err_in)
  ]

  -- The validators, and `default` for every other name.
  unfoldable pub parse_validation_rule : (name argument : Text) (k : Kind) → Error ⊎ Rule k
  parse_validation_rule name argument string_kind =
      if text_eq name (codes "len")
      then new_string_length_rule argument
      else if text_eq name (codes "regexp")
      then new_string_regexp_rule argument
      else if text_eq name (codes "in")
      then inr (new_string_in_rule argument)
      else if text_eq name (codes "min") || text_eq name (codes "max")
      then inl err_invalid_tag
      else inl err_unsupported_validator
  parse_validation_rule name argument int_kind =
      if text_eq name (codes "in")
      then new_int_in_rule argument
      else if text_eq name (codes "min")
      then new_int_min_rule argument
      else if text_eq name (codes "max")
      then new_int_max_rule argument
      else if text_eq name (codes "len") || text_eq name (codes "regexp")
      then inl err_invalid_tag
      else inl err_unsupported_validator
  parse_validation_rule name argument other_kind =
      if text_mem name (codes "len" ∷ codes "regexp" ∷ codes "in" ∷ codes "min" ∷ codes "max" ∷ [])
      then inl err_invalid_tag
      else inl err_unsupported_validator

  -- One round of the loop of `parseValidationRules`.
  unfoldable pub parse_raw_rule : Text → (k : Kind) → Error ⊎ Rule k
  parse_raw_rule raw k = elim (cut b':' raw) [
    | none ↦ inl err_invalid_tag
    | some (name, argument) ↦
        if is_empty name || is_empty argument
        then inl err_invalid_tag
        else parse_validation_rule name argument k
  ]

  unfoldable pub parse_raw_rules : List Text → (k : Kind) → Error ⊎ List (Rule k)
  parse_raw_rules [] k = inr []
  parse_raw_rules (raw ∷ raws) k = elim (parse_raw_rule raw k) [
    | inl err ↦ inl err
    | inr rule ↦ elim (parse_raw_rules raws k) [
      | inl err ↦ inl err
      | inr rules ↦ inr (rule ∷ rules)
    ]
  ]

  unfoldable pub parse_validation_rules : Text → (k : Kind) → Error ⊎ List (Rule k)
  parse_validation_rules tag k = parse_raw_rules (split_on b'|' tag) k

unfoldable pub kind_of : Value → Kind
kind_of (scalar k v) = k
kind_of (slice k vs) = k

unfoldable pub validated_kind : Value → Error ⊎ Kind
unfolding kind_of
validated_kind value = elim (kind_of value) [
  | int_kind ↦ inr int_kind
  | string_kind ↦ inr string_kind
  | other_kind ↦ inl err_unsupported_type
]

unfoldable pub validate_value :
    {A : Type 0} → Text → A → Option ℕ → List (A → Option Error) → List ValidationError
validate_value name value index [] = []
validate_value name value index (rule ∷ rules) =
    let rest = validate_value name value index rules in
    elim (rule value) [
      | none ↦ rest
      | some err ↦ record { field = name; index = index; err = err } ∷ rest
    ]

-- The loop over the elements, from this index on.
unfoldable pub validate_elements :
    {A : Type 0} → Text → ℕ → List A → List (A → Option Error) → List ValidationError
validate_elements name index [] rules = []
validate_elements name index (value ∷ values) rules =
    validate_value name value (some index) rules ++ validate_elements name (suc index) values rules

unfoldable pub validate_field :
    (name : Text) (value : Value) → List (Rule (kind_of value)) → List ValidationError
unfolding kind_of
validate_field name (scalar k value) rules = validate_value name value none rules
validate_field name (slice k values) rules = validate_elements name 0 values rules

module _ (parse_int : Text → Option ℤ) (compile : Text → Option (Text → Bool)) where
  -- The rules of a tag, checked on the value that carries it.
  unfoldable pub check_tagged : (name tag : Text) → Value → Error ⊎ List ValidationError
  check_tagged name tag value = elim (validated_kind value) [
    | inl err ↦ inl err
    | inr kind ↦ elim (parse_validation_rules parse_int compile tag (kind_of value)) [
      | inl err ↦ inl err
      | inr rules ↦ inr (validate_field name value rules)
    ]
  ]

  -- One round of the loop of `Validate`: the failures of the field, or the early return.
  unfoldable pub check_field : Field → Error ⊎ List ValidationError
  check_field f = elim f.exported [
    | false ↦ inr []
    | true ↦ elim f.tag [
      | none ↦ inr []
      | some tag ↦ if is_empty tag then inr [] else check_tagged f.name tag f.value
    ]
  ]

  unfoldable pub check_fields : List ValidationError → List Field → Outcome
  check_fields [] [] = valid
  check_fields (e ∷ es) [] = errors (e ∷ es)
  check_fields es (f ∷ fields) = elim (check_field f) [
    | inl err ↦ broken err
    | inr more ↦ check_fields (es ++ more) fields
  ]

  unfoldable pub validate : Input → Outcome
  validate no_struct = broken err_not_struct
  validate (struct fields) = check_fields [] fields
