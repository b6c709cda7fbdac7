-- ===== src/Validator/Verdict.antt =====
-- When hw09_struct_validator/validator.go accepts a struct.
use golang_hw.Validator.{
  Kind, int_kind, string_kind, other_kind, Value, scalar, slice, Field, struct, Error,
  err_unsupported_type, ValidationError, Rule, valid, kind_of, validated_kind,
  parse_validation_rules, validate_value, validate_elements, validate_field, check_tagged,
  check_field, check_fields, validate,
}
use golang_hw.Prelude.Int.{ℤ}
use golang_hw.Prelude.{
  subst, ℕ, suc, Bool, true, false, Option, none, some, List, [], ◌∷◌, ◌++◌, ◌≡◌, ◌≢◌, ◌↔◌, ◌⊎◌,
  inl, inr, arith, refl, All, Text, outcome-cases, Option-cases, Bool-cases, sym,
}

-- The value keeps every rule.
unfoldable pub Meets : {A : Type 0} → List (A → Option Error) → A → Type 0
Meets rules value = All (λ rule. rule value ≡ none) rules

-- A scalar keeps every rule, or each element of a slice does.
unfoldable pub MeetsAll : (value : Value) → List (Rule (kind_of value)) → Type 0
unfolding kind_of
MeetsAll (scalar k value) rules = Meets rules value
MeetsAll (slice k values) rules = All (Meets rules) values

-- A list of errors is empty.
unfoldable pub Clean : List ValidationError → Type 0
Clean [] = Unit
Clean (e ∷ es) = ⊥

Clean-append : (l k : List ValidationError) → (Clean (l ++ k)) ↔ (Clean l × Clean k)
unfolding Clean
Clean-append [] k = (λ h. (tt, h), λ h. h.1)
Clean-append (e ∷ l) k = (λ h. absurd h, λ h. absurd h.0)

value-Clean :
    {A : Type 0} (name : Text) (value : A) (index : Option ℕ) (rules : List (A → Option Error))
    → Clean (validate_value name value index rules) ↔ Meets rules value
unfolding validate_value Meets Clean
value-Clean name value index [] = (λ h. tt, λ h. tt)
value-Clean name value index (rule ∷ rules) =
    let r = value-Clean name value index rules in
    elim (Option-cases (rule value)) [
      | inl p ↦ rw (p) (λ h. (refl, r.0 h), λ h. r.1 h.1)
      | inr (err, p) ↦ rw (p) (λ h. absurd h, λ h. absurd (ground arith))
    ]

elements-Clean :
    {A : Type 0} (name : Text) (index : ℕ) (values : List A) (rules : List (A → Option Error))
    → Clean (validate_elements name index values rules) ↔ All (Meets rules) values
unfolding validate_elements Clean
elements-Clean name index [] rules = (λ h. tt, λ h. tt)
elements-Clean name index (value ∷ values) rules =
    let a =
      Clean-append (validate_value name value (some index) rules)
        (validate_elements name (suc index) values rules) in
    let v = value-Clean name value (some index) rules in
    let r = elements-Clean name (suc index) values rules in
    (λ h. (v.0 (a.0 h).0, r.0 (a.0 h).1), λ h. a.1 (v.1 h.0, r.1 h.1))

field-Clean :
    (name : Text) (value : Value) (rules : List (Rule (kind_of value)))
    → Clean (validate_field name value rules) ↔ MeetsAll value rules
unfolding validate_field MeetsAll kind_of
field-Clean name (scalar k value) rules = value-Clean name value none rules
field-Clean name (slice k values) rules = elements-Clean name 0 values rules

supported :
    (value : Value) → (kind_of value ≢ other_kind) → validated_kind value ≡ inr (kind_of value)
unfolding validated_kind
supported value h =
    elim (kind_of value)
        as (λ k.
          k ≢ other_kind
          → (elim k [
            | int_kind ↦ inr int_kind
            | string_kind ↦ inr string_kind
            | other_kind ↦ inl Error.err_unsupported_type
          ])
            ≡ inr k) [
              | int_kind ↦ λ p. refl
              | string_kind ↦ λ p. refl
              | other_kind ↦ λ p. absurd (p refl)
            ]
      h

kind-cases : (k : Kind) → (k ≡ other_kind) ⊎ (k ≢ other_kind)
kind-cases int_kind = inr (ground arith)
kind-cases string_kind = inr (ground arith)
kind-cases other_kind = inl refl

-- The result of a field without an error.
unfoldable pub Fine : Error ⊎ List ValidationError → Type 0
Fine (inl err) = ⊥
Fine (inr es) = Clean es

module _ (parse_int : Text → Option ℤ) (compile : Text → Option (Text → Bool)) where
  -- Its type is supported, the tag is well formed, and the value keeps every rule.
  unfoldable pub Keeps : (tag : Text) (value : Value) → Type 0
  Keeps tag value =
      (kind_of value ≢ other_kind)
      × (rules : List (Rule (kind_of value))) × (parse_validation_rules parse_int compile tag
            (kind_of value)
          ≡ inr rules)
      × MeetsAll value rules

  -- What a supported type leads to, and what another one does.
  check_tagged_supported :
      (name tag : Text) (value : Value) (rules : List (Rule (kind_of value)))
      → kind_of value ≢ other_kind
      → parse_validation_rules parse_int compile tag (kind_of value) ≡ inr rules
      → check_tagged parse_int compile name tag value ≡ inr (validate_field name value rules)
  unfolding check_tagged
  check_tagged_supported name tag value rules k p = rw (supported value k, p, check_tagged) refl

  check_tagged_malformed :
      (name tag : Text) (value : Value) (err : Error)
      → kind_of value ≢ other_kind
      → parse_validation_rules parse_int compile tag (kind_of value) ≡ inl err
      → check_tagged parse_int compile name tag value ≡ inl err
  unfolding check_tagged
  check_tagged_malformed name tag value err k p = rw (supported value k, p, check_tagged) refl

  check_tagged_unsupported :
      (name tag : Text) (value : Value)
      → kind_of value ≡ other_kind
      → check_tagged parse_int compile name tag value ≡ inl err_unsupported_type
  unfolding check_tagged validated_kind
  check_tagged_unsupported name tag value p = rw (p, check_tagged) refl

  tagged_to :
      (name tag : Text) (value : Value)
      → Fine (check_tagged parse_int compile name tag value)
      → Keeps tag value
  unfolding Fine Keeps
  tagged_to name tag value h = elim (kind-cases (kind_of value)) [
    | inl p ↦ absurd (subst Fine (check_tagged_unsupported name tag value p) h)
    | inr k ↦ elim (outcome-cases (parse_validation_rules parse_int compile tag (kind_of value))) [
      | inl (err, p) ↦ absurd (subst Fine (check_tagged_malformed name tag value err k p) h)
      | inr (rules, p) ↦ (
        k,
        rules,
        p,
        (field-Clean name value rules).0
            (subst Fine (check_tagged_supported name tag value rules k p) h),
      )
    ]
  ]

  tagged_from :
      (name tag : Text) (value : Value)
      → Keeps tag value
      → Fine (check_tagged parse_int compile name tag value)
  unfolding Fine Keeps
  tagged_from name tag value (k, rules, p, m) =
      subst Fine (sym (check_tagged_supported name tag value rules k p))
        ((field-Clean name value rules).1 m)

  -- The field is not exported, or its tag is missing or empty, or it keeps its tag.
  unfoldable pub Passes : Field → Type 0
  unfolding Keeps
  Passes f =
      (f.exported ≡ false)
      ⊎ (f.tag ≡ none)
      ⊎ (f.tag ≡ some [])
      ⊎ ((tag : Text) × (f.tag ≡ some tag) × Keeps tag f.value)

  check_field_tagged :
      (f : Field) (c : ℕ) (tag : Text)
      → f.exported ≡ true
      → f.tag ≡ some (c ∷ tag)
      → check_field parse_int compile f ≡ check_tagged parse_int compile f.name (c ∷ tag) f.value
  unfolding check_field
  check_field_tagged f c tag p q = rw (p, q) refl

  check_field_skipped :
      (f : Field)
      → (f.exported ≡ false) ⊎ (f.tag ≡ none) ⊎ (f.tag ≡ some [])
      → check_field parse_int compile f ≡ inr []
  unfolding check_field
  check_field_skipped f h = ground arith

  field_to : (f : Field) → Fine (check_field parse_int compile f) → Passes f
  unfolding Passes
  field_to f h = elim (Bool-cases f.exported) [
    | inr p ↦ inl p
    | inl p ↦ elim (Option-cases f.tag) [
      | inl q ↦ inr (inl q)
      | inr ([], q) ↦ inr (inr (inl q))
      | inr (c ∷ tag, q) ↦ inr (
          inr (
            inr (
              c ∷ tag,
              q,
              tagged_to f.name (c ∷ tag) f.value (subst Fine (check_field_tagged f c tag p q) h),
            )))
    ]
  ]

  skipped-Fine :
      (f : Field)
      → (f.exported ≡ false) ⊎ (f.tag ≡ none) ⊎ (f.tag ≡ some [])
      → Fine (check_field parse_int compile f)
  unfolding Fine Clean
  skipped-Fine f h = subst Fine (sym (check_field_skipped f h)) tt

  field_from : (f : Field) → Passes f → Fine (check_field parse_int compile f)
  unfolding Passes
  field_from f (inl p) = skipped-Fine f (inl p)
  field_from f (inr (inl p)) = skipped-Fine f (inr (inl p))
  field_from f (inr (inr (inl p))) = skipped-Fine f (inr (inr p))
  field_from f (inr (inr (inr ([], p, k)))) = skipped-Fine f (inr (inr p))
  field_from f (inr (inr (inr (c ∷ tag, p, k)))) = elim (Bool-cases f.exported) [
    | inr q ↦ skipped-Fine f (inl q)
    | inl q ↦
        subst Fine (sym (check_field_tagged f c tag q p)) (tagged_from f.name (c ∷ tag) f.value k)
  ]

  fields_to :
      (es : List ValidationError) (fields : List Field)
      → check_fields parse_int compile es fields ≡ valid
      → Clean es × All Passes fields
  unfolding check_fields Clean Fine
  fields_to [] [] h = (tt, tt)
  fields_to (e ∷ es) [] h = absurd (ground arith)
  fields_to es (f ∷ fields) h = elim (outcome-cases (check_field parse_int compile f)) [
    | inl (err, p) ↦ absurd (ground arith)
    | inr (more, p) ↦
        let r = fields_to (es ++ more) fields (ground arith) in
        let c = (Clean-append es more).0 r.0 in (c.0, (field_to f (subst Fine (sym p) c.1), r.1))
  ]

  fields_from :
      (es : List ValidationError) (fields : List Field)
      → Clean es
      → All Passes fields
      → check_fields parse_int compile es fields ≡ valid
  unfolding check_fields Clean Fine
  fields_from [] [] c h = refl
  fields_from (e ∷ es) [] c h = absurd c
  fields_from es (f ∷ fields) c (p, h) = elim (outcome-cases (check_field parse_int compile f)) [
    | inl (err, q) ↦ absurd (subst Fine q (field_from f p))
    | inr (more, q) ↦
        rw (q, check_fields)
          (fields_from (es ++ more) fields
            ((Clean-append es more).1 (c, subst Fine q (field_from f p))) h)
  ]

  -- `Validate` returns nil exactly for a struct each of whose fields is not exported, or has no tag
  -- or an empty one, or has a supported type and a well-formed tag, and its value, or every element
  -- of it, keeps every rule of the tag.
  pub validate-Passes :
      (fields : List Field)
      → (validate parse_int compile (struct fields) ≡ valid) ↔ All Passes fields
  unfolding validate Clean
  validate-Passes fields = (λ h. (fields_to [] fields h).1, λ h. fields_from [] fields tt h)
