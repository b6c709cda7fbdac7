-- ===== src/Envdir/Merge.antt =====
-- The environment that hw08_envdir_tool/executor.go gives to the command.
use golang_hw.Envdir.{
  EnvValue, Environment, find, variable_name, is_some, inherited, added, merge_environment,
  strip_prefix, lookup_environment,
}
use golang_hw.Prelude.{
  ℕ, true, false, Option, none, some, List, [], ◌∷◌, ◌++◌, ◌==◌, ◌≡◌, arith, refl, All, Text,
  text_eq, text_eq_iff, cut, Avoids, if◌then◌else◌, Option-cases, Bool-cases, inl, inr, ◌∙◌, ap,
}

-- No name occurs twice.
unfoldable pub Unique : Environment → Type 0
Unique [] = Unit
Unique ((name, v) ∷ env) = (find env name ≡ none) × Unique env

-- What an entry says of its variable, and what stands without one.
unfoldable pub overridden : Option EnvValue → Option Text → Option Text
overridden none inherited = inherited
overridden (some v) inherited = if v.need_remove then none else some v.value

abbrev or_else : Option Text → Option Text → Option Text
or_else none b = b
or_else (some a) b = some a

lookup-append :
    (a b : List Text) (name : Text)
    → lookup_environment (a ++ b) name
      ≡ or_else (lookup_environment b name) (lookup_environment a name)
unfolding lookup_environment
lookup-append [] b name = ground arith
lookup-append (v ∷ a) b name = ground (arith, lookup-append a b name)

strip_written :
    (name n v : Text)
    → Avoids b'=' name
    → Avoids b'=' n
    → strip_prefix (name ++ b'=' ∷ []) (n ++ b'=' ∷ v) ≡ (if text_eq n name then some v else none)
unfolding strip_prefix text_eq
strip_written [] [] v h k = refl
strip_written [] (c ∷ n) v h (p, k) = ground arith
strip_written (d ∷ name) [] v (p, h) k = ground arith
strip_written (d ∷ name) (c ∷ n) v (p, h) (q, k) = ground (arith, strip_written name n v h k)

variable_name-equals : (c : ℕ) (s : Text) → (c == b'=') ≡ true → variable_name (c ∷ s) ≡ []
unfolding variable_name cut
variable_name-equals c s h = ground arith

variable_name-other :
    (c : ℕ) (s : Text) → (c == b'=') ≡ false → variable_name (c ∷ s) ≡ c ∷ variable_name s
unfolding variable_name cut
variable_name-other c s h = elim (Option-cases (cut b'=' s)) [
  | inl p ↦ ground arith
  | inr ((n, v), p) ↦ ground arith
]

-- A variable with another name does not start with this one.
strip_other :
    (name variable : Text)
    → Avoids b'=' name
    → text_eq (variable_name variable) name ≡ false
    → strip_prefix (name ++ b'=' ∷ []) variable ≡ none
unfolding strip_prefix text_eq
strip_other [] [] h e = refl
strip_other (d ∷ name) [] h e = refl
strip_other [] (c ∷ s) h e = ground (arith, variable_name-equals c s)
strip_other (d ∷ name) (c ∷ s) (p, h) e =
    ground (arith, variable_name-other c s, strip_other name s h)

find_same : (env : Environment) (n name : Text) → text_eq n name ≡ true → find env n ≡ find env name
find_same env n name h = ap (find env) ((text_eq_iff n name).0 h)

-- What the parent hands on: a variable without an entry.
lookup-inherited :
    (overrides : Environment) (parent : List Text) (name : Text)
    → Avoids b'=' name
    → lookup_environment (inherited overrides parent) name
      ≡ (if is_some (find overrides name) then none else lookup_environment parent name)
unfolding lookup_environment inherited
lookup-inherited overrides [] name h = ground arith
lookup-inherited overrides (v ∷ parent) name h =
    elim (Bool-cases (text_eq (variable_name v) name)) [
      | inl p ↦ ground (
        arith,
        lookup-inherited overrides parent name h,
        find_same overrides (variable_name v) name p,
      )
      | inr p ↦ ground (arith, lookup-inherited overrides parent name h, strip_other name v h p)
    ]

lookup-added :
    (overrides : Environment) (name : Text)
    → Unique overrides
    → All (λ e. Avoids b'=' e.0) overrides
    → Avoids b'=' name
    → lookup_environment (added overrides) name ≡ overridden (find overrides name) none
unfolding lookup_environment added overridden find Unique
lookup-added [] name u k h = refl
lookup-added ((n, v) ∷ overrides) name (f, u) (a, k) h = elim (Bool-cases (text_eq n name)) [
  | inl p ↦ ground (
    arith,
    lookup-added overrides name u k h,
    strip_written name n v.value h a,
    find_same overrides n name p,
  )
  | inr p ↦ ground (arith, lookup-added overrides name u k h, strip_written name n v.value h a)
]

-- A command that looks a variable up in its environment finds what the entry for it says, nothing
-- where the entry removes it, and the parent's value where there is no entry; names have no `=`, and
-- the order in which the entries are visited does not matter.
pub lookup-merge_environment :
    (parent : List Text) (overrides : Environment) (name : Text)
    → Unique overrides
    → All (λ e. Avoids b'=' e.0) overrides
    → Avoids b'=' name
    → lookup_environment (merge_environment parent overrides) name
      ≡ overridden (find overrides name) (lookup_environment parent name)
unfolding merge_environment overridden
lookup-merge_environment parent overrides name u k h =
    lookup-append (inherited overrides parent) (added overrides) name
    ∙ ground (arith, lookup-inherited overrides parent name h, lookup-added overrides name u k h)
