-- ===== src/Envdir/Names.antt =====
-- The names in the environment that hw08_envdir_tool/env_reader.go reads.
use golang_hw.Envdir.{
  EnvValue, Environment, find, assign, Entry, parse_value, has_equals, read_entries, read_dir,
}
use golang_hw.Envdir.Merge.{Unique}
use golang_hw.Prelude.{
  subst, false, ◌||◌, Option, none, some, List, [], ◌∷◌, ◌≡◌, arith, refl, All, Text, text_eq,
  text_eq_iff, text_eq_refl, Avoids, Option-cases, Bool-cases, inl, inr, ap, ◌∙◌,
}

-- Each name once, and none with `=`.
unfoldable pub IsNamed : Environment → Type 0
IsNamed env = Unique env × All (λ e. Avoids b'=' e.0) env

has_equals-Avoids : (s : Text) → has_equals s ≡ false → Avoids b'=' s
unfolding has_equals
has_equals-Avoids [] h = tt
has_equals-Avoids (c ∷ s) h = (ground arith, has_equals-Avoids s (ground arith))

find-assign :
    (n name : Text) (v : EnvValue) (env : Environment)
    → text_eq n name ≡ false
    → find (assign n v env) name ≡ find env name
unfolding find assign
find-assign n name v [] p = ground arith
find-assign n name v ((m, w) ∷ env) p = elim (Bool-cases (text_eq m n)) [
  | inl q ↦
      ground (arith, find-assign n name v env p, ap (λ t. text_eq t name) ((text_eq_iff m n).0 q))
  | inr q ↦ ground (arith, find-assign n name v env p)
]

text_eq-flip : (s t : Text) → text_eq s t ≡ false → text_eq t s ≡ false
text_eq-flip s t h = elim (Bool-cases (text_eq t s)) [
  | inr p ↦ p
  | inl p ↦ ground (arith, text_eq_refl s, ap (text_eq s) ((text_eq_iff t s).0 p))
]

assign-Unique : (n : Text) (v : EnvValue) (env : Environment) → Unique env → Unique (assign n v env)
unfolding Unique assign find
assign-Unique n v [] u = (refl, tt)
assign-Unique n v ((m, w) ∷ env) (f, u) = elim (Bool-cases (text_eq m n)) [
  | inl q ↦ rw (q) (f, u)
  | inr q ↦ rw (q) (find-assign n m v env (text_eq-flip m n q) ∙ f, assign-Unique n v env u)
]

assign-Avoids :
    (n : Text) (v : EnvValue) (env : Environment)
    → Avoids b'=' n
    → All (λ e. Avoids b'=' e.0) env
    → All (λ e. Avoids b'=' e.0) (assign n v env)
unfolding assign
assign-Avoids n v [] a h = (a, tt)
assign-Avoids n v ((m, w) ∷ env) a (b, h) = elim (Bool-cases (text_eq m n)) [
  | inl q ↦ rw (q) (b, h)
  | inr q ↦ rw (q) (b, assign-Avoids n v env a h)
]

read_entries-IsNamed :
    (env : Environment) (entries : List Entry) (result : Environment)
    → read_entries env entries ≡ some result
    → IsNamed env
    → IsNamed result
unfolding read_entries IsNamed
read_entries-IsNamed env [] result e h = subst IsNamed {x = env} {y = result} (ground arith) h
read_entries-IsNamed env (entry ∷ entries) result e (u, a) =
    elim (Bool-cases (entry.is_dir || has_equals entry.name)) [
      | inl p ↦ read_entries-IsNamed env entries result (ground arith) (u, a)
      | inr p ↦ elim (Option-cases entry.content) [
        | inl q ↦ absurd (ground arith)
        | inr (content, q) ↦
            read_entries-IsNamed (assign entry.name (parse_value content) env) entries result
              (ground arith)
              (
                assign-Unique entry.name (parse_value content) env u,
                assign-Avoids entry.name (parse_value content) env
                    (has_equals-Avoids entry.name (ground arith)) a,
              )
      ]
    ]

-- The environment that `ReadDir` returns has each name once, and no name with `=`: it meets what the
-- merge with the parent's environment asks for.
read_dir-IsNamed :
    (entries : Option (List Entry)) (env : Environment) → read_dir entries ≡ some env → IsNamed env
unfolding read_dir Unique IsNamed
read_dir-IsNamed none env e = absurd (ground arith)
read_dir-IsNamed (some entries) env e = read_entries-IsNamed [] entries env e (tt, tt)
