-- ===== src/DomainStat/Users.antt =====
-- What `GetDomainStat` of hw10_program_optimization/stats.go counts, and where it stops.
use golang_hw.DomainStat.{
  Error, StatError, users_error, User, Line, Stream, trim, decode, count_user, count_line,
  count_lines, get_domain_stat,
}
use golang_hw.Frequency.Counts.{
  occurrences, contains, keys, occurrences-append, contains-append, count_of-add_word,
  contains-add_word,
}
use golang_hw.Frequency.{Counts, count_of}
use golang_hw.Prelude.{
  Bool-cases, sym, subst, ◌+◌, Bool, true, false, not, ◌||◌, Option, none, some, List, [], ◌∷◌,
  ◌++◌, ◌⊎◌, inl, inr, ◌≡◌, refl, Text, codes, cut, is_empty, arith, if◌then◌else◌,
}

-- The error that a line without a user is reported with.
unfoldable pub cause : Option Error → Error → Error
cause none err = err
cause (some read_err) err = read_err

stop :
    (read_err : Option Error) (err : Error)
    → (elim read_err as (λ x. StatError ⊎ Counts) [
      | some read_err ↦ inl (users_error read_err)
      | none ↦ inl (users_error err)
    ])
      ≡ inl (users_error (cause read_err err))
unfolding cause
stop none err = refl
stop (some read_err) err = refl

one_more :
    (o : Option (Text × Text)) (to_lower : Text → Text) (rest : List Text)
    → (elim o [ none ↦ rest | some parts ↦ to_lower parts.1 ∷ rest ])
      ≡ (elim o [ none ↦ [] | some parts ↦ to_lower parts.1 ∷ [] ]) ++ rest
one_more none to_lower rest = refl
one_more (some parts) to_lower rest = refl

module _ (unmarshal std_unmarshal : Text → User → Error ⊎ User) (to_lower : Text → Text) where
  -- The lines that are not blank hold these users, in this order.
  unfoldable pub Holds : List Line → List User → Type 0
  Holds [] users = users ≡ []
  Holds (line ∷ lines) users =
      ((is_empty (trim line.bytes) ≡ true) × Holds lines users)
      ⊎ ((user : User) × (rest : List User) × (is_empty (trim line.bytes) ≡ false)
          × (decode unmarshal std_unmarshal to_lower (trim line.bytes) ≡ inr user)
          × (users ≡ user ∷ rest)
          × Holds lines rest)

  -- The domains of the users that match, in lower case.
  unfoldable pub domains : (Text → Bool) → List User → List Text
  domains matches [] = []
  domains matches (user ∷ users) =
      let rest = domains matches users in
      if not (matches user.email)
      then rest
      else elim (cut 0x40 user.email) [ none ↦ rest | some parts ↦ to_lower parts.1 ∷ rest ]

  -- The map after these lines, for a map before them.
  unfoldable pub Counted : (Text → Bool) → List User → Counts → Counts → Type 0
  Counted matches users before after =
      (w : Text)
      → (count_of after w ≡ count_of before w + occurrences (domains matches users) w)
        × (contains (keys after) w
            ≡ (contains (keys before) w || contains (domains matches users) w))

  -- The tests of a user decided.
  count_decided :
      (matches : Text → Bool) (user : User) (before : Counts) (w : Text) (b : Bool)
      → (o : Option (Text × Text)) → matches user.email ≡ b
      → cut 0x40 user.email ≡ o
      → (count_of (count_user unmarshal std_unmarshal to_lower matches user before) w
          ≡ count_of before w + occurrences (domains matches (user ∷ [])) w)
        × (contains (keys (count_user unmarshal std_unmarshal to_lower matches user before)) w
            ≡ (contains (keys before) w || contains (domains matches (user ∷ [])) w))
  unfolding domains count_user occurrences contains
  count_decided matches user before w false o p q = ground (arith, p)
  count_decided matches user before w true none p q =
      rw (p, q, contains, keys, occurrences) (ground arith)
  count_decided matches user before w true (some (name, host)) p q =
      rw (p, q, contains, keys, occurrences)
        (ground (
          arith,
          count_of-add_word (to_lower host) w before,
          contains-add_word (to_lower host) w before,
        ))

  domains_cons :
      (matches : Text → Bool) (user : User) (users : List User)
      → domains matches (user ∷ users) ≡ domains matches (user ∷ []) ++ domains matches users
  unfolding domains
  domains_cons matches user users = elim (Bool-cases (matches user.email)) [
    | inl p ↦ rw (p) (one_more (cut 0x40 user.email) to_lower (domains matches users))
    | inr p ↦ ground (arith, p)
  ]

  count_user-Counted :
      (matches : Text → Bool) (user : User) (users : List User) (before after : Counts)
      → Counted matches users
          (count_user unmarshal std_unmarshal to_lower matches user before)
          after
      → Counted matches (user ∷ users) before after
  unfolding Counted
  count_user-Counted matches user users before after h w =
      let one =
        count_decided matches user before w (matches user.email) (cut 0x40 user.email) refl refl in
      let more = domains_cons matches user users in
      let first = domains matches (user ∷ []) in
      let others = domains matches users in
      let (a, b) = h w in
      (
        rw (more) (omega (arith, a, one.0, occurrences-append first others w)),
        rw (more) (ground (arith, b, one.1, contains-append first others w)),
      )

  Counted-nil : (matches : Text → Bool) (m : Counts) → Counted matches [] m m
  unfolding Counted domains occurrences contains
  Counted-nil matches m w = (omega arith, ground arith)

  -- A blank line is passed over, a user is counted.
  count_lines-Counted :
      (matches : Text → Bool) (lines : List Line) (users : List User) (before : Counts)
      → Holds lines users
      → (after : Counts) × (count_lines unmarshal std_unmarshal to_lower matches lines before
          ≡ inr after)
        × Counted matches users before after
  unfolding Holds count_lines count_line
  count_lines-Counted matches [] users before h = (
    before,
    refl,
    subst (λ us. Counted matches us before before) (sym h) (Counted-nil matches before),
  )
  count_lines-Counted matches (line ∷ lines) users before (inl (blank, h)) =
      let (after, p, q) = count_lines-Counted matches lines users before h in
      (after, rw (blank, count_lines, count_line) p, q)
  count_lines-Counted matches (line ∷ lines) users before (inr (user, rest, full, d, u, h)) =
      let next = count_user unmarshal std_unmarshal to_lower matches user before in
      let (after, p, q) = count_lines-Counted matches lines rest next h in
      (
        after,
        rw (full, d, count_lines, count_line) p,
        subst (λ us. Counted matches us before after) (sym u)
            (count_user-Counted matches user rest before after q),
      )

  count_line_bad :
      (matches : Text → Bool) (bad : Line) (before : Counts) (err : Error)
      → is_empty (trim bad.bytes) ≡ false
      → decode unmarshal std_unmarshal to_lower (trim bad.bytes) ≡ inl err
      → count_line unmarshal std_unmarshal to_lower matches bad before
        ≡ inl (users_error (cause bad.read_err err))
  unfolding count_line
  count_line_bad matches bad before err full d = rw (full, d) (stop bad.read_err err)

  -- Behind lines that hold users, a line that does not decode ends the loop.
  count_lines-stops :
      (matches : Text → Bool) (lines : List Line) (users : List User) (bad : Line)
      (rest : List Line)
      → (before : Counts) (err : Error) → Holds lines users
      → is_empty (trim bad.bytes) ≡ false
      → decode unmarshal std_unmarshal to_lower (trim bad.bytes) ≡ inl err
      → count_lines unmarshal std_unmarshal to_lower matches (lines ++ bad ∷ rest) before
        ≡ inl (users_error (cause bad.read_err err))
  unfolding Holds count_lines count_line cause
  count_lines-stops matches [] users bad rest before err h full d =
      rw (count_line_bad matches bad before err full d, count_lines) refl
  count_lines-stops matches (line ∷ lines) users bad rest before err (inl (blank, h)) full d =
      rw (blank, count_lines, count_line)
        (count_lines-stops matches lines users bad rest before err h full d)
  count_lines-stops matches (line ∷ lines) users bad rest before err (inr (user, more, f, e, u, h))
        full d =
      rw (f, e, count_lines, count_line)
        (count_lines-stops matches lines more bad rest
          (count_user unmarshal std_unmarshal to_lower matches user before) err h full d)

  -- Where the regular expression compiles, the lines that are not blank decode to users and the stream
  -- ends without an error, there is a result. It gives each domain the number of matching users in it,
  -- and holds no other domain.
  pub get_domain_stat-Counted :
      (compile : Text → Error ⊎ (Text → Bool)) (r : Stream) (domain : Text) (matches : Text → Bool)
      → (users : List User) → compile (codes "\\." ++ domain) ≡ inr matches
      → Holds r.lines users
      → r.err ≡ none
      → (stat : Counts) × (get_domain_stat unmarshal std_unmarshal to_lower compile r domain
          ≡ inr stat)
        × Counted matches users [] stat
  unfolding get_domain_stat
  get_domain_stat-Counted compile r domain matches users c h e =
      let (stat, p, q) = count_lines-Counted matches r.lines users [] h in
      (stat, rw (c, p, e, get_domain_stat) refl, q)

  -- The first line that does not decode ends the call with an error, whatever stands behind it: the
  -- error of the reader if there is one by then, or else that of the decoder.
  pub get_domain_stat-stops :
      (compile : Text → Error ⊎ (Text → Bool)) (r : Stream) (domain : Text) (matches : Text → Bool)
      → (lines rest : List Line) (bad : Line) (users : List User) (err : Error)
      → compile (codes "\\." ++ domain) ≡ inr matches
      → r.lines ≡ lines ++ bad ∷ rest
      → Holds lines users
      → is_empty (trim bad.bytes) ≡ false
      → decode unmarshal std_unmarshal to_lower (trim bad.bytes) ≡ inl err
      → get_domain_stat unmarshal std_unmarshal to_lower compile r domain
        ≡ inl (users_error (cause bad.read_err err))
  unfolding get_domain_stat
  get_domain_stat-stops compile r domain matches lines rest bad users err c l h full d =
      rw (c, l, count_lines-stops matches lines users bad rest [] err h full d, get_domain_stat)
        refl
