-- ===== src/FileCopy/Progress.antt =====
-- The progress output of hw07_file_copying/copy.go.
use golang_hw.FileCopy.Guards.{IsRefused, IsBegun, WritesPart, copy_file-Guarded}
use golang_hw.FileCopy.{
  Write, Copy, Shown, copying, newline, ProgressWriter, Outcome, Destination, Files, report,
  advance, new_progress, close_with, write, write_all, copy_part, copy_file, refused, Error, failed,
  copy_contents, bytes_to_copy,
}
use golang_hw.Prelude.Int.{ℤ, pos, eq_ℤ}
use golang_hw.Prelude.{
  ℕ, ◌+◌, true, false, none, some, List, [], ◌∷◌, inl, inr, ◌≡◌, ◌≢◌, ◌⊎◌, refl, Text, arith,
  Bool-cases, Option-cases, drop, ltb, if◌then◌else◌, ap, ◌∙◌, sym, subst,
}

-- The newest line, before these, says something new.
unfoldable pub IsNew : ℤ → List Shown → Type 0
IsNew p [] = Unit
IsNew p (newline ∷ l) = Unit
IsNew p (copying q ∷ l) = p ≢ q

-- No percentage stands twice in a row.
unfoldable pub NoRepeat : List Shown → Type 0
NoRepeat [] = Unit
NoRepeat (newline ∷ l) = NoRepeat l
NoRepeat (copying p ∷ l) = IsNew p l × NoRepeat l

-- The oldest line says 0.
unfoldable pub StartsAtZero : List Shown → Type 0
StartsAtZero [] = ⊥
StartsAtZero (x ∷ []) = x ≡ copying (pos 0)
StartsAtZero (x ∷ y ∷ l) = StartsAtZero (y ∷ l)

-- The newest line is the last percentage.
unfoldable pub IsRunning : ProgressWriter → Type 0
IsRunning w =
    (l : List Shown) × (w.output ≡ copying w.last_percent ∷ l)
    × NoRepeat w.output
    × StartsAtZero w.output

differ : (p q : ℤ) → eq_ℤ p q ≡ false → p ≢ q
differ p q h e = absurd (ground (arith, h, e))

equal : (p q : ℤ) → eq_ℤ p q ≡ true → p ≡ q
equal p q h = ground (arith, h)

-- The newest line goes in front of the others.
more : (p q : ℤ) (l rest : List Shown) → l ≡ copying q ∷ rest → eq_ℤ p q ≡ false → IsNew p l
unfolding IsNew
more p q l rest h k = rw (h, IsNew) (differ p q k)

older : (x : Shown) (l : List Shown) → StartsAtZero l → StartsAtZero (x ∷ l)
unfolding StartsAtZero
older x [] z = absurd z
older x (y ∷ l) z = z

report-IsRunning : (p : ℤ) (w : ProgressWriter) → IsRunning w → IsRunning (report p w)
unfolding IsRunning report NoRepeat
report-IsRunning p w (l, h, n, z) = elim (Bool-cases (eq_ℤ p w.last_percent)) [
  | inl same ↦ rw (same) (l, h, n, z)
  | inr new ↦
      rw (new)
        (w.output, refl, (more p w.last_percent w.output l h new, n), older (copying p) w.output z)
]

advance-IsRunning : (c : Write) (w : ProgressWriter) → IsRunning w → IsRunning (advance c w)
unfolding IsRunning advance
advance-IsRunning c w h = h

first-IsRunning : (n : ℕ) → IsRunning (report (pos 0) (new_progress n))
unfolding IsRunning report new_progress NoRepeat IsNew StartsAtZero
first-IsRunning n = ([], refl, (tt, tt), refl)

-- Behind a report of 100, the newest line says 100.
report_whole :
    (w : ProgressWriter)
    → IsRunning w
    → (l : List Shown) × ((report (pos 100) w).output ≡ copying (pos 100) ∷ l)
unfolding IsRunning report
report_whole w (l, h, n, z) = elim (Bool-cases (eq_ℤ (pos 100) w.last_percent)) [
  | inl same ↦
      (l, rw (same) (h ∙ ap (λ q. copying q ∷ l) (sym (equal (pos 100) w.last_percent same))))
  | inr new ↦ (w.output, rw (new) refl)
]

-- The output of a run that began: a new line behind percentages from 0 on, none twice in a row.
unfoldable pub IsOutput : List Shown → Type 0
IsOutput output = (l : List Shown) × (output ≡ newline ∷ l) × NoRepeat l × StartsAtZero l

module _ (percent : ℕ → ℕ → ℤ) where
  write-IsRunning : (c : Write) (w : ProgressWriter) → IsRunning w → IsRunning (write percent c w)
  unfolding write
  write-IsRunning c w h = elim (Option-cases c.err) [
    | inr (err, e) ↦ rw (e) (advance-IsRunning c w h)
    | inl e ↦ rw (e) (
        report-IsRunning (if ltb 0 w.total then percent (w.written + c.taken) w.total else pos 100)
          (advance c w) (advance-IsRunning c w h))
  ]

  write_all-IsRunning :
      (writes : List Write) (w : ProgressWriter)
      → IsRunning w
      → IsRunning (write_all percent writes w)
  unfolding write_all
  write_all-IsRunning [] w h = h
  write_all-IsRunning (c ∷ writes) w h =
      write_all-IsRunning writes (write percent c w) (write-IsRunning c w h)

  module _ (copy_n : Text → ℕ → Copy) where
    -- The error of the copying, or a last line that says 100.
    unfoldable pub IsWhole : Outcome → Type 0
    IsWhole out =
        (out.result ≢ none) ⊎ ((l : List Shown) × (out.output ≡ newline ∷ copying (pos 100) ∷ l))

    close_with_error : (d : Destination) (err : Error) → close_with d (some err) ≢ none
    unfolding close_with
    close_with_error d err h = absurd (ground arith)

    copy_part-IsOutput :
        (d : Destination) (rest : Text) (n : ℕ)
        → IsOutput (copy_part percent copy_n d rest n).output
          × IsWhole (copy_part percent copy_n d rest n)
    unfolding copy_part IsOutput IsRunning IsWhole
    copy_part-IsOutput d rest n =
        let w = write_all percent (copy_n rest n).writes (report (pos 0) (new_progress n)) in
        let run : IsRunning w =
          write_all-IsRunning (copy_n rest n).writes (report (pos 0) (new_progress n))
            (first-IsRunning n) in
        let (l, h, m, z) = run in
        let (k, i, j, y) = report-IsRunning (pos 100) w run in
        let (last, x) = report_whole w run in
        elim (Option-cases (copy_n rest n).err) [
          | inr (err, e) ↦ (
            (w.output, rw (e, copy_part) refl, m, z),
            inl (rw (e, copy_part) (close_with_error d (failed copy_contents err))),
          )
          | inl e ↦ (
            ((report (pos 100) w).output, rw (e, copy_part) refl, j, y),
            inr (last, rw (e, copy_part) (ap (λ o. newline ∷ o) x)),
          )
        ]

    -- A call that ends before the copying begins shows nothing and has an error. Any other shows
    -- percentages from 0 on, the same one never twice in a row, and a new line; without an error the
    -- last percentage is 100.
    pub copy_file-IsOutput :
        (files : Files) (offset limit : ℤ)
        → ((copy_file percent copy_n files offset limit).result ≢ none)
            × ((copy_file percent copy_n files offset limit).output ≡ [])
          ⊎ (IsOutput (copy_file percent copy_n files offset limit).output
              × IsWhole (copy_file percent copy_n files offset limit))
    unfolding IsRefused IsBegun WritesPart refused
    copy_file-IsOutput files offset limit =
        elim (copy_file-Guarded percent copy_n files offset limit) [
          | inl (file, err, p, kept) ↦ inl (
              subst (λ o. (o.result ≢ none) × (o.output ≡ [])) (sym p)
                (λ h. absurd (ground arith), refl))
          | inr (o, l, a, b, (s, info, may, (d, c, p))) ↦ inr (
              subst (λ out. IsOutput out.output × IsWhole out) (sym p)
                (copy_part-IsOutput d (drop o s.bytes) (bytes_to_copy info.size o l)))
        ]
