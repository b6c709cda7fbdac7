-- ===== src/Http/Writer.antt =====
-- The status that middleware.go records is the one that it has passed on.
use golang_hw.Http.{Passed, header, body, StatusWriter, write_header, write, status_code, serve}
use golang_hw.Prelude.{
  append-nil, ◌∙◌, ◌⊎◌, ℕ, ◌≤◌, Option, none, some, List, [], ◌∷◌, ◌++◌, ◌≡◌, ◌==◌, if◌then◌else◌,
  arith, refl, All, Bool-cases, inl, inr, ap,
}

-- The statuses that were passed on.
unfoldable pub statuses : List Passed → List ℕ
statuses [] = []
statuses (header n ∷ l) = n ∷ statuses l
statuses (body ∷ l) = statuses l

-- WriteHeader is not called with 0, which is no status.
unfoldable pub IsStatus : Option ℕ → Type 0
IsStatus none = Unit
IsStatus (some n) = 1 ≤ n

statuses-append : (l k : List Passed) → statuses (l ++ k) ≡ statuses l ++ statuses k
unfolding statuses
statuses-append [] k = refl
statuses-append (header n ∷ l) k = ap (◌∷◌ n) (statuses-append l k)
statuses-append (body ∷ l) k = statuses-append l k

unfoldable pub expected : ℕ → List ℕ
expected n = if n == 0 then [] else n ∷ []

tail_lem : (l : List Passed) → statuses l ++ statuses (body ∷ []) ≡ statuses l
unfolding statuses
tail_lem l = append-nil (statuses l)

abbrev pub fresh : StatusWriter
fresh = record { status = 0; passed = [] }

write_header-statuses :
    (n : ℕ) (w : StatusWriter)
    → 1 ≤ n
    → statuses w.passed ≡ expected w.status
    → statuses (write_header n w).passed ≡ expected (write_header n w).status
unfolding write_header expected statuses
write_header-statuses n w k h = ground (arith, statuses-append w.passed (header n ∷ []))

header-statuses : (l : List Passed) (n : ℕ) → statuses (l ++ header n ∷ []) ≡ statuses l ++ n ∷ []
unfolding statuses
header-statuses l n = statuses-append l (header n ∷ [])

body-statuses : (l : List Passed) → statuses (l ++ body ∷ []) ≡ statuses l
body-statuses l = statuses-append l (body ∷ []) ∙ tail_lem l

write-statuses :
    (w : StatusWriter)
    → statuses w.passed ≡ expected w.status
    → statuses (write w).passed ≡ expected (write w).status
unfolding write write_header expected
write-statuses w h = ground (
  arith,
  body-statuses (w.passed ++ header 200 ∷ []),
  body-statuses w.passed,
  header-statuses w.passed 200,
)

serve-statuses :
    (calls : List (Option ℕ)) (w : StatusWriter)
    → All IsStatus calls
    → statuses w.passed ≡ expected w.status
    → statuses (serve calls w).passed ≡ expected (serve calls w).status
unfolding serve IsStatus
serve-statuses [] w k h = h
serve-statuses (none ∷ calls) w (_, k) h = serve-statuses calls (write w) k (write-statuses w h)
serve-statuses (some n ∷ calls) w (i, k) h =
    serve-statuses calls (write_header n w) k (write_header-statuses n w i h)

-- Whatever a handler calls, with statuses other than 0, its client gets no status, or one and it is
-- the one that the log and the metrics record.
pub serve-status_code :
    (calls : List (Option ℕ))
    → All IsStatus calls
    → (statuses (serve calls fresh).passed ≡ [])
      ⊎ (statuses (serve calls fresh).passed ≡ status_code (serve calls fresh) ∷ [])
unfolding status_code expected statuses
serve-status_code calls k =
    let h = serve-statuses calls fresh k refl in
    elim (Bool-cases ((serve calls fresh).status == 0)) [
      | inl p ↦ inl (h ∙ rw (p) refl)
      | inr p ↦ inr (h ∙ rw (p) refl)
    ]
