-- ===== src/Calendar/Memory/Invariant.antt =====
-- What the storage holds at all times: valid events under their own IDs, and for one user no two that
-- overlap.
use golang_hw.Calendar.Event.{Event, validate_event, intervals_overlap}
use golang_hw.Calendar.Memory.{Storage, assign, erase, date_busy_for}
use golang_hw.Prelude.{
  ◌≡◌, ◌≢◌, ◌↔◌, refl, sym, Bool, true, false, ◌&&◌, [], ◌∷◌, Text, text_eq, text_eq_iff, is_blank,
  arith, All, All-map, ◌⊎◌, inl, inr, Bool-cases, subst,
}

-- The events belong to one user and overlap.
abbrev pub clash : Event → Event → Bool
clash a b = text_eq a.user_id b.user_id && intervals_overlap a.start_at a.end_at b.start_at b.end_at

abbrev pub Absent : Text → Storage → Type 0
Absent id s = All (λ p. p.0 ≢ id) s

abbrev pub DistinctKeys : Storage → Type 0
DistinctKeys [] = Unit
DistinctKeys (p ∷ s) = Absent p.0 s × DistinctKeys s

abbrev pub NoClash : Storage → Type 0
NoClash [] = Unit
NoClash (p ∷ s) = All (λ q. clash p.1 q.1 ≡ false) s × NoClash s

abbrev pub IsEntry : Text × Event → Type 0
IsEntry p = (p.1.id ≡ p.0) × (validate_event p.1 ≡ true)

pub record IsValid (s : Storage) : Type 0 where
  pub entries : All IsEntry s
  pub distinct : DistinctKeys s
  pub apart : NoClash s

-- The candidate clashes with nothing but what is kept under `id`.
abbrev pub Fits : Event → Text → Storage → Type 0
Fits e id s = All (λ p. (p.0 ≡ id) ⊎ (clash p.1 e ≡ false)) s

clash_sym : (a b : Event) → clash a b ≡ clash b a
clash_sym a b = ground (arith, text_eq_iff a.user_id b.user_id, text_eq_iff b.user_id a.user_id)

pub All-assign :
    (P : Text × Event → Type 0) (id : Text) (e : Event) (s : Storage)
    → P (id, e)
    → All P s
    → All P (assign id e s)
unfolding assign
All-assign P id e [] p a = (p, tt)
All-assign P id e ((k, f) ∷ s) p (q, a) = elim (Bool-cases (text_eq k id)) [
  | inl h ↦ rw h (subst (λ j. P (j, e)) (sym ((text_eq_iff k id).0 h)) p, a)
  | inr h ↦ rw h (q, All-assign P id e s p a)
]

pub All-erase : (P : Text × Event → Type 0) (id : Text) (s : Storage) → All P s → All P (erase id s)
unfolding erase
All-erase P id [] a = tt
All-erase P id ((k, f) ∷ s) (q, a) = elim (Bool-cases (text_eq k id)) [
  | inl h ↦ rw h a
  | inr h ↦ rw h (q, All-erase P id s a)
]

assign-DistinctKeys :
    (id : Text) (e : Event) (s : Storage) → DistinctKeys s → DistinctKeys (assign id e s)
unfolding assign
assign-DistinctKeys id e [] d = (tt, tt)
assign-DistinctKeys id e ((k, f) ∷ s) (o, d) = elim (Bool-cases (text_eq k id)) [
  | inl h ↦ rw h (o, d)
  | inr h ↦ rw h (
    All-assign (λ p. p.0 ≢ k) id e s (λ q. absurd (ground (arith, text_eq_iff k id))) o,
    assign-DistinctKeys id e s d,
  )
]

-- Behind the entry that is replaced, no entry clashes with the candidate.
others :
    (id : Text) (e : Event) (s : Storage)
    → Absent id s
    → Fits e id s
    → All (λ q. clash e q.1 ≡ false) s
others id e [] o f = tt
others id e ((k, g) ∷ s) (n, o) (h, f) = (ground (arith, n, clash_sym e g), others id e s o f)

assign-NoClash :
    (id : Text) (e : Event) (s : Storage)
    → DistinctKeys s
    → Fits e id s
    → NoClash s
    → NoClash (assign id e s)
unfolding assign
assign-NoClash id e [] d f n = (tt, tt)
assign-NoClash id e ((k, g) ∷ s) (o, d) (h, f) (a, n) = elim (Bool-cases (text_eq k id)) [
  | inl same ↦ rw same (others id e s (subst (λ j. Absent j s) ((text_eq_iff k id).0 same) o) f, n)
  | inr other ↦
      let here : clash g e ≡ false = ground (arith, text_eq_iff k id) in
      rw other (All-assign (λ q. clash g q.1 ≡ false) id e s here a, assign-NoClash id e s d f n)
]

erase-DistinctKeys : (id : Text) (s : Storage) → DistinctKeys s → DistinctKeys (erase id s)
unfolding erase
erase-DistinctKeys id [] d = tt
erase-DistinctKeys id ((k, e) ∷ s) (o, d) = elim (Bool-cases (text_eq k id)) [
  | inl h ↦ rw h d
  | inr h ↦ rw h (All-erase (λ p. p.0 ≢ k) id s o, erase-DistinctKeys id s d)
]

erase-NoClash : (id : Text) (s : Storage) → NoClash s → NoClash (erase id s)
unfolding erase
erase-NoClash id [] n = tt
erase-NoClash id ((k, e) ∷ s) (a, n) = elim (Bool-cases (text_eq k id)) [
  | inl h ↦ rw h n
  | inr h ↦ rw h (All-erase (λ q. clash e q.1 ≡ false) id s a, erase-NoClash id s n)
]

pub assign-IsValid :
    (e : Event) (s : Storage)
    → validate_event e ≡ true
    → Fits e e.id s
    → IsValid s
    → IsValid (assign e.id e s)
assign-IsValid e s g f v = record {
  entries = All-assign IsEntry e.id e s (refl, g) v.entries;
  distinct = assign-DistinctKeys e.id e s v.distinct;
  apart = assign-NoClash e.id e s v.distinct f v.apart;
}

pub erase-IsValid : (id : Text) (s : Storage) → IsValid s → IsValid (erase id s)
erase-IsValid id s v = record {
  entries = All-erase IsEntry id s v.entries;
  distinct = erase-DistinctKeys id s v.distinct;
  apart = erase-NoClash id s v.apart;
}

pub empty-IsValid : IsValid []
empty-IsValid = record { entries = tt; distinct = tt; apart = tt }

-- `dateBusy` finds a clash exactly where the candidate does not fit.
pub date_busy_for-Fits :
    (e : Event) (id : Text) (s : Storage) → (date_busy_for e id s ≡ false) ↔ Fits e id s
unfolding date_busy_for
date_busy_for-Fits e id [] = (λ _. tt, λ _. refl)
date_busy_for-Fits e id ((k, f) ∷ s) = (
  (λ h. (ground (arith, text_eq_iff k id), (date_busy_for-Fits e id s).0 (ground arith))),
  (λ h. ground (arith, text_eq_iff k id, (date_busy_for-Fits e id s).1 h.1)),
)

-- No entry stands under the empty ID, so none is left out of the search.
pub Fits-nil :
    (e : Event) (s : Storage) → All IsEntry s → Fits e [] s ↔ All (λ p. clash p.1 e ≡ false) s
unfolding validate_event
Fits-nil e [] v = (λ _. tt, λ _. tt)
Fits-nil e ((k, g) ∷ s) ((i, h), v) = (
  (λ f. (ground (arith, f.0, blank), (Fits-nil e s v).0 f.1)),
  (λ a. (inr a.0, (Fits-nil e s v).1 a.1)),
)
  where
    blank : is_blank [] ≡ true
    blank = unfold is_blank in refl

-- What clashes with nothing clashes with nothing else.
pub Fits-all :
    (e : Event) (id : Text) (s : Storage) → All (λ p. clash p.1 e ≡ false) s → Fits e id s
Fits-all e id s a = All-map _ _ s (λ p h. inr h) a
