-- ===== src/Calendar/Memory/Methods.antt =====
-- `CreateEvent`, `UpdateEvent` and `DeleteEvent`.
use golang_hw.Calendar.Event.{Event, validate_event}
use golang_hw.Calendar.Memory.Invariant.{
  IsValid, Absent, DistinctKeys, Fits, Fits-all, clash, assign-IsValid, erase-IsValid,
  empty-IsValid, date_busy_for-Fits, Fits-nil,
}
use golang_hw.Calendar.Memory.{
  Context, Storage, Outcome, empty, lookup, assign, erase, date_busy_for, is_some, create_event,
  update_event, delete_event,
}
use golang_hw.Prelude.{
  ◌≡◌, ◌≢◌, ◌↔◌, refl, sym, ap, Bool, true, false, not, ◌&&◌, ◌∙◌, subst, Option, none, some, List,
  [], ◌∷◌, if◌then◌else◌, Text, text_eq, text_eq_iff, is_blank, arith, All, ◌⊎◌, inl, inr,
}

pub lookup-assign :
    (id j : Text) (e : Event) (s : Storage)
    → lookup j (assign id e s) ≡ (if text_eq id j then some e else lookup j s)
unfolding lookup assign
lookup-assign id j e [] = refl
lookup-assign id j e ((k, f) ∷ s) =
    ground (arith, text_eq_iff id j, text_eq_iff k id, text_eq_iff k j, lookup-assign id j e s)

lookup-Absent : (id : Text) (s : Storage) → Absent id s → lookup id s ≡ none
unfolding lookup
lookup-Absent id [] o = refl
lookup-Absent id ((k, f) ∷ s) (h, o) = ground (arith, text_eq_iff k id, lookup-Absent id s o)

pub lookup-erase :
    (id j : Text) (s : Storage)
    → DistinctKeys s
    → lookup j (erase id s) ≡ (if text_eq id j then none else lookup j s)
unfolding lookup erase
lookup-erase id j [] d = ground arith
lookup-erase id j ((k, f) ∷ s) (o, d) = ground (
  arith,
  text_eq_iff id j,
  text_eq_iff k id,
  text_eq_iff k j,
  lookup-erase id j s d,
  lookup-Absent k s o,
)

-- The outcome of a method: it fails and changes nothing, or the event under `id` becomes `now` and
-- every other stays.
abbrev pub Sets : Outcome → Storage → Text → Option Event → Type 0
Sets out s id now =
    ((out.0 ≢ none) × (out.1 ≡ s))
    ⊎ ((out.0 ≡ none) × ((j : Text) → lookup j out.1 ≡ (if text_eq id j then now else lookup j s)))

-- The two outcomes of a method: its tests hold and it stores, or one fails and nothing changes.
abbrev Cases : Bool → Outcome → Storage → Storage → Type 0
Cases may out s s' =
    ((may ≡ true) × (out.0 ≡ none) × (out.1 ≡ s')) ⊎ ((may ≡ false) × (out.0 ≢ none) × (out.1 ≡ s))

abbrev pub is_live : Context → Bool
is_live ctx = not (is_some (ctx 0)) && not (is_some (ctx 1))

module _ (ctx : Context) (s : Storage) where
  create_event-Cases :
      (e : Event)
      → Cases
          (is_live ctx
            && validate_event e
            && not (is_some (lookup e.id s))
            && not (date_busy_for e [] s))
          (create_event ctx e s)
          s
          (assign e.id e s)
  unfolding create_event
  create_event-Cases e = ground arith

  update_event-Cases :
      (e : Event)
      → Cases
          (is_live ctx
            && validate_event e
            && is_some (lookup e.id s)
            && not (date_busy_for e e.id s))
          (update_event ctx e s)
          s
          (assign e.id e s)
  unfolding update_event
  update_event-Cases e = ground arith

  delete_event-Cases :
      (id : Text)
      → Cases
          (is_live ctx && not (is_blank id) && is_some (lookup id s))
          (delete_event ctx id s)
          s
          (erase id s)
  unfolding delete_event
  delete_event-Cases id = ground arith

Sets-of :
    (may : Bool) (out : Outcome) (s s' : Storage) (id : Text) (now : Option Event)
    → Cases may out s s'
    → ((j : Text) → lookup j s' ≡ (if text_eq id j then now else lookup j s))
    → Sets out s id now
Sets-of may out s s' id now c h = elim c [
  | inl (m, e, f) ↦ inr (e, λ j. ap (lookup j) f ∙ h j)
  | inr (m, e, f) ↦ inl (e, f)
]

IsValid-of :
    (may : Bool) (out : Outcome) (s s' : Storage)
    → Cases may out s s'
    → IsValid s
    → (may ≡ true → IsValid s')
    → IsValid out.1
IsValid-of may out s s' c v h = elim c [
  | inl (m, e, f) ↦ subst IsValid (sym f) (h m)
  | inr (m, e, f) ↦ subst IsValid (sym f) v
]

passes_iff :
    (may : Bool) (out : Outcome) (s s' : Storage)
    → Cases may out s s'
    → (out.0 ≡ none) ↔ (may ≡ true)
passes_iff may out s s' c = (ground arith, ground arith)

module _ (ctx : Context) (s : Storage) (v : IsValid s) where
  free_iff : (e : Event) → (date_busy_for e [] s ≡ false) ↔ All (λ p. clash p.1 e ≡ false) s
  free_iff e = (
    (λ h. (Fits-nil e s v.entries).0 ((date_busy_for-Fits e [] s).0 h)),
    (λ a. (date_busy_for-Fits e [] s).1 ((Fits-nil e s v.entries).1 a)),
  )

  -- `CreateEvent` succeeds exactly where the context is live at both calls, the event is valid, its
  -- ID is free and it overlaps no event of its user. It then stores the event under its ID, and every
  -- other ID keeps what it had; where it fails the storage stays as it was. The storage keeps its invariant.
  pub create_event_lem :
      (e : Event)
      → (((create_event ctx e s).0 ≡ none) ↔ (
          (is_live ctx ≡ true)
          × (validate_event e ≡ true)
          × (lookup e.id s ≡ none)
          × All (λ p. clash p.1 e ≡ false) s))
        × Sets (create_event ctx e s) s e.id (some e)
        × IsValid (create_event ctx e s).1
  create_event_lem e =
      let cases = create_event-Cases ctx s e in
      let passes = passes_iff _ _ s (assign e.id e s) cases in
      let free = free_iff e in
      (
        (
          (λ h.
              let m = passes.0 h in
              (ground arith, ground arith, ground arith, free.0 (ground arith))),
          (λ h. let b = free.1 h.3 in passes.1 (ground arith)),
        ),
        Sets-of _ _ s (assign e.id e s) e.id (some e) cases (λ j. lookup-assign e.id j e s),
        IsValid-of _ _ s (assign e.id e s) cases v
            (λ m. assign-IsValid e s (ground arith) (Fits-all e e.id s (free.0 (ground arith))) v),
      )

  -- `UpdateEvent` succeeds exactly where the context is live at both calls, the event is valid, its ID
  -- is stored and it overlaps no event of its user but the one that it replaces. It then replaces
  -- that event alone; where it fails the storage stays as it was. The storage keeps its invariant.
  pub update_event_lem :
      (e : Event)
      → (((update_event ctx e s).0 ≡ none) ↔ (
          (is_live ctx ≡ true)
          × (validate_event e ≡ true)
          × (is_some (lookup e.id s) ≡ true)
          × Fits e e.id s))
        × Sets (update_event ctx e s) s e.id (some e)
        × IsValid (update_event ctx e s).1
  update_event_lem e =
      let cases = update_event-Cases ctx s e in
      let passes = passes_iff _ _ s (assign e.id e s) cases in
      let free = date_busy_for-Fits e e.id s in
      (
        (
          (λ h.
              let m = passes.0 h in
              (ground arith, ground arith, ground arith, free.0 (ground arith))),
          (λ h. let b = free.1 h.3 in passes.1 (ground arith)),
        ),
        Sets-of _ _ s (assign e.id e s) e.id (some e) cases (λ j. lookup-assign e.id j e s),
        IsValid-of _ _ s (assign e.id e s) cases v
            (λ m. assign-IsValid e s (ground arith) (free.0 (ground arith)) v),
      )

  -- `DeleteEvent` succeeds exactly where the context is live at both calls and the ID is not blank and
  -- is stored. It then removes that event alone; where it fails the storage stays as it was. The
  -- storage keeps its invariant.
  delete_event_lem :
      (id : Text)
      → (((delete_event ctx id s).0 ≡ none)
          ↔ ((is_live ctx ≡ true) × (is_blank id ≡ false) × (is_some (lookup id s) ≡ true)))
        × Sets (delete_event ctx id s) s id none
        × IsValid (delete_event ctx id s).1
  delete_event_lem id =
      let cases = delete_event-Cases ctx s id in
      let passes = passes_iff _ _ s (erase id s) cases in
      (
        (
          (λ h. let m = passes.0 h in (ground arith, ground arith, ground arith)),
          (λ h. passes.1 (ground arith)),
        ),
        Sets-of _ _ s (erase id s) id none cases (λ j. lookup-erase id j s v.distinct),
        IsValid-of _ _ s (erase id s) cases v (λ m. erase-IsValid id s v),
      )

-- A call that may change the storage, with its context.
pub data Call : Type 0 where
  create update : Context → Event → Call
  delete : Context → Text → Call

unfoldable pub perform : Call → Storage → Outcome
perform (create ctx e) s = create_event ctx e s
perform (update ctx e) s = update_event ctx e s
perform (delete ctx id) s = delete_event ctx id s

unfoldable pub perform_all : List Call → Storage → Storage
unfolding perform
perform_all [] s = s
perform_all (c ∷ cs) s = perform_all cs (perform c s).1

perform-IsValid : (c : Call) (s : Storage) → IsValid s → IsValid (perform c s).1
unfolding perform
perform-IsValid (create ctx e) s v = (create_event_lem ctx s v e).2
perform-IsValid (update ctx e) s v = (update_event_lem ctx s v e).2
perform-IsValid (delete ctx id) s v = (delete_event_lem ctx s v id).2

perform_all-IsValid_from : (cs : List Call) (s : Storage) → IsValid s → IsValid (perform_all cs s)
unfolding perform_all
perform_all-IsValid_from [] s v = v
perform_all-IsValid_from (c ∷ cs) s v =
    perform_all-IsValid_from cs (perform c s).1 (perform-IsValid c s v)

-- Whatever calls are made on a new storage, failing ones included: every event that it holds is
-- valid and stands under its own ID, no ID is held twice, and no two events of one user overlap.
pub perform_all-IsValid : (cs : List Call) → IsValid (perform_all cs empty)
perform_all-IsValid cs = perform_all-IsValid_from cs empty empty-IsValid
