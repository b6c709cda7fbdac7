-- ===== src/Calendar/Memory/Listing.antt =====
-- `ListEvents`.
use golang_hw.Calendar.Event.{Time, Error, Event, time_before, is_zero, intervals_overlap}
use golang_hw.Calendar.Memory.{
  Context, Storage, Listed, listed, failed, collect, starts_before, list_events,
}
use golang_hw.Prelude.Sort.{count, sort_slice, Sorted, count-sort_slice, sort_slice-Sorted}
use golang_hw.Prelude.TextOrder.{text_ltb_irrefl, text_ltb_trans}
use golang_hw.Prelude.{
  ℕ, ◌+◌, ◌≡◌, refl, sym, ap, ◌∙◌, subst, Bool, true, false, not, ◌&&◌, ◌||◌, none, some, List, [],
  ◌∷◌, ◌++◌, if◌then◌else◌, Text, text_eq, is_blank, arith, ◌⊎◌, inl, inr, Bool-cases, Option-cases,
}

-- The test of the loop: an event of the user that overlaps the interval.
abbrev pub is_asked : Text → Time → Time → Event → Bool
is_asked user_id from to e =
    text_eq e.user_id user_id && intervals_overlap e.start_at e.end_at from to

-- What the query asks for may be asked.
abbrev pub may_ask : Text → Time → Time → Bool
may_ask user_id from to =
    not (is_blank user_id || is_zero from || is_zero to || not (time_before from to))

starts_before_asym : (a b : Event) → starts_before a b ≡ true → starts_before b a ≡ false
unfolding starts_before
starts_before_asym a b h = ground (arith, text_ltb_trans a.id b.id a.id, text_ltb_irrefl a.id)

starts_before_neg_trans :
    (a b c : Event)
    → starts_before a b ≡ true
    → starts_before c b ≡ false
    → starts_before c a ≡ false
unfolding starts_before
starts_before_neg_trans a b c h k = ground (arith, text_ltb_trans c.id a.id b.id)

count-concat :
    (p : Event → Bool) (es : List Event) (e : Event)
    → count p (es ++ e ∷ []) ≡ count p es + (if p e then 1 else 0)
unfolding count
count-concat p [] e = ground arith
count-concat p (f ∷ es) e = omega (arith, count-concat p es e)

-- The stored events, of which the listed ones are taken.
abbrev pub events : Storage → List Event
events [] = []
events (p ∷ s) = p.1 ∷ events s

module _ (ctx : Context) (user_id : Text) (from to : Time) where
  abbrev kept : List Event → Event → List Event
  kept es e = if is_asked user_id from to e then es ++ e ∷ [] else es

  collect_step :
      (n : ℕ) (es : List Event) (k : Text) (e : Event) (s : Storage)
      → ctx n ≡ none
      → collect ctx n user_id from to es ((k, e) ∷ s)
        ≡ collect ctx (n + 1) user_id from to (kept es e) s
  unfolding collect
  collect_step n es k e s h = rw (h, collect)

  collect_stop :
      (n : ℕ) (es : List Event) (k : Text) (e : Event) (s : Storage) (x : Error)
      → ctx n ≡ some x
      → collect ctx n user_id from to es ((k, e) ∷ s) ≡ failed x
  unfolding collect
  collect_stop n es k e s x h = rw (h, collect)

  count-kept :
      (p : Event → Bool) (es : List Event) (e : Event)
      → count p (kept es e) ≡ count p es + (if p e && is_asked user_id from to e then 1 else 0)
  count-kept p es e = elim (Bool-cases (is_asked user_id from to e)) [
    | inl h ↦ ground (arith, count-concat p es e)
    | inr h ↦ ground (arith, h)
  ]

  collect-count :
      (n : ℕ) (es : List Event) (s : Storage) (l : List Event)
      → collect ctx n user_id from to es s ≡ listed l
      → (p : Event → Bool)
      → count p l ≡ count p es + count (λ e. p e && is_asked user_id from to e) (events s)
  unfolding count
  collect-count n es [] l h p = unfold collect in ground arith
  collect-count n es ((k, e) ∷ s) l h p = elim (Option-cases (ctx n)) [
    | inl live ↦ omega (
      arith,
      collect-count (n + 1) (kept es e) s l (sym (collect_step n es k e s live) ∙ h) p,
      count-kept p es e,
    )
    | inr (x, dead) ↦ absurd (ground (arith, h, collect_stop n es k e s x dead))
  ]

  collect_live :
      (n : ℕ) (es : List Event) (s : Storage)
      → ((i : ℕ) → ctx i ≡ none)
      → (l : List Event) × (collect ctx n user_id from to es s ≡ listed l)
  collect_live n es [] h = (es, unfold collect in rw (h n, collect))
  collect_live n es ((k, e) ∷ s) h =
      let (l, q) = collect_live (n + 1) (kept es e) s h in (l, collect_step n es k e s (h n) ∙ q)

  -- What is listed: the events of the user that overlap the interval, each as often as it is
  -- stored, ordered by their start and then their ID.
  pub record IsListing (s : Storage) (l : List Event) : Type 0 where
    pub asked : may_ask user_id from to ≡ true
    pub sorted : Sorted starts_before l
    pub exact :
        (p : Event → Bool) → count p l ≡ count (λ e. p e && is_asked user_id from to e) (events s)

  listed-cases :
      (s : Storage) (l : List Event)
      → list_events ctx user_id from to s ≡ listed l
      → (may_ask user_id from to ≡ true)
        × ((es : List Event) × (collect ctx 1 user_id from to [] s ≡ listed es)
            × (l ≡ sort_slice starts_before es))
  unfolding list_events
  listed-cases s l h = elim (Listed-cases (collect ctx 1 user_id from to [] s)) [
    | inl (x, e) ↦ absurd (ground arith)
    | inr (es, e) ↦ (ground arith, (es, e, ground arith))
  ]
    where
      Listed-cases :
          (r : Listed) → ((x : Error) × (r ≡ failed x)) ⊎ ((es : List Event) × (r ≡ listed es))
      Listed-cases (failed x) = inl (x, refl)
      Listed-cases (listed es) = inr (es, refl)

  -- What `ListEvents` lists is, under every context, the sorted list of the user's stored events that overlap the
  -- interval; a blank user or an empty interval, or one that begins or ends at the zero time, is refused.
  pub list_events-IsListing :
      (s : Storage) (l : List Event) → list_events ctx user_id from to s ≡ listed l → IsListing s l
  list_events-IsListing s l h =
      let (ok, es, collected, same) = listed-parts in
      record {
        asked = ok;
        sorted =
            subst (Sorted starts_before) (sym same)
              (sort_slice-Sorted starts_before starts_before_asym starts_before_neg_trans es);
        exact = λ p.
            ap (count p) same
            ∙ count-sort_slice starts_before p es
            ∙ collect-count 1 [] s es collected p
            ∙ (unfold count in omega arith);
      }
    where
      listed-parts :
          (may_ask user_id from to ≡ true)
          × (es : List Event) × (collect ctx 1 user_id from to [] s ≡ listed es)
          × (l ≡ sort_slice starts_before es)
      listed-parts = let (ok, rest) = listed-cases s l h in (ok, rest.0, rest.1, rest.2)

  -- Under a live context `ListEvents` lists exactly where the query may be asked.
  list_events_live :
      (s : Storage)
      → ((i : ℕ) → ctx i ≡ none)
      → may_ask user_id from to ≡ true
      → (l : List Event) × (list_events ctx user_id from to s ≡ listed l) × IsListing s l
  list_events_live s h ok =
      let (es, collected) = collect_live 1 [] s h in
      let e : list_events ctx user_id from to s ≡ listed (sort_slice starts_before es) =
        unfold list_events in ground (arith, h 0, collected) in
      (sort_slice starts_before es, e, list_events-IsListing s _ e)
