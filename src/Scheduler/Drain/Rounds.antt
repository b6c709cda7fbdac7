-- ===== src/Scheduler/Drain/Rounds.antt =====
-- The rounds of a cycle of internal/scheduler/scheduler.go, when every call succeeds.
use golang_hw.Calendar.Event.{Time, Event, is_zero}
use golang_hw.Scheduler.{
  Config, Call, deleted_before, listed, observed, batch, Round, returned, rounds_from, observe,
  cycle, run_once,
}
use golang_hw.Prelude.Int.{pos, leb_ℤ}
use mathlib.Core.List.{map-append}
use golang_hw.Prelude.{
  subst, ap₂, append-nil, Bool-cases, All-left, All-right, ℕ, zero, suc, ◌≤◌, ◌<◌, true, false,
  none, List, [], ◌∷◌, ◌++◌, ◌≡◌, ◌⊎◌, inl, inr, ◌==◌, length, take, drop, map, arith, refl, All,
  ap, ◌∙◌, sym, take-append-drop,
}
use golang_hw.Scheduler.Drain.{
  PendingStore, IsLawful, sends, message, IsPublishable, answers, script, Drains, length-answers,
  length-script, Performs, Performs-append, LeavesNothing, map-answers, sends-append,
}
use golang_hw.Scheduler.Drain.Batch.{batch_good}
use golang_hw.Scheduler.Drain.OneRound.{
  round_last, round_more, sends_listed, sends_whole, taken, length-drop-le,
}

module _ (S : PendingStore) (L : IsLawful S) (now : Time) (nonzero : is_zero now ≡ false) where
  script_step :
      (limit k : ℕ) (s : S.State) (e : Event) (events : List Event)
      → take (suc limit) (S.due s now) ≡ e ∷ events
      → script S now (suc limit) (suc k) s ≡ (
        record { ctx_err = none; listing = inr (answers S now s (e ∷ events)).0 }
            ∷ (script S now (suc limit) k (answers S now s (e ∷ events)).1).0,
        (script S now (suc limit) k (answers S now s (e ∷ events)).1).1,
      )
  unfolding script
  script_step limit k s e events l = rw (l) refl

  not-idle :
      (s : S.State) (e : Event) (events : List Event)
      → (length (answers S now s (e ∷ events)).0 == 0) ≡ false
  not-idle s e events = ground (arith, length-answers S now s (e ∷ events))

  -- Less than a batch is the rest of what is due.
  last_rest :
      (config : Config) (limit : ℕ) (s : S.State) (e : Event) (events rest : List Event)
      → config.batch_size ≡ pos (suc limit)
      → leb_ℤ config.batch_size (pos (length (answers S now s (e ∷ events)).0)) ≡ false
      → (limit ≤ length events) ⊎ (rest ≡ [])
      → rest ≡ []
  last_rest config limit s e events rest z h (inr q) = q
  last_rest config limit s e events rest z h (inl q) =
      absurd (ground (arith, z, length-answers S now s (e ∷ events)))

  -- What a round lists is what the storage lists, and the calls behind it follow.
  Performs-listed :
      (limit : ℕ) (config : Config) (s t : S.State) (events : List Event) (calls : List Call)
      → config.batch_size ≡ pos (suc limit)
      → take (suc limit) (S.due s now) ≡ events
      → Performs S s calls t
      → Performs S s
          (listed now config.batch_size (inr (map (λ a. a.0) (answers S now s events).0)) ∷ calls)
          t
  unfolding Performs
  Performs-listed limit config s t events calls z l p = (
    ap inr (map-answers S now s events)
        ∙ sym (ap (S.list s now) z ∙ L.list-due s now limit nonzero ∙ ap inr l),
    p,
  )

  round_none :
      (config : Config) (limit k : ℕ) (s : S.State)
      → take (suc limit) (S.due s now) ≡ []
      → rounds_from config now (script S now (suc limit) (suc k) s).0
        ≡ (returned none, listed now config.batch_size (inr []) ∷ [])
  unfolding script answers rounds_from
  round_none config limit k s l = rw (l, script, answers, rounds_from) refl

  idle_Drains :
      (config : Config) (limit k : ℕ) (s : S.State)
      → config.batch_size ≡ pos (suc limit)
      → S.due s now ≡ []
      → Drains S now config (suc limit) (suc k) s
  unfolding Drains LeavesNothing Performs sends
  idle_Drains config limit k s z d =
      let l = ap (take (suc limit)) d in
      let run = round_none config limit k s l in
      (
        ap (λ r. r.0) run,
        ap (λ r. sends r.1) run ∙ sym (ap (map message) d),
        (
          s,
          subst (λ r. Performs S s r.1 s) (sym run)
              (sym (ap (S.list s now) z ∙ L.list-due s now limit nonzero ∙ ap inr l), refl),
          d,
        ),
      )

  round_good :
      (config : Config) (limit k : ℕ) (s : S.State) (e : Event) (events rest : List Event)
      → config.batch_size ≡ pos (suc limit)
      → take (suc limit) (S.due s now) ≡ e ∷ events
      → S.due s now ≡ (e ∷ events) ++ rest
      → (limit ≤ length events) ⊎ (rest ≡ [])
      → All IsPublishable (e ∷ events)
      → Drains S now config (suc limit) k (answers S now s (e ∷ events)).1
      → Drains S now config (suc limit) (suc k) s
  unfolding Drains LeavesNothing
  round_good config limit k s e events rest z l d short p ih =
      let all = answers S now s (e ∷ events) in
      let calls = (batch now false all.0).1 in
      let next = (script S now (suc limit) k all.1).0 in
      let (b, c, g, f) = batch_good S L now nonzero s (e ∷ events) rest d p in
      let step = ap (λ x. rounds_from config now x.0) (script_step limit k s e events l) in
      let some_due = not-idle s e events in
      elim (Bool-cases (leb_ℤ config.batch_size (pos (length all.0)))) [
        | inl whole ↦
            let run = step ∙ round_more now config all.0 next some_due b whole in
            let more = rounds_from config now next in
            let (t, i, j) = ih.2 in
            (
              ap (λ x. x.0) run ∙ ih.0,
              ap (λ x. sends x.1) run
                  ∙ sends_listed now config.batch_size (inr (map (λ a. a.0) all.0))
                      (calls ++ more.1)
                  ∙ sends-append calls more.1
                  ∙ ap₂ ◌++◌ c (ih.1 ∙ ap (map message) g)
                  ∙ sym (map-append message (e ∷ events) rest)
                  ∙ sym (ap (map message) d),
              (
                t,
                subst (λ x. Performs S s x.1 t) (sym run)
                    (Performs-listed limit config s t (e ∷ events) (calls ++ more.1) z l
                      (Performs-append S s all.1 t calls more.1 f i)),
                j,
              ),
            )
        | inr less ↦
            let run = step ∙ round_last now config all.0 next some_due b less in
            let none_left = last_rest config limit s e events rest z less short in
            (
              ap (λ x. x.0) run,
              ap (λ x. sends x.1) run
                  ∙ sends_listed now config.batch_size (inr (map (λ a. a.0) all.0)) calls
                  ∙ c
                  ∙ sym (
                      ap (map message)
                        (d ∙ ap (λ t. (e ∷ events) ++ t) none_left ∙ append-nil (e ∷ events))),
              (
                all.1,
                subst (λ x. Performs S s x.1 all.1) (sym run)
                    (Performs-listed limit config s all.1 (e ∷ events) calls z l f),
                g ∙ none_left,
              ),
            )
      ]

  -- Enough rounds: each takes at least one due event away.
  rounds_good :
      (config : Config) (limit k : ℕ) (s : S.State) (due : List Event)
      → config.batch_size ≡ pos (suc limit)
      → S.due s now ≡ due
      → length due < k
      → All IsPublishable due
      → Drains S now config (suc limit) k s
  rounds_good config limit zero s due z d h p = absurd (omega arith)
  rounds_good config limit (suc k) s [] z d h p = idle_Drains config limit k s z d
  rounds_good config limit (suc k) s (e ∷ due) z d h p =
      let rest = drop limit due in
      let split = d ∙ ap (◌∷◌ e) (sym (take-append-drop limit due)) in
      let good = subst (All IsPublishable) (sym (take-append-drop limit due)) p.1 in
      let front : All IsPublishable (e ∷ take limit due) =
        (p.0, All-left IsPublishable (take limit due) rest good) in
      let shorter = length-drop-le limit due in
      round_good config limit k s e (take limit due) rest z (ap (take (suc limit)) d) split
        (taken limit due) front
        (rounds_good config limit k (answers S now s (e ∷ take limit due)).1 rest z
          (batch_good S L now nonzero s (e ∷ take limit due) rest split front).2 (omega arith)
          (All-right IsPublishable (take limit due) rest good))

  -- Behind the deletion, and in front of the metric.
  whole_LeavesNothing :
      (s : S.State) (cutoff : Time) (calls : List Call)
      → (S.delete_before s cutoff).1 ≡ none
      → LeavesNothing S now (S.delete_before s cutoff).0 calls
      → LeavesNothing S now s (deleted_before cutoff none ∷ calls ++ observed true ∷ [])
  unfolding LeavesNothing Performs
  whole_LeavesNothing s cutoff calls n (t, p, d) = (
    t,
    (sym n, Performs-append S (S.delete_before s cutoff).0 t t calls (observed true ∷ []) p refl),
    d,
  )

  -- Let a storage keep its contract, the size of a batch be positive, neither time be zero, that of the
  -- deletion have passed, and all due events make a valid notification. Some answers to the calls of a
  -- cycle are such that the cycle ends without an error, it has sent the notification of each due event
  -- once, in their order, and its calls, made on the storage in their order, have just these answers and
  -- leave nothing due. One round more than there are due events is enough.
  pub run_once-Drains :
      (config : Config) (cutoff : Time) (limit k : ℕ) (s : S.State)
      → config.batch_size ≡ pos (suc limit)
      → is_zero cutoff ≡ false
      → leb_ℤ cutoff now ≡ true
      → length (S.due s now) < k
      → All IsPublishable (S.due s now)
      → (rounds : List Round) × ((run_once config now cutoff none none rounds).0 ≡ returned none)
        × (sends (run_once config now cutoff none none rounds).1 ≡ map message (S.due s now))
        × LeavesNothing S now s (run_once config now cutoff none none rounds).1
        × (length rounds ≡ k)
  unfolding run_once cycle Drains observe
  run_once-Drains config cutoff limit k s z old past h p =
      let start = (S.delete_before s cutoff).0 in
      let (same, deleted) = L.delete_before-due s now cutoff old past in
      let rounds = (script S now (suc limit) k start).0 in
      let r = rounds_from config now rounds in
      let (a, b, c) =
        rounds_good config limit k start (S.due start now) z refl (omega (arith, ap length same))
          (subst (All IsPublishable) (sym same) p) in
      (
        rounds,
        a,
        sends_whole r cutoff a ∙ b ∙ ap (map message) same,
        subst (λ e. LeavesNothing S now s (deleted_before cutoff none ∷ r.1 ++ observe e)) (sym a)
            (whole_LeavesNothing s cutoff r.1 deleted c),
        length-script S now (suc limit) k start,
      )
