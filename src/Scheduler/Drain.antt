-- ===== src/Scheduler/Drain.antt =====
-- A cycle of internal/scheduler/scheduler.go over a storage that keeps its contract, with a broker that
-- takes every message. Batch and OneRound are about one round, Rounds about the whole cycle, SqlStore
-- about a storage.
pub mod Batch
pub mod OneRound
pub mod Rounds
pub mod SqlStore
use golang_hw.Calendar.Event.{Time, Event, is_zero}
use golang_hw.Notification.{Failure, Notification, validate}
use golang_hw.Scheduler.{
  Config, Call, deleted_before, listed, sent, marked, published, observed, Answers, notification_of,
  publish, batch, Round, Ending, returned, running, rounds_from, observe, cycle, run_once,
}
use golang_hw.Prelude.Int.{ℤ, pos, leb_ℤ}
use mathlib.Core.List.{map-append}
use golang_hw.Prelude.{
  subst, ap₂, append-nil, Bool-cases, All-left, All-right, ℕ, zero, suc, ◌≤◌, ◌<◌, Bool, true,
  false, not, ◌&&◌, Option, none, some, List, [], ◌∷◌, ◌++◌, ◌≡◌, ◌⊎◌, inl, inr, ◌==◌,
  if◌then◌else◌, length, take, drop, map, arith, refl, All, Text, ap, ◌∙◌, sym, take-append-drop,
}

-- The scheduler's `Storage`, for the events that are due in a state: the operations answer, and change
-- the state.
pub record PendingStore : Type 1 where
  pub State : Type 0
  pub due : State → Time → List Event
  pub list : State → Time → ℤ → Failure ⊎ List Event
  pub mark : State → Event → Time → State × (Failure ⊎ Bool)
  pub delete_before : State → Time → State × Option Failure

-- At a time that is not zero, the list gives the first due events, up to the limit, and a mark takes the
-- first due event away; a deletion up to a time that has passed takes none away.
pub record IsLawful (S : PendingStore) : Type 0 where
  pub list-due :
      (s : S.State) (now : Time) (limit : ℕ)
      → is_zero now ≡ false
      → S.list s now (pos (suc limit)) ≡ inr (take (suc limit) (S.due s now))
  pub mark-due :
      (s : S.State) (now : Time) (e : Event) (rest : List Event)
      → is_zero now ≡ false
      → S.due s now ≡ e ∷ rest
      → (S.due (S.mark s e now).0 now ≡ rest) × ((S.mark s e now).1 ≡ inr true)
  pub delete_before-due :
      (s : S.State) (now cutoff : Time)
      → is_zero cutoff ≡ false
      → leb_ℤ cutoff now ≡ true
      → (S.due (S.delete_before s cutoff).0 now ≡ S.due s now)
        × ((S.delete_before s cutoff).1 ≡ none)

-- What was sent, in order.
unfoldable pub sends : List Call → List (Text × Notification)
sends [] = []
sends (sent key n r ∷ calls) = (key, n) ∷ sends calls
sends (deleted_before t r ∷ calls) = sends calls
sends (listed t n r ∷ calls) = sends calls
sends (marked e t r ∷ calls) = sends calls
sends (published ok ∷ calls) = sends calls
sends (observed ok ∷ calls) = sends calls

abbrev pub message : Event → Text × Notification
message e = (e.id, notification_of e)

unfoldable pub IsPublishable : Event → Type 0
IsPublishable e = validate (notification_of e) ≡ none

module _ (S : PendingStore) (now : Time) where
  -- The answers to the publication of these events, one after another.
  unfoldable pub answers : S.State → List Event → List (Event × Answers) × S.State
  answers s [] = ([], s)
  answers s (e ∷ events) =
      let rest = answers (S.mark s e now).0 events in
      ((e, record { marshal = none; send = none; mark = inr true }) ∷ rest.0, rest.1)

  -- The rounds of a cycle, at most this many, and the state behind them.
  unfoldable pub script : (limit : ℕ) → ℕ → S.State → List Round × S.State
  script limit zero s = ([], s)
  script limit (suc k) s =
      let b = answers s (take limit (S.due s now)) in
      let rest = script limit k b.1 in
      (record { ctx_err = none; listing = inr b.0 } ∷ rest.0, rest.1)

module _ (S : PendingStore) where
  -- These calls, made on the storage and on a broker that takes every message, have the answers that
  -- stand beside them, and lead from the one state to the other.
  unfoldable pub Performs : S.State → List Call → S.State → Type 0
  Performs s [] t = s ≡ t
  Performs s (deleted_before cutoff r ∷ calls) t =
      (r ≡ (S.delete_before s cutoff).1) × Performs (S.delete_before s cutoff).0 calls t
  Performs s (listed now n r ∷ calls) t = (r ≡ S.list s now n) × Performs s calls t
  Performs s (sent key n r ∷ calls) t = (r ≡ none) × Performs s calls t
  Performs s (marked e at r ∷ calls) t =
      (r ≡ (S.mark s e at).1) × Performs (S.mark s e at).0 calls t
  Performs s (published ok ∷ calls) t = Performs s calls t
  Performs s (observed ok ∷ calls) t = Performs s calls t

  Performs-append :
      (s t u : S.State) (l k : List Call) → Performs s l t → Performs t k u → Performs s (l ++ k) u
  unfolding Performs
  Performs-append s t u [] k p q = subst (λ x. Performs x k u) (sym p) q
  Performs-append s t u (deleted_before cutoff r ∷ l) k (a, p) q =
      (a, Performs-append (S.delete_before s cutoff).0 t u l k p q)
  Performs-append s t u (listed now n r ∷ l) k (a, p) q = (a, Performs-append s t u l k p q)
  Performs-append s t u (sent key n r ∷ l) k (a, p) q = (a, Performs-append s t u l k p q)
  Performs-append s t u (marked e at r ∷ l) k (a, p) q =
      (a, Performs-append (S.mark s e at).0 t u l k p q)
  Performs-append s t u (published ok ∷ l) k p q = Performs-append s t u l k p q
  Performs-append s t u (observed ok ∷ l) k p q = Performs-append s t u l k p q

module _ (S : PendingStore) (now : Time) where
  -- The calls are what the storage performs, and behind them nothing is due any more.
  unfoldable pub LeavesNothing : S.State → List Call → Type 0
  LeavesNothing s calls = (t : S.State) × Performs S s calls t × (S.due t now ≡ [])

  -- The cycle ends without an error, it has sent what was due, and its calls leave nothing due.
  unfoldable pub Drains : Config → (limit k : ℕ) → S.State → Type 0
  Drains config limit k s =
      ((rounds_from config now (script S now limit k s).0).0 ≡ returned none)
      × (sends (rounds_from config now (script S now limit k s).0).1 ≡ map message (S.due s now))
      × LeavesNothing s (rounds_from config now (script S now limit k s).0).1

  length-answers :
      (s : S.State) (events : List Event) → length (answers S now s events).0 ≡ length events
  unfolding answers
  length-answers s [] = refl
  length-answers s (e ∷ events) = ap suc (length-answers (S.mark s e now).0 events)

  length-script : (limit k : ℕ) (s : S.State) → length (script S now limit k s).0 ≡ k
  unfolding script
  length-script limit zero s = refl
  length-script limit (suc k) s =
      ap suc (length-script limit k (answers S now s (take limit (S.due s now))).1)

  map-answers :
      (s : S.State) (events : List Event) → map (λ a. a.0) (answers S now s events).0 ≡ events
  unfolding answers
  map-answers s [] = refl
  map-answers s (e ∷ events) = ap (◌∷◌ e) (map-answers (S.mark s e now).0 events)

sends-append : (l k : List Call) → sends (l ++ k) ≡ sends l ++ sends k
unfolding sends
sends-append [] k = refl
sends-append (sent key n r ∷ l) k = ap (◌∷◌ (key, n)) (sends-append l k)
sends-append (deleted_before t r ∷ l) k = sends-append l k
sends-append (listed t n r ∷ l) k = sends-append l k
sends-append (marked e t r ∷ l) k = sends-append l k
sends-append (published ok ∷ l) k = sends-append l k
sends-append (observed ok ∷ l) k = sends-append l k
