-- ===== src/Scheduler/Drain/Batch.antt =====
-- One batch of internal/scheduler/scheduler.go, when every call succeeds.
use golang_hw.Calendar.Event.{Time, Event, is_zero}
use golang_hw.Scheduler.{Call, sent, marked, published, Answers, notification_of, publish, batch}
use golang_hw.Prelude.{
  true, false, none, List, [], ◌∷◌, ◌++◌, ◌≡◌, inr, map, arith, refl, All, ap, ◌∙◌, sym, subst,
}
use golang_hw.Scheduler.Drain.{
  PendingStore, IsLawful, sends, message, IsPublishable, answers, Performs,
}

module _ (now : Time) where
  batch_nil : ((batch now false []).0 ≡ inr false) × (sends (batch now false []).1 ≡ [])
  unfolding batch sends
  batch_nil = (refl, refl)

  sends_step :
      (e : Event) (calls : List Call)
      → sends
          (sent e.id (notification_of e) none ∷ published true ∷ marked e now (inr true) ∷ calls)
        ≡ message e ∷ sends calls
  unfolding sends
  sends_step e calls = refl

  publish_good :
      (e : Event)
      → IsPublishable e
      → publish e now (record { marshal = none; send = none; mark = inr true }) ≡ (
        inr true,
        sent e.id (notification_of e) none ∷ published true ∷ marked e now (inr true) ∷ [],
      )
  unfolding publish IsPublishable
  publish_good e p = rw (p) refl

  batch_first :
      (e : Event) (a : Answers) (events : List (Event × Answers)) (calls : List Call)
      → publish e now a ≡ (inr true, calls)
      → batch now false ((e, a) ∷ events)
        ≡ ((batch now false events).0, calls ++ (batch now false events).1)
  unfolding batch
  batch_first e a events calls p = ground (arith, p)

  -- A good event in front of a batch: its calls come first.
  batch_step :
      (e : Event) (events : List (Event × Answers))
      → IsPublishable e
      → batch now false ((e, record { marshal = none; send = none; mark = inr true }) ∷ events) ≡ (
        (batch now false events).0,
        sent e.id (notification_of e) none
            ∷ published true
            ∷ marked e now (inr true)
            ∷ (batch now false events).1,
      )
  batch_step e events p =
      batch_first e (record { marshal = none; send = none; mark = inr true }) events
        (sent e.id (notification_of e) none ∷ published true ∷ marked e now (inr true) ∷ [])
        (publish_good e p)

module _ (S : PendingStore) (L : IsLawful S) (now : Time) (nonzero : is_zero now ≡ false) where
  -- The calls for an event, in front of those for the others.
  Performs-step :
      (s t : S.State) (e : Event) (calls : List Call)
      → (S.mark s e now).1 ≡ inr true
      → Performs S (S.mark s e now).0 calls t
      → Performs S s
          (sent e.id (notification_of e) none ∷ published true ∷ marked e now (inr true) ∷ calls)
          t
  unfolding Performs
  Performs-step s t e calls m p = (refl, (sym m, p))

  -- A batch of the first due events.
  pub batch_good :
      (s : S.State) (events rest : List Event)
      → S.due s now ≡ events ++ rest
      → All IsPublishable events
      → ((batch now false (answers S now s events).0).0 ≡ inr false)
        × (sends (batch now false (answers S now s events).0).1 ≡ map message events)
        × (S.due (answers S now s events).1 now ≡ rest)
        × Performs S s (batch now false (answers S now s events).0).1 (answers S now s events).1
  unfolding answers batch Performs
  batch_good s [] rest d h = ((batch_nil now).0, (batch_nil now).1, d, refl)
  batch_good s (e ∷ events) rest d (p, h) =
      let q = L.mark-due s now e (events ++ rest) nonzero d in
      let next = (S.mark s e now).0 in
      let (a, b, c, f) = batch_good next events rest q.0 h in
      let step = batch_step now e (answers S now next events).0 p in
      let calls = (batch now false (answers S now next events).0).1 in
      (
        ap (λ r. r.0) step ∙ a,
        ap (λ r. sends r.1) step ∙ sends_step now e calls ∙ ap (◌∷◌ (message e)) b,
        c,
        subst (λ r. Performs S s r.1 (answers S now next events).1) (sym step)
            (Performs-step s (answers S now next events).1 e calls q.1 f),
      )
