-- ===== src/Pipeline/Laws.antt =====
-- What `forward` promises to the three ends of its channels.
use golang_hw.Pipeline.{
  Phase, checking, receiving, delivering, draining, returned, Forward, start, stop, Step, cancel,
  close_in, see_done, see_default, wait_done, receive, receive_closed, deliver_done, deliver, drain,
  drain_closed, Reach, here, more,
}
use golang_hw.Prelude.{
  ◌≤◌, ◌≡◌, ◌↔◌, refl, sym, Bool, true, false, not, List, [], ◌∷◌, ◌++◌, arith, ◌⊎◌, inl, inr,
  append-nil, append_assoc, ap, length, ◌∙◌,
}

module _ {A : Type 0} where
  -- The phases before the goroutine leaves its loop.
  abbrev pub is_running : Phase A → Bool
  is_running checking = true
  is_running receiving = true
  is_running (delivering v) = true
  is_running draining = false
  is_running returned = false

  abbrev pub is_draining : Phase A → Bool
  is_draining draining = true
  is_draining checking = false
  is_draining receiving = false
  is_draining (delivering v) = false
  is_draining returned = false

  -- The value in the goroutine's hands, if it is at the third select.
  abbrev pub held : Phase A → List A
  held (delivering v) = v ∷ []
  held checking = []
  held receiving = []
  held draining = []
  held returned = []

  -- Every value received was sent on, or the one at hand was dropped on cancellation.
  abbrev pub Ended : Forward A → Type 0
  Ended f =
      ((f.in_closed ≡ true) × (f.received ≡ f.sent))
      ⊎ ((f.done ≡ true) × ((f.received ≡ f.sent) ⊎ ((v : A) × (f.received ≡ f.sent ++ v ∷ []))))

module _ {A : Type 0} (drain_on_done : Bool) where
  pub record IsValid (f : Forward A) : Type 0 where
    pub closing : f.out_closed ≡ not (is_running f.phase)
    pub going : (is_running f.phase ≡ false) ⊎ (f.received ≡ f.sent ++ held f.phase)
    pub ended : (is_running f.phase ≡ true) ⊎ Ended f
    pub untouched : (drain_on_done ≡ true) ⊎ (f.drained ≡ [])
    pub drains : (drain_on_done ≡ true) ⊎ (is_draining f.phase ≡ false)
    pub undrained : (is_running f.phase ≡ false) ⊎ (f.drained ≡ [])
    pub stopped : (is_draining f.phase ≡ false) ⊎ (f.done ≡ true)
    pub dropped : (f.drained ≡ []) ⊎ (f.done ≡ true)

  Step-IsValid : {f g : Forward A} → Step drain_on_done f g → IsValid f → IsValid g
  unfolding stop
  Step-IsValid (cancel f) v = ground arith
  Step-IsValid (close_in f) v = ground arith
  Step-IsValid (see_done f p d) v = ground (arith, append-nil f.sent)
  Step-IsValid (see_default f p d) v = ground arith
  Step-IsValid (wait_done f p d) v = ground (arith, append-nil f.sent)
  Step-IsValid (receive f x p c) v = ground (arith, append-nil f.sent)
  Step-IsValid (receive_closed f p c) v = ground (arith, append-nil f.sent)
  Step-IsValid (deliver_done f x p d) v = record {
    closing = ground arith;
    going = ground arith;
    ended = inr (inr (d, inr (x, ground (arith, at_hand))));
    untouched = v.untouched;
    drains = ground arith;
    undrained = ground arith;
    stopped = inr d;
    dropped = inr d;
  }
    where
      at_hand : f.received ≡ f.sent ++ x ∷ []
      at_hand = ground (arith, v.going)
  Step-IsValid (deliver f x p) v = ground (arith, append-nil (f.sent ++ x ∷ []))
  Step-IsValid (drain f x p c) v = ground arith
  Step-IsValid (drain_closed f p c) v = ground arith

  start-IsValid : IsValid (start A)
  unfolding start
  start-IsValid = ground arith

  Reach-IsValid : {f g : Forward A} → IsValid f → Reach drain_on_done f g → IsValid g
  Reach-IsValid v here = v
  Reach-IsValid v (more r st) = Step-IsValid st (Reach-IsValid v r)

  -- A value that has been received and not sent is at hand, or was dropped on cancellation.
  IsValid-order :
      (f : Forward A)
      → IsValid f
      → (lost : List A) × (f.received ≡ f.sent ++ lost) × (length lost ≤ 1)
  IsValid-order f v = elim v.going [
    | inl stopped ↦ elim v.ended [
      | inl going ↦ absurd (ground arith)
      | inr (inl (c, e)) ↦ ([], e ∙ sym (append-nil f.sent), omega arith)
      | inr (inr (d, inl e)) ↦ ([], e ∙ sym (append-nil f.sent), omega arith)
      | inr (inr (d, inr (x, e))) ↦ (x ∷ [], e, omega arith)
    ]
    | inr e ↦ (held f.phase, e, at_most_one f.phase)
  ]
    where
      at_most_one : (p : Phase A) → length (held p) ≤ 1
      at_most_one (delivering x) = omega arith
      at_most_one checking = omega arith
      at_most_one receiving = omega arith
      at_most_one draining = omega arith
      at_most_one returned = omega arith

  -- In every state that `forward` reaches: what it has taken from `in` is what it has sent, in this
  -- order, then at most one value that it holds or has dropped, then the values received in `stop`,
  -- which it drops, however many they are. There are none of these without `drainOnDone`, before `done`
  -- is closed, or while `out` is open. `out` is closed exactly when it has left its loop; and it has
  -- then sent everything that it took, `in` being closed, or `done` is closed.
  pub forward_order :
      (f : Forward A)
      → Reach drain_on_done (start A) f
      → ((lost : List A) × (f.received ++ f.drained ≡ f.sent ++ (lost ++ f.drained))
          × (length lost ≤ 1))
        × ((f.drained ≡ []) ⊎ ((drain_on_done ≡ true) × (f.done ≡ true) × (f.out_closed ≡ true)))
        × ((f.out_closed ≡ true) ↔ (is_running f.phase ≡ false))
        × ((f.out_closed ≡ false)
            ⊎ ((f.in_closed ≡ true) × (f.received ≡ f.sent) × (f.drained ≡ []))
            ⊎ (f.done ≡ true))
  forward_order f r =
      let v = Reach-IsValid start-IsValid r in
      let (lost, e, k) = IsValid-order f v in
      (
        (lost, ap (λ l. l ++ f.drained) e ∙ append_assoc f.sent lost f.drained, k),
        drained-part f v,
        (ground (arith, v.closing), ground (arith, v.closing)),
        last-part f v,
      )
    where
      last-part :
          (f : Forward A)
          → IsValid f
          → (f.out_closed ≡ false)
            ⊎ ((f.in_closed ≡ true) × (f.received ≡ f.sent) × (f.drained ≡ []))
            ⊎ (f.done ≡ true)
      last-part f v = elim v.ended [
        | inl going ↦ inl (ground (arith, v.closing))
        | inr (inl (c, e)) ↦ elim v.dropped [ inl n ↦ inr (inl (c, e, n)) | inr d ↦ inr (inr d) ]
        | inr (inr (d, e)) ↦ inr (inr d)
      ]

      drained-part :
          (f : Forward A)
          → IsValid f
          → (f.drained ≡ []) ⊎ ((drain_on_done ≡ true) × (f.done ≡ true) × (f.out_closed ≡ true))
      drained-part f v = elim v.dropped [
        | inl n ↦ inl n
        | inr d ↦ elim v.untouched [
          | inr n ↦ inl n
          | inl b ↦ elim v.undrained [
            | inr n ↦ inl n
            | inl s ↦ inr (b, d, ground (arith, v.closing))
          ]
        ]
      ]

-- Without `drainOnDone` nothing is received in `stop`: cancellation leaves the caller's input alone.
forward_keeps_input : {A : Type 0} (f : Forward A) → Reach false (start A) f → f.drained ≡ []
forward_keeps_input f r =
    let v = Reach-IsValid false (start-IsValid false) r in ground (arith, v.untouched)

running-Step :
    {A : Type 0} (b : Bool) (f : Forward A) (p : Phase A)
    → f.phase ≡ p
    → is_running p ≡ true
    → f.done ≡ true
    → Step b f (stop b f)
running-Step b f checking e h d = see_done f e d
running-Step b f receiving e h d = wait_done f e d
running-Step b f (delivering v) e h d = deliver_done f v e d
running-Step b f draining e h d = cc
running-Step b f returned e h d = cc

-- Once `done` is closed, the goroutine can leave its loop wherever it stands, with no help from the
-- reader of `out` or the writer of `in`: it closes `out` and sends nothing more.
forward_cancel :
    {A : Type 0} (drain_on_done : Bool) (f : Forward A)
    → f.done ≡ true
    → f.out_closed ≡ false
    → Reach drain_on_done (start A) f
    → (g : Forward A) × Step drain_on_done f g
      × (g.out_closed ≡ true)
      × (g.sent ≡ f.sent)
      × (g.received ≡ f.received)
unfolding stop
forward_cancel b f d o r =
    let v = Reach-IsValid b (start-IsValid b) r in
    (stop b f, running-Step b f f.phase refl (ground (arith, v.closing)) d, refl, refl, refl)
