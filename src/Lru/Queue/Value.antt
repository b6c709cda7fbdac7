-- ===== src/Lru/Queue/Value.antt =====
-- Reading and writing the value of an item.
use golang_hw.Lru.Queue.Remove.{Around, Chain-Around}
use golang_hw.Lru.Queue.Seg.{
  Items, first, last, Distinct, Seg-frame, Seg-join, last-append, first-append, Chain, queue_of,
  IsQueue,
}
use golang_hw.Lru.Queue.{node, Cells, update, Queue, load}
use golang_hw.Prelude.{
  ℕ, ◌≡◌, none, some, [], ◌∷◌, ◌++◌, All-append, All-left, All-right, arith, length-append,
}

module _ {A : Type 0} where
  Distinct-value :
      (xs : Items A) (a : ℕ) (v w : A) (ys : Items A)
      → Distinct (xs ++ (a, v) ∷ ys)
      → Distinct (xs ++ (a, w) ∷ ys)
  Distinct-value [] a v w ys d = d
  Distinct-value (x ∷ xs) a v w ys (o, d) = (
    All-append _ xs ((a, w) ∷ ys) (All-left _ xs ((a, v) ∷ ys) o)
        ((All-right _ xs ((a, v) ∷ ys) o).0, (All-right _ xs ((a, v) ∷ ys) o).1),
    Distinct-value xs a v w ys d,
  )

  set_value-Chain :
      (c : Cells A) (n : ℕ) (xs : Items A) (a : ℕ) (v w : A) (ys : Items A)
      → Chain c n (xs ++ (a, v) ∷ ys)
      → Chain (update c a (node w (first ys none) (last none xs))) n (xs ++ (a, w) ∷ ys)
  set_value-Chain c n xs a v w ys h = record {
    linked =
        Seg-join _ xs ((a, w) ∷ ys) none none
          (Seg-frame c xs none (some a) a _ around.out_before around.before)
          (ground arith, Seg-frame c ys (some a) none a _ around.out_after around.after);
    distinct = Distinct-value xs a v w ys h.distinct;
    below =
        All-append _ xs ((a, w) ∷ ys) (All-left _ xs ((a, v) ∷ ys) h.below)
          (All-right _ xs ((a, v) ∷ ys) h.below);
  }
    where
      around : Around c xs a v ys
      around = Chain-Around c n xs a v ys h

  -- What `load` reads at an item of a list.
  pub load_item :
      (q : Queue A) (xs : Items A) (a : ℕ) (v : A) (ys : Items A)
      → IsQueue q (xs ++ (a, v) ∷ ys)
      → load (some a) q ≡ some (node v (first ys none) (last none xs))
  load_item q xs a v ys h = (Chain-Around q.cell q.fresh xs a v ys h.chain).item

  queue_of-value :
      (c : Cells A) (n : ℕ) (xs : Items A) (a : ℕ) (v w : A) (ys : Items A)
      → queue_of c n (xs ++ (a, v) ∷ ys) ≡ queue_of c n (xs ++ (a, w) ∷ ys)
  queue_of-value c n xs a v w ys = ground (
    arith,
    first-append xs ((a, v) ∷ ys) none,
    first-append xs ((a, w) ∷ ys) none,
    last-append xs ((a, v) ∷ ys) none,
    last-append xs ((a, w) ∷ ys) none,
    length-append xs ((a, v) ∷ ys),
    length-append xs ((a, w) ∷ ys),
  )

  -- A write to an item's value changes that value alone.
  pub set_value-IsQueue :
      (q : Queue A) (xs : Items A) (a : ℕ) (v w : A) (ys : Items A)
      → IsQueue q (xs ++ (a, v) ∷ ys)
      → IsQueue
          (record q { cell = update q.cell a (node w (first ys none) (last none xs)) })
          (xs ++ (a, w) ∷ ys)
  set_value-IsQueue q xs a v w ys h = record {
    fields = ground (arith, h.fields, queue_of-value q.cell q.fresh xs a v w ys);
    chain = set_value-Chain q.cell q.fresh xs a v w ys h.chain;
  }
