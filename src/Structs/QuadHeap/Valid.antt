-- ===== src/Structs/QuadHeap/Valid.antt =====
-- structs/quadheap.go: what holds of a heap between two operations, and what an operation yields.
use mathlib.Core.List.{lookup}
use goactor.Prelude.{
  ℕ, zero, suc, ◌<◌, ◌≤◌, ◌≡◌, sym, ◌∙◌, ap, Bool, false, Option, some, arith, Option-cases, inl,
  inr, Run, ok,
}
use goactor.Prelude.Assoc.{length}
use goactor.Prelude.Slice.{get_elem?-within, get_elem?-lt}
use goactor.Structs.QuadHeap.{HeapEntry, QuadHeap, precedes}
use goactor.Structs.QuadHeap.Order.{
  IsDeadline, parent, At, IsHeap, IsIndexed, entry_of, precedes_trans, precedes_asym,
}
use goactor.Structs.QuadHeap.Index.{Rearranged}
use goactor.Structs.QuadHeap.Up.{Restores}

module _ {K V W : Type 0} (dec : Discrete K) (lt eq : W → W → Bool) where
  -- A heap in order with its index map, whose sequence numbers are all in use before the next one.
  pub record IsValid (h : QuadHeap K V W) : Type 0 where
    pub ordered : IsHeap dec lt eq h
    pub indexed : IsIndexed dec lt eq h
    pub numbered : (i : ℕ) (e : HeapEntry K V W) → At h i e → e.sequence < h.next_seq

  -- The call on `h` returns `value`, and a valid heap of `count` entries that holds `after`. It takes
  -- one sequence number at most.
  pub record Yields {A : Type 0} (h : QuadHeap K V W) (r : Run (QuadHeap K V W × A)) (value : A)
      (count : ℕ) (after : K → Option (HeapEntry K V W)) : Type 0 where
    pub heap : QuadHeap K V W
    pub returned : r ≡ ok (heap, value)
    pub valid : IsValid heap
    pub size : length heap.items ≡ count
    pub next : heap.next_seq ≤ suc h.next_seq
    pub held : (k : K) → entry_of dec lt eq heap k ≡ after k

  pub entry_of-At :
      (h : QuadHeap K V W) (i : ℕ) (e : HeapEntry K V W)
      → IsIndexed dec lt eq h
      → At h i e
      → entry_of dec lt eq h e.item.key ≡ some e
  entry_of-At h i e x at = ground (arith, x.found i e)

  pub At-entry_of :
      {h : QuadHeap K V W} (k : K) (e : HeapEntry K V W)
      → IsIndexed dec lt eq h
      → entry_of dec lt eq h k ≡ some e
      → (i : ℕ) × At h i e × (lookup dec k h.indexes ≡ some i) × (e.item.key ≡ k)
  At-entry_of {h} k e x there = elim (Option-cases (lookup dec k h.indexes)) [
    | inl absent ↦ absurd (ground arith)
    | inr (i, found) ↦
        let (e', at, named) = x.points k i found in
        let same : e' ≡ e = ground arith in
        (i, ground arith, found, ap (λ (z : HeapEntry K V W). z.item.key) (sym same) ∙ named)
  ]

  pub numbered_after :
      {g h : QuadHeap K V W}
      → IsIndexed dec lt eq g
      → ((i : ℕ) (e : HeapEntry K V W) → At g i e → e.sequence < g.next_seq)
      → Rearranged dec lt eq g h
      → (i : ℕ) (e : HeapEntry K V W) → At h i e
      → e.sequence < h.next_seq
  numbered_after {g} {h} x below m i e at =
      let before : entry_of dec lt eq g e.item.key ≡ some e =
        sym (m.same e.item.key) ∙ entry_of-At h i e m.indexed at in
      let (j, at_j, _, _) = At-entry_of e.item.key e x before in
      omega (arith, m.next, below j e at_j)

  module _ (order : IsDeadline lt eq) where
    -- A restored heap is valid.
    pub Restores-IsValid :
        {g : QuadHeap K V W} {r : Run (QuadHeap K V W)}
        → IsIndexed dec lt eq g
        → ((i : ℕ) (e : HeapEntry K V W) → At g i e → e.sequence < g.next_seq)
        → (p : Restores dec lt eq order g r) → IsValid p.heap
    Restores-IsValid x below p = record {
      ordered = p.ordered;
      indexed = p.held.indexed;
      numbered = numbered_after x below p.held;
    }

    -- No entry of a heap in order precedes the first one.
    pub first_least :
        (n : ℕ) (h : QuadHeap K V W) (i : ℕ) (e r : HeapEntry K V W)
        → IsHeap dec lt eq h
        → i < n
        → At h 0 r
        → At h i e
        → precedes dec lt eq e r ≡ false
    first_least zero h i e r o f at_0 at_i = absurd (omega arith)
    first_least (suc n) h zero e r o f at_0 at_i =
        let same : e ≡ r = ground arith in
        rw same (ground (arith, precedes_asym dec lt eq order r r))
    first_least (suc n) h (suc i) e r o f at_0 at_i =
        let (p, at_p) =
          get_elem?-within h.items (parent (suc i))
            (omega (arith, get_elem?-lt h.items (suc i) e at_i)) in
        precedes_trans dec lt eq order r p e
          (first_least n h (parent (suc i)) p r o (omega arith) at_0 at_p)
          (o.edges (suc i) e p (omega arith) at_i at_p)
