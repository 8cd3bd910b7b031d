-- ===== src/Structs/QuadHeap/Up.antt =====
-- structs/quadheap.go:siftUp puts a heap with one entry too late in the order back in order.
use goactor.Prelude.{
  ℕ, zero, suc, ◌≡◌, ◌≤◌, ◌<◌, ◌≢◌, refl, Bool, true, false, arith, ◌==◌, Bool-cases, inl, inr, Run,
  ok,
}
use goactor.Prelude.Assoc.{length}
use goactor.Prelude.Slice.{get_elem?-within}
use goactor.Structs.QuadHeap.{HeapEntry, QuadHeap, precedes, sift_up}
use goactor.Structs.QuadHeap.Order.{
  IsDeadline, parent, At, IsHeap, IsIndexed, Swapped, precedes_asym, precedes_trans, less-ok,
  swap-ok,
}
use goactor.Structs.QuadHeap.Index.{
  Rearranged, Rearranged-refl, Rearranged-trans, Swapped-Rearranged,
}

module _ {K V W : Type 0} (dec : Discrete K) (lt eq : W → W → Bool) (order : IsDeadline lt eq) where
  -- The parent of `i` is no later than the children of `i`.
  abbrev pub IsBridged : QuadHeap K V W → ℕ → Type 0
  IsBridged h i =
      (c : ℕ) (e p : HeapEntry K V W)
      → 0 < c
      → parent c ≡ i
      → 0 < i
      → At h c e
      → At h (parent i) p
      → precedes dec lt eq e p ≡ false

  -- Only the edge above `i` may be out of order.
  pub record UpInv (h : QuadHeap K V W) (i : ℕ) : Type 0 where
    pub indexed : IsIndexed dec lt eq h
    pub inside : i < length h.items
    pub edges :
        (c : ℕ) (e p : HeapEntry K V W)
        → 0 < c
        → c ≢ i
        → At h c e
        → At h (parent c) p
        → precedes dec lt eq e p ≡ false
    pub bridged : IsBridged h i

  -- The call returns a heap in order that holds what `h` holds.
  pub record Restores (h : QuadHeap K V W) (r : Run (QuadHeap K V W)) : Type 0 where
    pub heap : QuadHeap K V W
    pub returned : r ≡ ok heap
    pub ordered : IsHeap dec lt eq heap
    pub held : Rearranged dec lt eq h heap

  module _ {h h' : QuadHeap K V W} {i : ℕ} {a b : HeapEntry K V W} (v : UpInv h i) (at_i : At h i a)
      (at_p : At h (parent i) b) (pos : 0 < i) (below : precedes dec lt eq a b ≡ true)
      (s : Swapped dec lt eq h i (parent i) a b h') where
    swap-edges :
        (c : ℕ) (e p : HeapEntry K V W)
        → 0 < c
        → c ≢ parent i
        → At h' c e
        → At h' (parent c) p
        → precedes dec lt eq e p ≡ false
    swap-edges c e p lt_c ne at_c at_pc = ground (
      arith,
      s.items c,
      s.items (parent c),
      v.edges c e p,
      v.edges c e b,
      v.bridged c e b,
      precedes_asym dec lt eq order a b,
      precedes_trans dec lt eq order a b e,
    )

    swap-IsBridged : IsBridged h' (parent i)
    swap-IsBridged c e p lt_c pc lt_p at_c at_pp = ground (
      arith,
      s.items c,
      s.items (parent (parent i)),
      v.edges (parent i) b p,
      v.edges c e b,
      precedes_trans dec lt eq order p b e,
    )

    swap-UpInv : UpInv h' (parent i)
    swap-UpInv = record {
      indexed = (Swapped-Rearranged dec lt eq v.indexed at_i at_p s).indexed;
      inside = omega (arith, s.size, v.inside);
      edges = swap-edges;
      bridged = swap-IsBridged;
    }

  pub Restores-after :
      {g h : QuadHeap K V W} {r : Run (QuadHeap K V W)}
      → Rearranged dec lt eq g h
      → Restores h r
      → Restores g r
  Restores-after m p = record {
    heap = p.heap;
    returned = p.returned;
    ordered = p.ordered;
    held = Rearranged-trans dec lt eq m p.held;
  }

  pub settled :
      (h : QuadHeap K V W) → IsHeap dec lt eq h → IsIndexed dec lt eq h → Restores h (ok h)
  settled h o x = record {
    heap = h;
    returned = refl;
    ordered = o;
    held = Rearranged-refl dec lt eq x;
  }

  -- siftUp from an index, on at least that many rounds, restores a heap that may be out of order
  -- above it.
  pub sift_up-Restores :
      (n : ℕ) (h : QuadHeap K V W) (i : ℕ)
      → i ≤ n
      → UpInv h i
      → Restores h (sift_up dec lt eq n h i)
  unfolding sift_up
  sift_up-Restores n h zero p v = root n
    where
      root : (n : ℕ) → Restores h (sift_up dec lt eq n h 0)
      root zero =
          settled h (record { edges = λ c e q lt_c. v.edges c e q lt_c (omega arith) }) v.indexed
      root (suc m) =
          settled h (record { edges = λ c e q lt_c. v.edges c e q lt_c (omega arith) }) v.indexed
  sift_up-Restores zero h (suc i) p v = absurd (omega arith)
  sift_up-Restores (suc n) h (suc i) p v =
      let (a, at_i) = get_elem?-within h.items (suc i) v.inside in
      let (b, at_p) = get_elem?-within h.items (parent (suc i)) (omega (arith, v.inside)) in
      let (h', swapped, s) = swap-ok dec lt eq h (suc i) (parent (suc i)) a b at_i at_p in
      let inner : (suc i == 0) ≡ false = ground arith in
      elim (Bool-cases (precedes dec lt eq a b)) [
        | inl below ↦
            rw (inner, less-ok dec lt eq h (suc i) (parent (suc i)) a b at_i at_p, swapped, below)
              (Restores-after (Swapped-Rearranged dec lt eq v.indexed at_i at_p s) (
                sift_up-Restores n h' (parent (suc i)) (omega arith)
                  (swap-UpInv v at_i at_p (omega arith) below s)))
        | inr above ↦
            rw (inner, less-ok dec lt eq h (suc i) (parent (suc i)) a b at_i at_p, swapped, above)
              (settled h (record { edges = λ c e q lt_c at_c at_q. ground (arith, v.edges c e q) })
                v.indexed)
      ]
