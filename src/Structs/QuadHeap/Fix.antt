-- ===== src/Structs/QuadHeap/Fix.antt =====
-- structs/quadheap.go:fix puts a heap with one entry out of order back in order.

use goactor.Prelude.{ℕ, ◌≡◌, ◌<◌, ◌≢◌, Bool, false, arith, ltb, Bool-cases, inl, inr}
use goactor.Prelude.Assoc.{length}
use goactor.Prelude.Slice.{get_elem?-within}
use goactor.Structs.QuadHeap.{HeapEntry, QuadHeap, precedes, fix, sift_down}
use goactor.Structs.QuadHeap.Order.{
  IsDeadline, parent, At, IsIndexed, precedes_asym, precedes_trans, less-ok,
}
use goactor.Structs.QuadHeap.Up.{IsBridged, Restores, sift_up-Restores}
use goactor.Structs.QuadHeap.Down.{sift_down-Restores}

module _ {K V W : Type 0} (dec : Discrete K) (lt eq : W → W → Bool) (order : IsDeadline lt eq) where
  -- Only the edges above and below `i` may be out of order.
  pub record FixInv (h : QuadHeap K V W) (i : ℕ) : Type 0 where
    pub indexed : IsIndexed dec lt eq h
    pub inside : i < length h.items
    pub edges :
        (c : ℕ) (e p : HeapEntry K V W)
        → 0 < c
        → c ≢ i
        → parent c ≢ i
        → At h c e
        → At h (parent c) p
        → precedes dec lt eq e p ≡ false
    pub bridged : IsBridged dec lt eq order h i

  module _ {h : QuadHeap K V W} {i : ℕ} (v : FixInv h i) where
    down :
        ((e p : HeapEntry K V W)
          → 0 < i
          → At h i e
          → At h (parent i) p
          → precedes dec lt eq e p ≡ false)
        → Restores dec lt eq order h (sift_down dec lt eq (length h.items) h i)
    down above = sift_down-Restores dec lt eq order (length h.items) h i (omega arith) (record {
      indexed = v.indexed;
      inside = v.inside;
      edges = λ c e p lt_c ne at_c at_p. ground (arith, v.edges c e p, above e p);
      bridged = v.bridged;
    })

    -- fix restores a heap that may be out of order around the index.
    pub fix-Restores : Restores dec lt eq order h (fix dec lt eq h i)
    unfolding fix
    fix-Restores = elim (Bool-cases (ltb 0 i)) [
      | inr root ↦ rw root (down (λ e p pos. absurd (ground arith)))
      | inl inner ↦
          let (a, at_i) = get_elem?-within h.items i v.inside in
          let (b, at_p) = get_elem?-within h.items (parent i) (omega (arith, v.inside)) in
          elim (Bool-cases (precedes dec lt eq a b)) [
            | inl below ↦
                rw (inner, less-ok dec lt eq h i (parent i) a b at_i at_p, below)
                  (sift_up-Restores dec lt eq order i h i (omega arith) (record {
                    indexed = v.indexed;
                    inside = v.inside;
                    edges = λ c e p lt_c ne at_c at_q. ground (
                      arith,
                      v.edges c e p,
                      v.bridged c e b,
                      precedes_asym dec lt eq order a b,
                      precedes_trans dec lt eq order a b e,
                    );
                    bridged = v.bridged;
                  }))
            | inr above ↦
                rw (inner, less-ok dec lt eq h i (parent i) a b at_i at_p, above)
                  (down (λ e p pos at_e at_q. ground arith))
          ]
    ]
