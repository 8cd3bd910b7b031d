-- ===== src/Structs/QuadHeap/Down.antt =====
-- structs/quadheap.go:siftDown puts a heap with one entry too early in the order back in order.
use goactor.Prelude.{
  ℕ, zero, suc, ◌+◌, ◌*◌, ◌≡◌, ◌≤◌, ◌<◌, ◌≢◌, ◌⊎◌, refl, Bool, false, not, arith, ◌==◌, ltb,
  Bool-cases, inl, inr, ok,
}
use goactor.Prelude.Assoc.{length}
use goactor.Prelude.Slice.{get_elem?-lt, get_elem?-within}
use goactor.Structs.QuadHeap.{HeapEntry, QuadHeap, precedes, least_child, sift_down}
use goactor.Structs.QuadHeap.Order.{
  IsDeadline, parent, At, IsIndexed, Swapped, precedes_asym, precedes_trans, less-ok, swap-ok,
}
use goactor.Structs.QuadHeap.Index.{Swapped-Rearranged}
use goactor.Structs.QuadHeap.Up.{IsBridged, Restores, Restores-after, settled}

module _ {K V W : Type 0} (dec : Discrete K) (lt eq : W → W → Bool) (order : IsDeadline lt eq) where
  -- Only the edges below `i` may be out of order.
  pub record DownInv (h : QuadHeap K V W) (i : ℕ) : Type 0 where
    pub indexed : IsIndexed dec lt eq h
    pub inside : i < length h.items
    pub edges :
        (c : ℕ) (e p : HeapEntry K V W)
        → 0 < c
        → parent c ≢ i
        → At h c e
        → At h (parent c) p
        → precedes dec lt eq e p ≡ false
    pub bridged : IsBridged dec lt eq order h i

  -- `m` has the least entry of `least` and the `k` indices from `child` on.
  record IsLeast (h : QuadHeap K V W) (child k least : ℕ) (a : HeapEntry K V W) (m : ℕ)
      : Type 0 where
    entry : HeapEntry K V W
    there : At h m entry
    among : (m ≡ least) ⊎ ((child ≤ m) × (m < child + k))
    first : precedes dec lt eq a entry ≡ false
    below :
        (c : ℕ) (e : HeapEntry K V W)
        → child ≤ c
        → c < child + k
        → At h c e
        → precedes dec lt eq e entry ≡ false

  self : (a : HeapEntry K V W) → precedes dec lt eq a a ≡ false
  self a = ground (arith, precedes_asym dec lt eq order a a)

  least_child-IsLeast :
      (k : ℕ) (h : QuadHeap K V W) (child least : ℕ) (a : HeapEntry K V W)
      → At h least a
      → (m : ℕ) × (least_child dec lt eq k h child least ≡ ok m) × IsLeast h child k least a m
  unfolding least_child
  least_child-IsLeast zero h child least a at = (
    least,
    refl,
    record {
      entry = a;
      there = at;
      among = inl refl;
      first = self a;
      below = λ c e p q. absurd (omega arith);
    },
  )
  least_child-IsLeast (suc k) h child least a at = elim (Bool-cases (ltb child (length h.items))) [
    | inr past ↦ rw past (
      least,
      refl,
      record {
        entry = a;
        there = at;
        among = inl refl;
        first = self a;
        below = λ c e p q at_c. absurd (ground (arith, get_elem?-lt h.items c e));
      },
    )
    | inl inside ↦
        let (b, at_b) = get_elem?-within h.items child (ground arith) in
        elim (Bool-cases (precedes dec lt eq b a)) [
          | inl lower ↦
              let (m, found, l) = least_child-IsLeast k h (child + 1) child b at_b in
              rw (inside, less-ok dec lt eq h child least b a at_b at, lower, not)
                (
                  m,
                  found,
                  record {
                    entry = l.entry;
                    there = l.there;
                    among = ground (arith, l.among);
                    first =
                        precedes_trans dec lt eq order l.entry b a l.first
                          (precedes_asym dec lt eq order b a lower);
                    below = λ c e p q at_c. ground (arith, l.below c e, l.first, at_b);
                  },
                )
          | inr higher ↦
              let (m, found, l) = least_child-IsLeast k h (child + 1) least a at in
              rw (inside, less-ok dec lt eq h child least b a at_b at, higher, not)
                (
                  m,
                  found,
                  record {
                    entry = l.entry;
                    there = l.there;
                    among = ground (arith, l.among);
                    first = l.first;
                    below = λ c e p q at_c. ground (
                      arith,
                      l.below c e,
                      precedes_trans dec lt eq order l.entry a b,
                      l.first,
                      at_b,
                    );
                  },
                )
        ]
  ]

  module _ {h h' : QuadHeap K V W} {i m : ℕ} {a : HeapEntry K V W} (v : DownInv h i)
      (at_i : At h i a) (l : IsLeast h (4 * i + 1) 4 i a m) (moved : m ≢ i)
      (s : Swapped dec lt eq h i m a l.entry h') where
    swap-edges :
        (c : ℕ) (e p : HeapEntry K V W)
        → 0 < c
        → parent c ≢ m
        → At h' c e
        → At h' (parent c) p
        → precedes dec lt eq e p ≡ false
    swap-edges c e p lt_c ne at_c at_pc = ground (
      arith,
      s.items c,
      s.items (parent c),
      v.edges c e p,
      v.bridged m l.entry p,
      l.there,
      l.among,
      l.first,
      l.below c e,
    )

    swap-DownInv : DownInv h' m
    swap-DownInv = record {
      indexed = (Swapped-Rearranged dec lt eq v.indexed at_i l.there s).indexed;
      inside = omega (arith, s.size, get_elem?-lt h.items m l.entry l.there);
      edges = swap-edges;
      bridged = λ c e p lt_c pc lt_m at_c at_p.
          ground (arith, s.items c, s.items (parent m), v.edges c e p, l.there, l.among);
    }

  -- siftDown from an index of the heap, on at least as many rounds as there are items from the index
  -- on, restores a heap that may be out of order below it.
  pub sift_down-Restores :
      (n : ℕ) (h : QuadHeap K V W) (i : ℕ)
      → length h.items ≤ i + n
      → DownInv h i
      → Restores dec lt eq order h (sift_down dec lt eq n h i)
  unfolding sift_down
  sift_down-Restores zero h i p v = absurd (omega (arith, v.inside))
  sift_down-Restores (suc n) h i p v =
      let (a, at_i) = get_elem?-within h.items i v.inside in
      let (m, found, l) = least_child-IsLeast 4 h (4 * i + 1) i a at_i in
      let (h', swapped, s) = swap-ok dec lt eq h i m a l.entry at_i l.there in
      elim (Bool-cases (m == i)) [
        | inl here ↦
            rw (found, swapped, here)
              (settled dec lt eq order h
                (record {
                  edges =
                      λ c e q lt_c at_c at_q. ground (arith, v.edges c e q, l.below c e, l.there);
                })
                v.indexed)
        | inr moved ↦
            rw (found, swapped, moved)
              (Restores-after dec lt eq order
                (Swapped-Rearranged dec lt eq v.indexed at_i l.there s)
                (sift_down-Restores n h' m (omega (arith, s.size, l.among, ne_of moved))
                  (swap-DownInv v at_i l (ne_of moved) s)))
      ]
    where
      ne_of : {m : ℕ} → (m == i) ≡ false → m ≢ i
      ne_of h = ground arith
