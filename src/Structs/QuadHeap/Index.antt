-- ===== src/Structs/QuadHeap/Index.antt =====
-- structs/quadheap.go:swap: the index map and the entries of all keys.
use mathlib.Core.List.{lookup}
use goactor.Prelude.{ℕ, ◌≡◌, refl, sym, ◌∙◌, Bool, some, arith, Option-cases, inl, inr}
use goactor.Prelude.Assoc.{length}
use goactor.Structs.QuadHeap.{HeapEntry, QuadHeap}
use goactor.Structs.QuadHeap.Order.{At, IsIndexed, entry_of, Swapped}

module _ {K V W : Type 0} (dec : Discrete K) (lt eq : W → W → Bool) where
  -- `h'` holds what `h` holds, in another place.
  pub record Rearranged (h h' : QuadHeap K V W) : Type 0 where
    pub indexed : IsIndexed dec lt eq h'
    pub same : (k : K) → entry_of dec lt eq h' k ≡ entry_of dec lt eq h k
    pub size : length h'.items ≡ length h.items
    pub next : h'.next_seq ≡ h.next_seq

  pub Rearranged-refl : {h : QuadHeap K V W} → IsIndexed dec lt eq h → Rearranged h h
  Rearranged-refl x = record { indexed = x; same = λ k. refl; size = refl; next = refl }

  pub Rearranged-trans : {g h k : QuadHeap K V W} → Rearranged g h → Rearranged h k → Rearranged g k
  Rearranged-trans p q = record {
    indexed = q.indexed;
    same = λ k. q.same k ∙ p.same k;
    size = q.size ∙ p.size;
    next = q.next ∙ p.next;
  }

  module _ {h h' : QuadHeap K V W} {i j : ℕ} {a b : HeapEntry K V W} (x : IsIndexed dec lt eq h)
      (at_i : At h i a) (at_j : At h j b) (s : Swapped dec lt eq h i j a b h') where
    found' : (q : ℕ) (e : HeapEntry K V W) → At h' q e → lookup dec e.item.key h'.indexes ≡ some q
    found' q e at =
        ground (arith, s.items q, s.indexes e.item.key, x.found q e, x.found i a, x.found j b)

    points' :
        (k : K) (q : ℕ)
        → lookup dec k h'.indexes ≡ some q
        → (e : HeapEntry K V W) × At h' q e × (e.item.key ≡ k)
    points' k q at = elim (dec k a.item.key) [
      | yes p ↦ (a, ground (arith, s.items q, s.indexes k), sym p)
      | no p ↦ elim (dec k b.item.key) [
        | yes r ↦
            (b, ground (arith, s.items q, s.indexes k, x.found i a at_i, x.found j b at_j), sym r)
        | no r ↦
            let before : lookup dec k h.indexes ≡ some q = ground (arith, s.indexes k) in
            let (e, there, named) = x.points k q before in (e, ground (arith, s.items q), named)
      ]
    ]

    entry_of_same : (k : K) → entry_of dec lt eq h' k ≡ entry_of dec lt eq h k
    entry_of_same k = elim (dec k a.item.key) [
      | yes p ↦ ground (arith, s.items j, s.indexes k, x.found i a at_i)
      | no p ↦ elim (dec k b.item.key) [
        | yes r ↦ ground (arith, s.items i, s.indexes k, x.found i a at_i, x.found j b at_j)
        | no r ↦ elim (Option-cases (lookup dec k h.indexes)) [
          | inl absent ↦ ground (arith, s.indexes k)
          | inr (q, there) ↦
              let (e, at, named) = x.points k q there in ground (arith, s.indexes k, s.items q)
        ]
      ]
    ]

    pub Swapped-Rearranged : Rearranged h h'
    Swapped-Rearranged = record {
      indexed = record { found = found'; points = points' };
      same = entry_of_same;
      size = s.size;
      next = s.next;
    }
