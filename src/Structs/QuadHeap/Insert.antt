-- ===== src/Structs/QuadHeap/Insert.antt =====
-- structs/quadheap.go:NewQuadHeap and Insert against the entries that the heap holds.
use mathlib.Core.List.{lookup}
use goactor.Prelude.{
  ℕ, suc, ◌+◌, ◌-◌, ◌%◌, ◌^◌, ◌<◌, ◌≡◌, refl, sym, ◌∙◌, Bool, true, false, [], ◌∷◌, none, some,
  arith, ite, ◌==◌, if◌then◌else◌, Option-cases, inl, inr,
}
use goactor.Prelude.Assoc.{length, insert, ◌∷ʳ◌, lookup-insert}
use goactor.Prelude.Slice.{get_elem?, get_elem?-lt, get_elem?-snoc, length-append}
use goactor.Structs.QuadHeap.{HeapEntry, QuadHeap, insert_item, new_quad_heap}
use goactor.Structs.QuadHeap.Order.{IsDeadline, parent, At, IsIndexed, entry_of}
use goactor.Structs.QuadHeap.Up.{UpInv, sift_up-Restores}
use goactor.Structs.QuadHeap.Valid.{IsValid, Yields, Restores-IsValid}

module _ {K V W : Type 0} where
  -- The entry that Insert makes.
  abbrev pub made : QuadHeap K V W → K → V → W → HeapEntry K V W
  made h key value when = record {
    item = record { key = key; value = value; when = when };
    sequence = h.next_seq;
  }

module _ {K V W : Type 0} (dec : Discrete K) (lt eq : W → W → Bool) where
  pub new_quad_heap-IsValid : (capacity : ℕ) → IsValid {V = V} dec lt eq (new_quad_heap capacity)
  unfolding new_quad_heap lookup
  new_quad_heap-IsValid capacity = record {
    ordered = record { edges = λ c e p lt_c at. absurd (ground arith) };
    indexed = record {
      found = λ i e at. absurd (ground arith);
      points = λ k i at. absurd (ground arith);
    };
    numbered = λ i e at. absurd (ground arith);
  }

module _ {K V W : Type 0} (dec : Discrete K) (lt eq : W → W → Bool) (order : IsDeadline lt eq)
    (h : QuadHeap K V W) (v : IsValid dec lt eq h) (key : K) (value : V) (when : W) where
  abbrev new_entry : HeapEntry K V W
  new_entry = made h key value when

  module _ (room : h.next_seq < 2 ^ 64 - 1) (absent : lookup dec key h.indexes ≡ none) where
    abbrev end : ℕ
    end = length h.items

    abbrev grown : QuadHeap K V W
    grown = record {
      items = h.items ∷ʳ new_entry;
      indexes = insert dec key end h.indexes;
      next_seq = (h.next_seq + 1) % 2 ^ 64;
    }

    reads :
        (q : ℕ)
        → get_elem? grown.items q ≡ (if q == end then some new_entry else get_elem? h.items q)
    reads q = get_elem?-snoc h.items new_entry q

    index :
        (k : K) → lookup dec k grown.indexes ≡ ite (dec k key) (some end) (lookup dec k h.indexes)
    index k = lookup-insert dec key k end h.indexes

    grown-IsIndexed : IsIndexed dec lt eq grown
    grown-IsIndexed = record {
      found = λ q a at. ground (arith, reads q, index a.item.key, v.indexed.found q a);
      points = λ k q there. elim (dec k key) [
        | yes p ↦ (new_entry, ground (arith, index k, reads q), sym p)
        | no p ↦
            let before : lookup dec k h.indexes ≡ some q = ground (arith, index k) in
            let (a, at, named) = v.indexed.points k q before in
            (a, ground (arith, reads q, get_elem?-lt h.items q a), named)
      ];
    }

    grown-held :
        (k : K)
        → entry_of dec lt eq grown k ≡ ite (dec k key) (some new_entry) (entry_of dec lt eq h k)
    grown-held k = elim (dec k key) [
      | yes p ↦ ground (arith, index k, reads end)
      | no p ↦ elim (Option-cases (lookup dec k h.indexes)) [
        | inl nowhere ↦ ground (arith, index k)
        | inr (q, there) ↦
            let (a, at, named) = v.indexed.points k q there in
            ground (arith, index k, reads q, get_elem?-lt h.items q a)
      ]
    ]

    grown-UpInv : UpInv dec lt eq order grown end
    grown-UpInv = record {
      indexed = grown-IsIndexed;
      inside = omega (arith, length-append h.items (new_entry ∷ []));
      edges = λ c a p lt_c ne at_c at_p.
          ground
            (arith, reads c, reads (parent c), v.ordered.edges c a p, get_elem?-lt h.items c a);
      bridged = λ c a p lt_c pc lt_i at_c at_p. ground (arith, reads c, get_elem?-lt h.items c a);
    }

    grown_numbered : (q : ℕ) (a : HeapEntry K V W) → At grown q a → a.sequence < grown.next_seq
    grown_numbered q a at = ground (arith, reads q, v.numbered q a)

    insert_new :
        Yields dec lt eq h
          (insert_item dec lt eq h key value when)
          true
          (suc (length h.items))
          (λ k. ite (dec k key) (some new_entry) (entry_of dec lt eq h k))
    unfolding insert_item
    insert_new =
        let below : (h.next_seq == 2 ^ 64 - 1) ≡ false = ground arith in
        let restored = sift_up-Restores dec lt eq order end grown end (omega arith) grown-UpInv in
        record {
          heap = restored.heap;
          returned = rw (insert_item, absent, below) (rw restored.returned refl);
          valid = Restores-IsValid dec lt eq order grown-IsIndexed grown_numbered restored;
          size = omega (arith, restored.held.size, length-append h.items (new_entry ∷ []));
          next = omega (arith, restored.held.next);
          held = λ k. restored.held.same k ∙ grown-held k;
        }

  -- Where the deadlines have a total order and the next sequence number is below 2 ^ 64 - 1, Insert of a
  -- valid heap never panics and leaves it valid. A new key is entered with its item and the next
  -- sequence number; a known one is refused, and every entry stays.
  pub insert_item_refines :
      h.next_seq < 2 ^ 64 - 1
      → Yields dec lt eq h
          (insert_item dec lt eq h key value when)
          (elim (entry_of dec lt eq h key) [ none ↦ true | some e ↦ false ])
          (elim (entry_of dec lt eq h key) [
            | none ↦ suc (length h.items)
            | some e ↦ length h.items
          ])
          (λ k. elim (entry_of dec lt eq h key) [
            | none ↦ ite (dec k key) (some new_entry) (entry_of dec lt eq h k)
            | some e ↦ entry_of dec lt eq h k
          ])
  unfolding insert_item
  insert_item_refines room = elim (Option-cases (lookup dec key h.indexes)) [
    | inl absent ↦ rw (entry_of, absent) (insert_new room absent)
    | inr (i, there) ↦
        let (e, at, named) = v.indexed.points key i there in
        let known : entry_of dec lt eq h key ≡ some e = ground arith in
        record {
          heap = h;
          returned = rw (insert_item, there, at) refl;
          valid = v;
          size = rw known refl;
          next = omega arith;
          held = λ k. rw known refl;
        }
  ]
