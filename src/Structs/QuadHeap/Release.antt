-- ===== src/Structs/QuadHeap/Release.antt =====
-- structs/quadheap.go:Remove and Pop against the entries that the heap holds.
use mathlib.Core.List.{lookup}
use goactor.Prelude.{
  suc, ◌≡◌, ◌⊎◌, refl, sym, ap, Bool, true, false, none, some, arith, ite, ◌==◌, Option-cases,
  Bool-cases, inl, inr, ok, ◌-◌, if◌then◌else◌, ◌∙◌,
}
use goactor.Prelude.Assoc.{length}
use goactor.Prelude.Slice.{get_elem?, get_elem?-within, get_elem?-lt}
use goactor.Structs.QuadHeap.{HeapEntry, QuadHeap, precedes, remove, pop, peek}
use goactor.Structs.QuadHeap.Order.{IsDeadline, At, entry_of}
use goactor.Structs.QuadHeap.Valid.{IsValid, Yields, entry_of-At, At-entry_of, first_least}
use goactor.Structs.QuadHeap.Remove.{remove_at_refines}

module _ {K V W : Type 0} (dec : Discrete K) (lt eq : W → W → Bool) (h : QuadHeap K V W) where
  abbrev pub present : K → Bool
  present key = elim (entry_of dec lt eq h key) [ none ↦ false | some e ↦ true ]

module _ {K V W : Type 0} (dec : Discrete K) (lt eq : W → W → Bool) (order : IsDeadline lt eq)
    (h : QuadHeap K V W) (v : IsValid dec lt eq h) where
  -- Where the deadlines have a total order, Remove of a valid heap never panics: it says whether the key
  -- was there, and the heap is then valid and holds exactly the entries of all other keys.
  pub remove_refines :
      (key : K)
      → Yields dec lt eq h
          (remove dec lt eq h key)
          (present dec lt eq h key)
          (if present dec lt eq h key then length h.items - 1 else length h.items)
          (λ k. ite (dec k key) none (entry_of dec lt eq h k))
  unfolding remove
  remove_refines key = elim (Option-cases (lookup dec key h.indexes)) [
    | inl absent ↦ record {
      heap = h;
      returned = rw (remove, absent) (ground arith);
      valid = v;
      size = rw (present, absent) refl;
      next = omega arith;
      held = λ k. elim (dec k key) [ yes p ↦ ground arith | no p ↦ ground arith ];
    }
    | inr (i, there) ↦
        let (e, at, named) = v.indexed.points key i there in
        let removed = remove_at_refines dec lt eq order h i e v at in
        record {
          heap = removed.heap;
          returned =
              rw (remove, there, removed.returned) (ap (λ b. ok (removed.heap, b)) (ground arith));
          valid = removed.valid;
          size = removed.size ∙ ground arith;
          next = removed.next;
          held = λ k. rw (sym named) (removed.held k);
        }
  ]

  -- What Pop does to a heap that holds `e`, its least entry.
  pub record Pops (e : HeapEntry K V W) : Type 0 where
    pub holds : entry_of dec lt eq h e.item.key ≡ some e
    pub peeked : peek h ≡ some e.item
    pub least :
        (k : K) (a : HeapEntry K V W)
        → entry_of dec lt eq h k ≡ some a
        → precedes dec lt eq a e ≡ false
    pub popped :
        Yields dec lt eq h
          (pop dec lt eq h)
          (some e.item)
          (length h.items - 1)
          (λ k. ite (dec k e.item.key) none (entry_of dec lt eq h k))

  -- The heap holds nothing, and Peek and Pop say so.
  pub record IsEmpty : Type 0 where
    pub holds : (k : K) → entry_of dec lt eq h k ≡ none
    pub peeked : peek h ≡ none
    pub popped : pop dec lt eq h ≡ ok (h, none)

  empty : length h.items ≡ 0 → IsEmpty
  unfolding peek pop
  empty n = record {
    holds = λ k. elim (Option-cases (entry_of dec lt eq h k)) [
      | inl absent ↦ absent
      | inr (a, there) ↦
          let (i, at, _, _) = At-entry_of dec lt eq k a v.indexed there in
          absurd (omega (arith, get_elem?-lt h.items i a at))
    ];
    peeked = elim (Option-cases (get_elem? h.items 0)) [
      | inl absent ↦ rw (peek, absent) refl
      | inr (a, at) ↦ absurd (omega (arith, get_elem?-lt h.items 0 a at))
    ];
    popped = rw n refl;
  }

  pops : (e : HeapEntry K V W) → At h 0 e → Pops e
  unfolding peek pop
  pops e at =
      let removed = remove_at_refines dec lt eq order h 0 e v at in
      let some_items : (length h.items == 0) ≡ false =
        ground (arith, get_elem?-lt h.items 0 e at) in
      record {
        holds = entry_of-At dec lt eq h 0 e v.indexed at;
        peeked = rw (peek, at) refl;
        least = λ k a there.
            let (i, at_i, _, _) = At-entry_of dec lt eq k a v.indexed there in
            first_least dec lt eq order (suc i) h i a e v.ordered (omega arith) at at_i;
        popped = record {
          heap = removed.heap;
          returned = rw some_items (rw removed.returned refl);
          valid = removed.valid;
          size = removed.size;
          next = removed.next;
          held = removed.held;
        };
      }

  -- Where the deadlines have a total order, Pop of a valid heap never panics. A heap that holds nothing
  -- it leaves alone and returns nothing. Else it returns the item that Peek shows, no entry held by the
  -- heap precedes that item's by deadline and then by sequence number, and the heap is then valid and
  -- holds exactly the entries of all other keys.
  pub pop_least : IsEmpty ⊎ (e : HeapEntry K V W) × Pops e
  pop_least = elim (Bool-cases (length h.items == 0)) [
    | inl none_left ↦ inl (empty (ground arith))
    | inr some_left ↦ let (e, at) = get_elem?-within h.items 0 (ground arith) in inr (e, pops e at)
  ]
