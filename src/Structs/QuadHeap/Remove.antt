-- ===== src/Structs/QuadHeap/Remove.antt =====
-- structs/quadheap.go:removeAt, Remove and Pop against the entries that the heap holds.
use mathlib.Core.List.{lookup}
use goactor.Prelude.{
  ℕ, ◌-◌, ◌<◌, ◌≡◌, ◌≢◌, refl, sym, ◌∙◌, ap, Bool, false, Option, none, some, arith, ite, ◌==◌, ltb,
  if◌then◌else◌, Option-cases, Bool-cases, inl, inr,
}
use goactor.Prelude.Assoc.{length, insert, delete, lookup-insert, lookup-delete}
use goactor.Prelude.Slice.{
  get_elem?, take, set, load, store, length-set, length-take, get_elem?-set, get_elem?-take,
  get_elem?-within, get_elem?-lt,
}
use goactor.Structs.QuadHeap.{HeapEntry, QuadHeap, remove_at}
use goactor.Structs.QuadHeap.Order.{IsDeadline, parent, At, IsIndexed, entry_of, precedes_trans}
use goactor.Structs.QuadHeap.Fix.{FixInv, fix-Restores}
use goactor.Structs.QuadHeap.Valid.{IsValid, Yields, Restores-IsValid}

module _ {K V W : Type 0} (dec : Discrete K) (lt eq : W → W → Bool) (order : IsDeadline lt eq)
    (h : QuadHeap K V W) (i : ℕ) (e : HeapEntry K V W) (v : IsValid dec lt eq h)
    (at_i : At h i e) where
  abbrev without : K → Option (HeapEntry K V W)
  without k = ite (dec k e.item.key) none (entry_of dec lt eq h k)

  abbrev last : ℕ
  last = length h.items - 1

  x : IsIndexed dec lt eq h
  x = v.indexed

  -- The heap is cut at the end.
  abbrev cut : QuadHeap K V W
  cut = record {
    items = take last h.items;
    indexes = delete dec e.item.key h.indexes;
    next_seq = if last == 0 then 0 else h.next_seq;
  }

  At-cut : (q : ℕ) (a : HeapEntry K V W) → At cut q a → At h q a × (q < last)
  At-cut q a at =
      (ground (arith, get_elem?-take last q h.items), ground (arith, get_elem?-take last q h.items))

  module _ (here : i ≡ last) where
    cut-IsIndexed : IsIndexed dec lt eq cut
    cut-IsIndexed = record {
      found = λ q a at. ground (
        arith,
        At-cut q a at,
        lookup-delete dec e.item.key a.item.key h.indexes,
        x.found q a,
        x.found i e,
      );
      points = λ k q there.
          let before : lookup dec k h.indexes ≡ some q =
            ground (arith, lookup-delete dec e.item.key k h.indexes) in
          let (a, at, named) = x.points k q before in
          (
            a,
            ground (
              arith,
              get_elem?-take last q h.items,
              lookup-delete dec e.item.key k h.indexes,
              get_elem?-lt h.items q a,
            ),
            named,
          );
    }

    cut-held : (k : K) → entry_of dec lt eq cut k ≡ without k
    cut-held k = elim (dec k e.item.key) [
      | yes p ↦ ground (arith, lookup-delete dec e.item.key k h.indexes)
      | no p ↦ elim (Option-cases (lookup dec k h.indexes)) [
        | inl absent ↦ ground (arith, lookup-delete dec e.item.key k h.indexes)
        | inr (q, there) ↦
            let (a, at, named) = x.points k q there in
            ground (
              arith,
              lookup-delete dec e.item.key k h.indexes,
              get_elem?-take last q h.items,
              get_elem?-lt h.items q a,
            )
      ]
    ]

    cut-IsValid : IsValid dec lt eq cut
    cut-IsValid = record {
      ordered = record {
        edges = λ c a p lt_c at_c at_p.
            v.ordered.edges c a p lt_c (At-cut c a at_c).0 (At-cut (parent c) p at_p).0;
      };
      indexed = cut-IsIndexed;
      numbered = λ q a at. ground (arith, At-cut q a at, v.numbered q a);
    }

  -- The last entry `moved` takes the place at `i`.
  module _ (inner : i ≢ last) (moved : HeapEntry K V W) (at_last : At h last moved) where
    abbrev filled : QuadHeap K V W
    filled = record {
      items = take last (set h.items i moved);
      indexes = insert dec moved.item.key i (delete dec e.item.key h.indexes);
      next_seq = h.next_seq;
    }

    reads :
        (q : ℕ)
        → get_elem? filled.items q
          ≡ (if ltb q last then if i == q then some moved else get_elem? h.items q else none)
    reads q =
        get_elem?-take last q (set h.items i moved)
        ∙ ap (λ r. if ltb q last then r else none) (get_elem?-set h.items i q moved e at_i)

    index :
        (k : K)
        → lookup dec k filled.indexes
          ≡ ite
              (dec k moved.item.key)
              (some i)
              (ite (dec k e.item.key) none (lookup dec k h.indexes))
    index k =
        lookup-insert dec moved.item.key k i (delete dec e.item.key h.indexes)
        ∙ ap (λ r. ite (dec k moved.item.key) (some i) r) (lookup-delete dec e.item.key k h.indexes)

    filled-IsIndexed : IsIndexed dec lt eq filled
    filled-IsIndexed = record {
      found = λ q a at.
          ground (arith, reads q, index a.item.key, x.found q a, x.found i e, x.found last moved);
      points = λ k q there. elim (dec k moved.item.key) [
        | yes p ↦ (moved, ground (arith, reads q, index k, get_elem?-lt h.items i e), sym p)
        | no p ↦
            let before : lookup dec k h.indexes ≡ some q = ground (arith, index k) in
            let (a, at, named) = x.points k q before in
            (a, ground (arith, reads q, index k, get_elem?-lt h.items q a), named)
      ];
    }

    filled-held : (k : K) → entry_of dec lt eq filled k ≡ without k
    filled-held k = elim (dec k moved.item.key) [
      | yes p ↦
          ground
            (arith, index k, reads i, x.found last moved, x.found i e, get_elem?-lt h.items i e)
      | no p ↦ elim (dec k e.item.key) [
        | yes r ↦ ground (arith, index k)
        | no r ↦ elim (Option-cases (lookup dec k h.indexes)) [
          | inl absent ↦ ground (arith, index k)
          | inr (q, there) ↦
              let (a, at, named) = x.points k q there in
              ground (arith, index k, reads q, get_elem?-lt h.items q a)
        ]
      ]
    ]

    filled-FixInv : FixInv dec lt eq order filled i
    filled-FixInv = record {
      indexed = filled-IsIndexed;
      inside = omega (
        arith,
        length-take last (set h.items i moved),
        length-set h.items i moved,
        get_elem?-lt h.items i e at_i,
      );
      edges = λ c a p lt_c ne np at_c at_p.
          ground (arith, reads c, reads (parent c), v.ordered.edges c a p);
      bridged = λ c a p lt_c pc lt_i at_c at_p. ground (
        arith,
        reads c,
        reads (parent i),
        v.ordered.edges c a e,
        v.ordered.edges i e p,
        precedes_trans dec lt eq order p e a,
      );
    }

    filled_numbered : (q : ℕ) (a : HeapEntry K V W) → At filled q a → a.sequence < filled.next_seq
    filled_numbered q a at = ground (arith, reads q, v.numbered q a, v.numbered last moved)

    remove_inner : Yields dec lt eq h (remove_at dec lt eq h i) e.item last without
    unfolding remove_at load store
    remove_inner =
        let restored = fix-Restores dec lt eq order filled-FixInv in
        let apart : (i == last) ≡ false = ground arith in
        record {
          heap = restored.heap;
          returned = rw (at_i, apart, at_last, load, store) (rw restored.returned refl);
          valid = Restores-IsValid dec lt eq order filled-IsIndexed filled_numbered restored;
          size =
              restored.held.size
              ∙ length-take last (set h.items i moved) (omega (arith, length-set h.items i moved));
          next = omega (arith, restored.held.next);
          held = λ k. restored.held.same k ∙ filled-held k;
        }

  -- removeAt of an index returns its item, and takes exactly its key out of the heap.
  pub remove_at_refines : Yields dec lt eq h (remove_at dec lt eq h i) e.item last without
  unfolding remove_at load
  remove_at_refines = elim (Bool-cases (i == last)) [
    | inl here ↦ record {
      heap = cut;
      returned = rw (at_i, here, load) refl;
      valid = cut-IsValid (ground arith);
      size = length-take last h.items (omega arith);
      next = ground arith;
      held = cut-held (ground arith);
    }
    | inr inner ↦
        let (moved, at_last) =
          get_elem?-within h.items last (omega (arith, get_elem?-lt h.items i e at_i)) in
        remove_inner (ground arith) moved at_last
  ]
