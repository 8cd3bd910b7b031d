-- ===== src/Structs/QuadHeap/Update.antt =====
-- structs/quadheap.go:Update and Upsert against the entries that the heap holds.
use mathlib.Core.List.{lookup}
use goactor.Prelude.{
  ℕ, ◌-◌, ◌^◌, ◌<◌, ◌≡◌, refl, sym, ◌∙◌, ap, Bool, true, false, not, none, some, arith, ite, ◌==◌,
  if◌then◌else◌, Option-cases, Bool-cases, inl, inr, ok, suc,
}
use goactor.Prelude.Assoc.{length}
use goactor.Prelude.Slice.{get_elem?, get_elem?-lt, get_elem?-set, set, length-set, load, store}
use goactor.Structs.QuadHeap.{HeapEntry, QuadHeap, update, upsert}
use goactor.Structs.QuadHeap.Order.{IsDeadline, parent, At, IsIndexed, entry_of, precedes_trans}
use goactor.Structs.QuadHeap.Fix.{FixInv, fix-Restores}
use goactor.Structs.QuadHeap.Valid.{IsValid, Yields, Restores-IsValid}
use goactor.Structs.QuadHeap.Insert.{made, insert_item_refines}

module _ {K V W : Type 0} where
  -- The entry that Update makes of `e`: the sequence number stays.
  abbrev pub changed : V → W → HeapEntry K V W → HeapEntry K V W
  changed value when e = record e { item = record (e.item) { value = value; when = when } }

module _ {K V W : Type 0} (dec : Discrete K) (lt eq : W → W → Bool) (order : IsDeadline lt eq)
    (h : QuadHeap K V W) (v : IsValid dec lt eq h) (value : V) (when : W) where
  module _ (key : K) (i : ℕ) (e : HeapEntry K V W) (at_i : At h i e) (named : e.item.key ≡ key)
      (there : lookup dec key h.indexes ≡ some i) where
    abbrev edited : QuadHeap K V W
    edited = record h { items = set h.items i (changed value when e) }

    reads :
        (q : ℕ)
        → get_elem? edited.items q
          ≡ (if i == q then some (changed value when e) else get_elem? h.items q)
    reads q = get_elem?-set h.items i q (changed value when e) e at_i

    edited-IsIndexed : IsIndexed dec lt eq edited
    edited-IsIndexed = record {
      found = λ q a at. ground (arith, reads q, v.indexed.found q a, v.indexed.found i e);
      points = λ k q there.
          let (a, at, named) = v.indexed.points k q there in
          elim (Option-cases (get_elem? edited.items q)) [
            | inl gone ↦ absurd (ground (arith, reads q))
            | inr (b, at_b) ↦ (b, at_b, ground (arith, reads q))
          ];
    }

    edited-held :
        (k : K)
        → entry_of dec lt eq edited k
          ≡ ite (dec k key) (some (changed value when e)) (entry_of dec lt eq h k)
    edited-held k = elim (dec k key) [
      | yes p ↦ ground (arith, reads i)
      | no p ↦ elim (Option-cases (lookup dec k h.indexes)) [
        | inl nowhere ↦ ground arith
        | inr (q, there) ↦
            let (a, at, its) = v.indexed.points k q there in
            elim (Bool-cases (i == q)) [
              | inl same ↦
                  let equal : a ≡ e = ground arith in
                  absurd (p (sym its ∙ ap (λ (z : HeapEntry K V W). z.item.key) equal ∙ named))
              | inr apart ↦ ground (arith, reads q)
            ]
      ]
    ]

    edited-FixInv : FixInv dec lt eq order edited i
    edited-FixInv = record {
      indexed = edited-IsIndexed;
      inside =
          omega (arith, length-set h.items i (changed value when e), get_elem?-lt h.items i e at_i);
      edges = λ c a p lt_c ne np at_c at_p.
          ground (arith, reads c, reads (parent c), v.ordered.edges c a p);
      bridged = λ c a p lt_c pc lt_i at_c at_p. ground (
        arith,
        reads c,
        reads (parent i),
        v.ordered.edges c a e,
        v.ordered.edges i e p,
        precedes_trans dec lt eq order p e a,
      );
    }

    edited_numbered : (q : ℕ) (a : HeapEntry K V W) → At edited q a → a.sequence < edited.next_seq
    edited_numbered q a at = ground (arith, reads q, v.numbered q a, v.numbered i e)

    update_known :
        Yields dec lt eq h
          (update dec lt eq h key value when)
          true
          (length h.items)
          (λ k. ite (dec k key) (some (changed value when e)) (entry_of dec lt eq h k))
    unfolding update load store
    update_known =
        let restored = fix-Restores dec lt eq order edited-FixInv in
        record {
          heap = restored.heap;
          returned = rw (update, there, load, at_i, store, restored.returned) refl;
          valid = Restores-IsValid dec lt eq order edited-IsIndexed edited_numbered restored;
          size = restored.held.size ∙ length-set h.items i (changed value when e);
          next = omega (arith, restored.held.next);
          held = λ k. restored.held.same k ∙ edited-held k;
        }

  -- What Update says, and what it leaves.
  abbrev known : K → Bool
  known key = elim (entry_of dec lt eq h key) [ none ↦ false | some e ↦ true ]

  pub update_refines :
      (key : K)
      → Yields dec lt eq h (update dec lt eq h key value when) (known key) (length h.items) (λ k.
        elim (entry_of dec lt eq h key) [
          | none ↦ entry_of dec lt eq h k
          | some e ↦ ite (dec k key) (some (changed value when e)) (entry_of dec lt eq h k)
        ])
  unfolding update
  update_refines key = elim (Option-cases (lookup dec key h.indexes)) [
    | inl absent ↦
        let missing : entry_of dec lt eq h key ≡ none = ground arith in
        record {
          heap = h;
          returned = rw (update, absent) (ap (λ b. ok (h, b)) (ground arith));
          valid = v;
          size = refl;
          next = omega arith;
          held = λ k. rw missing refl;
        }
    | inr (i, there) ↦
        let (e, at, named) = v.indexed.points key i there in
        let holds : entry_of dec lt eq h key ≡ some e = ground arith in
        let done = update_known key i e at named there in
        record {
          heap = done.heap;
          returned = done.returned ∙ ap (λ b. ok (done.heap, b)) (ground arith);
          valid = done.valid;
          size = done.size;
          next = done.next;
          held = λ k. rw holds (done.held k);
        }
  ]

  -- Where the deadlines have a total order and the next sequence number is below 2 ^ 64 - 1, Upsert of a
  -- valid heap never panics, leaves it valid, and says whether the key is new. The key then has the new
  -- value and deadline, with the next sequence number if it is new and with its old one if not, and
  -- every other key has the entry it had.
  pub upsert_refines :
      (key : K)
      → h.next_seq < 2 ^ 64 - 1
      → Yields dec lt eq h
          (upsert dec lt eq h key value when)
          (not (known key))
          (if known key then length h.items else suc (length h.items))
          (λ k.
            ite
              (dec k key)
              (some (elim (entry_of dec lt eq h key) [
                | none ↦ made h key value when
                | some e ↦ changed value when e
              ]))
              (entry_of dec lt eq h k))
  unfolding upsert update
  upsert_refines key room = elim (Option-cases (lookup dec key h.indexes)) [
    | inl absent ↦
        let missing : entry_of dec lt eq h key ≡ none = ground arith in
        let entered = insert_item_refines dec lt eq order h v key value when room in
        record {
          heap = entered.heap;
          returned =
              rw (upsert, update, absent, entered.returned)
                (ap (λ b. ok (entered.heap, b)) (ground arith));
          valid = entered.valid;
          size = entered.size ∙ ground arith;
          next = entered.next;
          held = λ k. entered.held k ∙ rw missing refl;
        }
    | inr (i, there) ↦
        let (e, at, named) = v.indexed.points key i there in
        let holds : entry_of dec lt eq h key ≡ some e = ground arith in
        let updated = update_refines key in
        record {
          heap = updated.heap;
          returned = rw (upsert, updated.returned, known, holds) refl;
          valid = updated.valid;
          size = updated.size ∙ rw (known, holds) refl;
          next = updated.next;
          held = λ k.
              updated.held k
              ∙ rw holds (elim (dec k key) [ yes p ↦ ground arith | no p ↦ ground arith ]);
        }
  ]
