-- ===== src/Structs/QuadHeap/Order.antt =====
-- structs/quadheap.go: the order of the entries, and what it means that a heap is in order.
use mathlib.Core.List.{lookup}
use goactor.Prelude.{
  ℕ, ◌-◌, ◌/◌, ◌≡◌, ◌<◌, refl, ◌∙◌, ap, Bool, true, false, Option, none, some, arith, ◌==◌,
  if◌then◌else◌, ite, ok,
}
use goactor.Prelude.Assoc.{length, insert, lookup-insert}
use goactor.Prelude.Slice.{get_elem?, load, store, set, length-set, get_elem?-set}
use goactor.Structs.QuadHeap.{HeapEntry, QuadHeap, precedes, less, swap}

-- `<` and `==` of a deadline type form a total order, as they do on integers and texts.
pub record IsDeadline {W : Type 0} (lt eq : W → W → Bool) : Type 0 where
  pub asym : (x y : W) → lt x y ≡ true → lt y x ≡ false
  pub trans : (x y z : W) → lt y x ≡ false → lt z y ≡ false → lt z x ≡ false
  pub total : (x y : W) → lt x y ≡ false → lt y x ≡ false → x ≡ y
  pub same : (x : W) → eq x x ≡ true
  pub sound : (x y : W) → eq x y ≡ true → x ≡ y

abbrev pub parent : ℕ → ℕ
parent c = (c - 1) / 4

module _ {K V W : Type 0} where
  -- The entry at an index.
  abbrev pub At : QuadHeap K V W → ℕ → HeapEntry K V W → Type 0
  At h i e = get_elem? h.items i ≡ some e

module _ {K V W : Type 0} (dec : Discrete K) (lt eq : W → W → Bool) where
  -- No entry precedes its parent.
  pub record IsHeap (h : QuadHeap K V W) : Type 0 where
    pub edges :
        (c : ℕ) (e p : HeapEntry K V W)
        → 0 < c
        → At h c e
        → At h (parent c) p
        → precedes dec lt eq e p ≡ false

  -- The index map has the index of each entry's key, and nothing else.
  pub record IsIndexed (h : QuadHeap K V W) : Type 0 where
    pub found : (i : ℕ) (e : HeapEntry K V W) → At h i e → lookup dec e.item.key h.indexes ≡ some i
    pub points :
        (k : K) (i : ℕ)
        → lookup dec k h.indexes ≡ some i
        → (e : HeapEntry K V W) × At h i e × (e.item.key ≡ k)

  -- The entry of a key.
  abbrev pub entry_of : QuadHeap K V W → K → Option (HeapEntry K V W)
  entry_of h k = elim (lookup dec k h.indexes) [ none ↦ none | some i ↦ get_elem? h.items i ]

  -- What swap does to a heap with `a` at `i` and `b` at `j`.
  pub record Swapped (h : QuadHeap K V W) (i j : ℕ) (a b : HeapEntry K V W) (h' : QuadHeap K V W)
      : Type 0 where
    pub items :
        (q : ℕ)
        → get_elem? h'.items q
          ≡ (if j == q then some a else if i == q then some b else get_elem? h.items q)
    pub indexes :
        (k : K)
        → lookup dec k h'.indexes
          ≡ ite
              (dec k a.item.key)
              (some j)
              (ite (dec k b.item.key) (some i) (lookup dec k h.indexes))
    pub size : length h'.items ≡ length h.items
    pub next : h'.next_seq ≡ h.next_seq

  module _ (order : IsDeadline lt eq) where
    pub precedes_asym :
        (a b : HeapEntry K V W) → precedes dec lt eq a b ≡ true → precedes dec lt eq b a ≡ false
    unfolding precedes
    precedes_asym a b h = ground (
      arith,
      order.asym a.item.when b.item.when,
      order.asym b.item.when a.item.when,
      order.sound a.item.when b.item.when,
      order.sound b.item.when a.item.when,
      order.same a.item.when,
    )

    -- "does not precede" read as an order
    pub precedes_trans :
        (a b c : HeapEntry K V W)
        → precedes dec lt eq b a ≡ false
        → precedes dec lt eq c b ≡ false
        → precedes dec lt eq c a ≡ false
    unfolding precedes
    precedes_trans a b c h k = ground (
      arith,
      order.trans a.item.when b.item.when c.item.when,
      order.total a.item.when b.item.when,
      order.total b.item.when c.item.when,
      order.total a.item.when c.item.when,
      order.sound c.item.when a.item.when,
      order.same a.item.when,
    )

  module _ (h : QuadHeap K V W) (i j : ℕ) (a b : HeapEntry K V W) (at_i : At h i a)
      (at_j : At h j b) where
    pub less-ok : less dec lt eq h i j ≡ ok (precedes dec lt eq a b)
    unfolding less load
    less-ok = rw (at_i, at_j, load) refl

    pub swap-ok : (h' : QuadHeap K V W) × (swap dec lt eq h i j ≡ ok h') × Swapped h i j a b h'
    unfolding swap load store
    swap-ok =
        let read_j : get_elem? (set h.items i b) j ≡ some b =
          ground (arith, at_j, get_elem?-set h.items i j b a at_i) in
        (
          record h {
            items = set (set h.items i b) j a;
            indexes = insert dec a.item.key j (insert dec b.item.key i h.indexes);
          },
          ground (arith, at_i, at_j, read_j),
          record {
            items = λ q.
                get_elem?-set (set h.items i b) j q a b read_j
                ∙ ap (λ x. if j == q then some a else x) (get_elem?-set h.items i q b a at_i);
            indexes = λ k. ground (
              arith,
              lookup-insert dec a.item.key k j (insert dec b.item.key i h.indexes),
              lookup-insert dec b.item.key k i h.indexes,
            );
            size = length-set (set h.items i b) j a ∙ length-set h.items i b;
            next = refl;
          },
        )
