-- ===== src/Structs/QuadHeap/Samples.antt =====
-- structs/quadheap.go: the claims on heaps at a heap of two items.
use mathlib.Core.List.{lookup}
use goactor.Prelude.{
  ℕ, zero, suc, ◌-◌, ◌/◌, ◌<◌, ◌≡◌, ◌⊎◌, true, false, [], ◌∷◌, none, some, arith, ltb, ◌==◌, ite,
  ℕ_discrete,
}
use goactor.Structs.QuadHeap.{HeapEntry, QuadHeap, precedes, insert_item, upsert, remove}
use goactor.Structs.QuadHeap.Order.{IsDeadline, At, entry_of}
use goactor.Structs.QuadHeap.Valid.{IsValid, Yields}
use goactor.Structs.QuadHeap.Insert.{made, insert_item_refines}
use goactor.Structs.QuadHeap.Update.{changed, upsert_refines}
use goactor.Structs.QuadHeap.Release.{IsEmpty, Pops, remove_refines, pop_least}

abbrev Heap : Type 0
Heap = QuadHeap ℕ ℕ ℕ

by_time : IsDeadline ltb ◌==◌
by_time = record {
  asym = λ x y h. ground arith;
  trans = λ x y z h k. ground arith;
  total = λ x y h k. ground arith;
  same = λ x. ground arith;
  sound = λ x y h. ground arith;
}

abbrev entry : ℕ → ℕ → ℕ → HeapEntry ℕ ℕ ℕ
entry key when sequence = record {
  item = record { key = key; value = 0; when = when };
  sequence = sequence;
}

-- Key 7 is due at 3 and key 5 at 9.
abbrev pair : Heap
pair = record {
  items = entry 7 3 1 ∷ entry 5 9 0 ∷ [];
  indexes = (5, 1) ∷ (7, 0) ∷ [];
  next_seq = 2;
}

pair_edges :
    (c : ℕ) (e p : HeapEntry ℕ ℕ ℕ)
    → 0 < c
    → At pair c e
    → At pair ((c - 1) / 4) p
    → precedes ℕ_discrete ltb ◌==◌ e p ≡ false
unfolding precedes
pair_edges zero e p lt at_c at_p = absurd (omega arith)
pair_edges (suc zero) e p lt at_c at_p = ground arith
pair_edges (suc (suc c)) e p lt at_c at_p = absurd (ground arith)

pair_found :
    (i : ℕ) (e : HeapEntry ℕ ℕ ℕ) → At pair i e → lookup ℕ_discrete e.item.key pair.indexes ≡ some i
unfolding lookup ℕ_discrete
pair_found zero e at = ground arith
pair_found (suc zero) e at = ground arith
pair_found (suc (suc i)) e at = absurd (ground arith)

pair_points :
    (k i : ℕ)
    → lookup ℕ_discrete k pair.indexes ≡ some i
    → (e : HeapEntry ℕ ℕ ℕ) × At pair i e × (e.item.key ≡ k)
unfolding lookup
pair_points k i there = elim (ℕ_discrete 5 k) [
  | yes p ↦ (entry 5 9 0, ground arith, p)
  | no p ↦ elim (ℕ_discrete 7 k) [
    | yes r ↦ (entry 7 3 1, ground arith, r)
    | no r ↦ absurd (ground arith)
  ]
]

pair_numbered : (i : ℕ) (e : HeapEntry ℕ ℕ ℕ) → At pair i e → e.sequence < 2
pair_numbered zero e at = ground arith
pair_numbered (suc zero) e at = ground arith
pair_numbered (suc (suc i)) e at = absurd (ground arith)

pair-IsValid : IsValid ℕ_discrete ltb ◌==◌ pair
pair-IsValid = record {
  ordered = record { edges = pair_edges };
  indexed = record { found = pair_found; points = pair_points };
  numbered = pair_numbered;
}

insert_item_refines_example :
    Yields ℕ_discrete ltb ◌==◌ pair
      (insert_item ℕ_discrete ltb ◌==◌ pair 4 1 2)
      true
      3
      (λ k. ite (ℕ_discrete k 4) (some (made pair 4 1 2)) (entry_of ℕ_discrete ltb ◌==◌ pair k))
unfolding lookup ℕ_discrete
insert_item_refines_example =
    insert_item_refines ℕ_discrete ltb ◌==◌ by_time pair pair-IsValid 4 1 2 (omega arith)

upsert_refines_example :
    Yields ℕ_discrete ltb ◌==◌ pair (upsert ℕ_discrete ltb ◌==◌ pair 5 1 2) false 2 (λ k.
      ite (ℕ_discrete k 5) (some (changed 1 2 (entry 5 9 0))) (entry_of ℕ_discrete ltb ◌==◌ pair k))
unfolding lookup ℕ_discrete
upsert_refines_example =
    upsert_refines ℕ_discrete ltb ◌==◌ by_time pair pair-IsValid 1 2 5 (omega arith)

remove_refines_example :
    Yields ℕ_discrete ltb ◌==◌ pair
      (remove ℕ_discrete ltb ◌==◌ pair 7)
      true
      1
      (λ k. ite (ℕ_discrete k 7) none (entry_of ℕ_discrete ltb ◌==◌ pair k))
unfolding lookup ℕ_discrete
remove_refines_example = remove_refines ℕ_discrete ltb ◌==◌ by_time pair pair-IsValid 7

pop_least_example :
    IsEmpty ℕ_discrete ltb ◌==◌ by_time pair pair-IsValid
    ⊎ (e : HeapEntry ℕ ℕ ℕ) × Pops ℕ_discrete ltb ◌==◌ by_time pair pair-IsValid e
pop_least_example = pop_least ℕ_discrete ltb ◌==◌ by_time pair pair-IsValid
