-- ===== src/Structs/QuadHeap/Tests.antt =====
-- structs/quadheap.go on small heaps, after structs/quadheap_test.go.
use mathlib.Core.List.{lookup}
use goactor.Prelude.{
  ℕ, zero, suc, ◌≡◌, refl, List, [], ◌∷◌, none, some, ltb, ◌==◌, ℕ_discrete, Run, ok, ◌>>=◌,
}
use goactor.Prelude.Assoc.{insert, delete}
use goactor.Prelude.Slice.{load, store}
use goactor.Structs.QuadHeap.{
  QuadHeap, new_quad_heap, len, peek, indices, sequence_at, insert_index, sort_indices, number,
  renumber_sequences, precedes, less, swap, sift_up, least_child, sift_down, fix, insert_item,
  remove_at, pop, update, upsert, remove,
}

program : Unit {0}
unfolding new_quad_heap len peek indices sequence_at insert_index sort_indices number
    renumber_sequences precedes less swap sift_up least_child sift_down fix insert_item remove_at
    pop update upsert remove insert delete load store lookup ℕ_discrete
program = tt

abbrev Heap : Type 0
Heap = QuadHeap ℕ ℕ ℕ

abbrev put : Heap → List (ℕ × ℕ) → Run Heap
put h [] = ok h
put h ((key, when) ∷ rest) = upsert ℕ_discrete ltb ◌==◌ h key 0 when >>= λ (h', _). put h' rest

-- The keys in the order in which `n` calls of Pop return them.
abbrev drain : ℕ → Heap → Run (List ℕ)
drain zero h = ok []
drain (suc n) h = pop ℕ_discrete ltb ◌==◌ h >>= λ (h', popped). elim popped [
  | none ↦ ok []
  | some item ↦ drain n h' >>= λ keys. ok (item.key ∷ keys)
]

abbrev filled : Run Heap
filled = put (new_quad_heap 8) ((1, 30) ∷ (2, 10) ∷ (3, 20) ∷ (4, 10) ∷ (5, 40) ∷ (6, 5) ∷ [])

-- Deadlines come in order, equal ones in the order of insertion; a later Upsert moves its key.
orders :
    ((filled >>= drain 7) ≡ ok (6 ∷ 2 ∷ 4 ∷ 3 ∷ 1 ∷ 5 ∷ []))
    × ((filled >>= (λ h. put h ((6, 25) ∷ [])) >>= drain 7) ≡ ok (2 ∷ 4 ∷ 3 ∷ 6 ∷ 1 ∷ 5 ∷ []))
unfolding program
orders = (refl, refl)
