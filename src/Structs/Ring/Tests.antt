-- ===== src/Structs/Ring/Tests.antt =====
-- structs/ring.go on small rings, and the theorems at a ring that has gone round.
use goactor.Prelude.{ℕ, ◌≡◌, refl, List, [], ◌∷◌, none, some, arith, inr, ok}
use goactor.Prelude.Slice.{load, store}
use goactor.Structs.Ring.{
  Ring, new_ring, len, full, push, pop, peek, at, values_from, values, clear,
}
use goactor.Structs.Ring.Refine.{Holds, enqueue, dequeue, push_refines, pop_refines}

program : Unit {0}
unfolding new_ring len full push pop peek at values_from values clear load store enqueue dequeue
program = tt

-- 7 and 8 in a ring of three whose head is the last index.
abbrev turned : Ring ℕ
turned = record { items = 8 ∷ 0 ∷ 7 ∷ []; head = 2; size = 2 }

abbrev contents : List ℕ
contents = 7 ∷ 8 ∷ []

-- 7, 8 and 9 fill it.
abbrev filled : Ring ℕ
filled = record { items = 8 ∷ 9 ∷ 7 ∷ []; head = 2; size = 3 }

overwrites :
    (push (some turned) 9 ≡ ok (some filled, none))
    × (push (some filled) 4
        ≡ ok (some (record { items = 8 ∷ 9 ∷ 4 ∷ []; head = 0; size = 3 }), some 7))
unfolding program
overwrites = (refl, refl)

turned-Holds : Holds 0 3 (7 ∷ 8 ∷ []) turned
turned-Holds = record {
  room = refl;
  head_in = inr (omega arith);
  size_in = omega arith;
  same = refl;
}

filled-Holds : Holds 0 3 (7 ∷ 8 ∷ 9 ∷ []) filled
filled-Holds = record {
  room = refl;
  head_in = inr (omega arith);
  size_in = omega arith;
  same = refl;
}

push_refines_example :
    (r' : Ring ℕ) × (push (some filled) 4 ≡ ok (some r', (enqueue 3 (7 ∷ 8 ∷ 9 ∷ []) 4).1))
    × Holds 0 3 (enqueue 3 (7 ∷ 8 ∷ 9 ∷ []) 4).0 r'
push_refines_example = push_refines 0 filled-Holds 4

pop_refines_example :
    (r' : Ring ℕ) × (pop 0 (some filled) ≡ ok (some r', (dequeue (7 ∷ 8 ∷ 9 ∷ [])).1))
    × Holds 0 3 (dequeue (7 ∷ 8 ∷ 9 ∷ [])).0 r'
pop_refines_example = pop_refines 0 filled-Holds
