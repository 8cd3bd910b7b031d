-- ===== src/Core/Dedup/Tests.antt =====
-- core/dedup.go on small inputs, and the theorems at inputs that meet their hypotheses.
use goactor.Prelude.{◌≡◌, refl, not, [], ◌∷◌, arith, pos, Str, Str_discrete, bytes, ok, ◌>>=◌}
use goactor.Prelude.Assoc.{contains}
use goactor.Prelude.Slice.{load, store}
use goactor.Structs.Ring
use goactor.Structs.Set
use goactor.Core.Dedup.{Dedup, new_dedup, forget, make_room, add, has, reset, ids, add_all, restore}
use goactor.Core.Dedup.Refine.{
  IsDistinct, seen, remember, Remembers, new_dedup-Remembers, add_refines,
}
use goactor.Core.Dedup.Restore.{remember_all, add_all_refines, restore_refines}

program : Unit {0}
unfolding new_dedup forget make_room add has reset ids add_all restore remember remember_all
    Ring.new_ring Ring.len Ring.full Ring.push Ring.pop Ring.values_from Ring.values Ring.clear load
    store Set.new_set Set.has Set.add Set.del Set.clear Str_discrete contains
program = tt

abbrev m1 : Str
m1 = bytes "m1"

abbrev m2 : Str
m2 = bytes "m2"

abbrev m3 : Str
m3 = bytes "m3"

abbrev fresh : Dedup
fresh = new_dedup (pos 2)

-- The third id takes the place of the first.
replaces : (add_all fresh (m1 ∷ m2 ∷ m1 ∷ m3 ∷ []) >>= ids) ≡ ok (m2 ∷ m3 ∷ [])
unfolding program
replaces = refl

fresh-Remembers : Remembers 2 [] fresh
fresh-Remembers = new_dedup-Remembers (pos 2)

both :
    (d : Dedup) × (add_all fresh (m1 ∷ m2 ∷ []) ≡ ok d)
    × Remembers 2 (remember_all 2 [] (m1 ∷ m2 ∷ [])) d
both = add_all_refines (m1 ∷ m2 ∷ []) (omega arith) fresh-Remembers

remembered : remember_all 2 [] (m1 ∷ m2 ∷ []) ≡ m1 ∷ m2 ∷ []
unfolding program
remembered = refl

abbrev full_one : Dedup
full_one = both.0

full_one-Remembers : Remembers 2 (m1 ∷ m2 ∷ []) full_one
full_one-Remembers = rw remembered at both.2

add_refines_example :
    (d' : Dedup) × (add full_one m3 ≡ ok (d', not (seen (m1 ∷ m2 ∷ []) m3)))
    × Remembers 2 (remember 2 (m1 ∷ m2 ∷ []) m3) d'
add_refines_example = add_refines full_one-Remembers m3 (omega arith)

distinct : IsDistinct (m3 ∷ m1 ∷ [])
unfolding program
distinct = (refl, (refl, tt))

restore_refines_example :
    (d' : Dedup) × (restore full_one (m3 ∷ m1 ∷ []) ≡ ok d') × Remembers 2 (m3 ∷ m1 ∷ []) d'
restore_refines_example =
    restore_refines (m3 ∷ m1 ∷ []) (omega arith) full_one-Remembers distinct (omega arith)
