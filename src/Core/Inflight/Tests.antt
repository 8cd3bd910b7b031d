-- ===== src/Core/Inflight/Tests.antt =====
-- core/inflight.go on small inputs, and the theorems at inputs that meet their hypotheses.
use mathlib.Core.List.{lookup}
use goactor.Prelude.{
  ◌≡◌, refl, true, false, [], ◌∷◌, some, arith, ℤ, pos, ℤ_discrete, ◌+ℤ◌, ◌-ℤ◌, wrap64, Str,
  Str_discrete, bytes, ok,
}
use goactor.Prelude.Assoc.{contains, insert, delete}
use goactor.Structs.Map
use goactor.Core.Inflight.{
  Inflight, InflightComplete, new_inflight, reset, full, add_bounds, ensure_list, add_offset, add,
  min_from, slices_min, get_min_offset, scan, remove_offsets, remove, remove_all, least,
  reset_min_offset, settle, complete,
}
use goactor.Core.Inflight.Remove.{owner}
use goactor.Core.Inflight.Invariant.{IsValid, new_inflight-IsValid, add-IsValid}
use goactor.Core.Inflight.Complete.{
  IsOrdered, IsSafeCommit, is_covered, uncovered, complete-IsValid, complete-IsSafeCommit,
  owner-complete_kept, owner-complete,
}
use goactor.Core.Inflight.Window.{
  HasWidth, HasNoEmptyList, FoundMin, add-HasWidth, get_min_offset-FoundMin,
  new_inflight-HasNoEmptyList, add-HasNoEmptyList,
}
use goactor.Core.Inflight.Settle.{IsIdle}
use goactor.Core.Inflight.Again.{complete-add-IsIdle}

program : Unit {0}
unfolding Map.new_map Map.get_map Map.get_length Map.get Map.exist Map.get_default Map.add_or_update
    Map.add_if_not_exist Map.del lookup insert delete contains ℤ_discrete Str_discrete ◌+ℤ◌ ◌-ℤ◌
    wrap64 new_inflight reset full add_bounds ensure_list add_offset add min_from slices_min
    get_min_offset scan remove_offsets remove remove_all least reset_min_offset settle complete
program = tt

abbrev alice : Str
alice = bytes "alice"

abbrev bob : Str
bob = bytes "bob"

abbrev covers : Str → ℤ → InflightComplete
covers a m = record { actor_id = a; max_offset = m }

abbrev empty : Inflight
empty = new_inflight (pos 4)

abbrev one : Inflight
one = add empty (pos 5) alice

abbrev two : Inflight
two = add one (pos 6) bob

abbrev three : Inflight
three = add two (pos 7) alice

-- Only the contiguous prefix is offered for commit.
complete_in_order :
    ((complete three (covers alice (pos 7) ∷ [])).1 ≡ pos 6)
    × ((complete three (covers bob (pos 6) ∷ [])).2 ≡ false)
    × ((complete three (covers alice (pos 7) ∷ covers bob (pos 6) ∷ [])).1 ≡ pos 8)
unfolding program
complete_in_order = (refl, refl, refl)

full_at_limit :
    (full three (pos 8) ≡ false) × (full three (pos 9) ≡ true) × (full three (pos 7) ≡ false)
unfolding program
full_at_limit = (refl, refl, refl)

min_of_alice : get_min_offset three alice ≡ ok (some (pos 5))
unfolding program
min_of_alice = refl

-- 5, 6 and 7 are fresh when they are added.
fresh :
    (b : Str)
    → (owner empty (pos 5) ≡ some b → b ≡ alice)
      × (owner one (pos 6) ≡ some b → b ≡ bob)
      × (owner two (pos 7) ≡ some b → b ≡ alice)
unfolding program
fresh b = (λ h. ground arith, λ h. ground arith, λ h. ground arith)

empty-IsValid : IsValid empty
empty-IsValid = new_inflight-IsValid (pos 4)

one-IsValid : IsValid one
one-IsValid = add-IsValid (pos 5) alice empty-IsValid (omega arith) (λ b. (fresh b).0)

two-IsValid : IsValid two
two-IsValid = add-IsValid (pos 6) bob one-IsValid (omega arith) (λ b. (fresh b).1)

three-IsValid : IsValid three
three-IsValid = add-IsValid (pos 7) alice two-IsValid (omega arith) (λ b. (fresh b).2)

three-HasNoEmptyList : HasNoEmptyList three
three-HasNoEmptyList = add-HasNoEmptyList (pos 7) alice (
    add-HasNoEmptyList (pos 6) bob
      (add-HasNoEmptyList (pos 5) alice (new_inflight-HasNoEmptyList (pos 4))))

three-IsOrdered : IsOrdered three
unfolding program
three-IsOrdered a = ground arith

empty-IsIdle : IsIdle empty
unfolding program
empty-IsIdle q = refl

add-IsValid_example : IsValid three
add-IsValid_example = add-IsValid (pos 7) alice two-IsValid (omega arith) (λ b. (fresh b).2)

complete-IsValid_example : IsValid (complete three (covers alice (pos 5) ∷ [])).0
complete-IsValid_example = complete-IsValid (covers alice (pos 5) ∷ []) three-IsValid

complete-IsSafeCommit_example :
    let (f', next, advanced) = complete three (covers alice (pos 5) ∷ []) in
    IsSafeCommit three f' next
unfolding program
complete-IsSafeCommit_example = complete-IsSafeCommit (covers alice (pos 5) ∷ []) three-IsValid refl

owner-complete_kept_example :
    owner (complete three (covers alice (pos 5) ∷ [])).0 (pos 7) ≡ some alice
unfolding program is_covered
owner-complete_kept_example =
    owner-complete_kept (covers alice (pos 5) ∷ []) alice (pos 7) three-IsValid refl refl

owner-complete_example :
    owner (complete three (covers alice (pos 5) ∷ [])).0 (pos 5)
    ≡ uncovered (covers alice (pos 5) ∷ []) (pos 5) (owner three (pos 5))
owner-complete_example =
    owner-complete (covers alice (pos 5) ∷ []) (pos 5) three-IsValid three-IsOrdered

add-HasWidth_example : HasWidth (add three (pos 8) bob)
unfolding program
add-HasWidth_example =
    add-HasWidth (pos 8) bob three-IsValid (omega arith) (omega arith) (omega arith) refl

get_min_offset-FoundMin_example : FoundMin three alice (get_min_offset three alice)
get_min_offset-FoundMin_example = get_min_offset-FoundMin alice three-IsValid three-HasNoEmptyList

complete-add-IsIdle_example :
    let (f', next, advanced) = complete (add empty (pos 3) bob) (covers bob (pos 3) ∷ []) in
    (next ≡ pos 3 +ℤ pos 1) × (advanced ≡ true) × IsIdle f'
complete-add-IsIdle_example =
    complete-add-IsIdle (pos 3) bob empty-IsValid empty-IsIdle (omega arith)
