-- ===== src/Core/Dedup/Restore.antt =====
-- core/dedup.go: what Restore brings back.
use mathlib.Core.List.{append-nil, append_assoc}
use goactor.Prelude.{
  ℕ, ◌+◌, ◌≤◌, ◌<◌, ◌≡◌, refl, sym, true, false, List, [], ◌∷◌, ◌++◌, arith, ◌==◌, Str, ok, ◌>>=◌,
}
use goactor.Prelude.Assoc.{length, contains, ◌∷ʳ◌}
use goactor.Prelude.Slice.{length-append}
use goactor.Structs.Ring.Refine.{length-Holds}
use goactor.Core.Dedup.{Dedup, ids, add_all, restore}
use goactor.Core.Dedup.Refine.{
  seen, IsDistinct, remember, Remembers, add_refines, ids_refines, reset_refines,
}

not_seen-prefix :
    (q : List Str) (id : Str) (list : List Str) → IsDistinct (q ++ id ∷ list) → seen q id ≡ false
unfolding contains
not_seen-prefix [] id list d = refl
not_seen-prefix (y ∷ q) id list d = ground (arith, not_seen-prefix q id list, seen-middle q id list)
  where
    seen-middle : (q : List Str) (id : Str) (list : List Str) → seen (q ++ id ∷ list) id ≡ true
    seen-middle [] id list = ground arith
    seen-middle (y ∷ q) id list = ground (arith, seen-middle q id list)

-- What a list of ids leaves, added one after the other.
unfoldable pub remember_all : ℕ → List Str → List Str → List Str
remember_all n q [] = q
remember_all n q (id ∷ rest) = remember_all n (remember n q id) rest

pub add_all_refines :
    (list : List Str) {n : ℕ} {q : List Str} {d : Dedup}
    → 0 < n
    → Remembers n q d
    → (d' : Dedup) × (add_all d list ≡ ok d') × Remembers n (remember_all n q list) d'
unfolding add_all remember_all
add_all_refines [] {n} {q} {d} p m = (d, refl, m)
add_all_refines (id ∷ list) {n} {q} {d} p m =
    let (g, added, m') = add_refines m id p in rw added (add_all_refines list p m')

-- Distinct ids that fit are all remembered, in order.
remember_all-distinct :
    (n : ℕ) (q list : List Str)
    → IsDistinct (q ++ list)
    → length q + length list ≤ n
    → remember_all n q list ≡ q ++ list
unfolding remember_all remember
remember_all-distinct n q [] d h = sym (append-nil q)
remember_all-distinct n q (id ∷ list) d h =
    let new : seen q id ≡ false = not_seen-prefix q id list d in
    let room : (length q == n) ≡ false = ground arith in
    rw
      (
        new,
        room,
        remember_all-distinct n (q ∷ʳ id) list (rw (append_assoc q (id ∷ []) list) d)
            (omega (arith, length-append q (id ∷ []))),
      )
      (append_assoc q (id ∷ []) list)

-- Restore of distinct ids that fit the positive capacity returns, and the Dedup then remembers exactly
-- them, in order, whatever it remembered before.
pub restore_refines :
    {n : ℕ} {q : List Str} {d : Dedup} (list : List Str)
    → 0 < n
    → Remembers n q d
    → IsDistinct list
    → length list ≤ n
    → (d' : Dedup) × (restore d list ≡ ok d') × Remembers n list d'
unfolding restore
restore_refines {n} list p m distinct fits =
    let (d', added, m') = add_all_refines list p (reset_refines m) in
    (d', added, rw (remember_all-distinct n [] list distinct (omega arith)) at m')

-- What Ids returns from one Dedup, Restore brings back in another one of the same positive capacity.
pub restore-ids :
    {n : ℕ} {q q' : List Str} {d e : Dedup}
    → 0 < n
    → Remembers n q d
    → Remembers n q' e
    → (e' : Dedup) × ((ids d >>= restore e) ≡ ok e') × Remembers n q e'
restore-ids {n} {q} {q'} {d} {e} p m m' =
    let (e', restored, r) =
      restore_refines q p m' m.distinct (omega (arith, length-Holds [] m.held, m.held.size_in)) in
    (e', rw (ids_refines m) restored, r)
