-- ===== src/Core/Inflight/Remove.antt =====
-- What core/inflight.go:remove does to the two maps, in terms of the prefix that it takes.

use goactor.Prelude.{
  ℕ, ◌+◌, ◌≡◌, refl, ◌∙◌, Bool, true, false, ◌||◌, List, [], ◌∷◌, Option, none, some, ite, arith,
  if◌then◌else◌, ℤ, ℤ_discrete, lt_ℤ, eq_ℤ, eq_of_parts, Str, Str_discrete, Bool-cases, inl, inr,
}
use goactor.Prelude.Assoc.{length, contains}
use goactor.Structs.Map
use goactor.Structs.Map.{Map}
use goactor.Structs.Map.Laws.{get-add_or_update, get-del}
use goactor.Core.Inflight.{Inflight, scan, remove_offsets, remove}
use goactor.Core.Inflight.Prefix.{holds, covered, rest, length-covered-rest, drop-covered}

-- The actor that an offset is in flight for.
abbrev pub owner : Inflight → ℤ → Option Str
owner f offset = Map.get ℤ_discrete f.offset_actor offset

abbrev pub or_nil : Option (List ℤ) → List ℤ
or_nil none = []
or_nil (some l) = l

-- The offsets in flight for an actor, in the order in which they were added.
abbrev pub offsets_of : Inflight → Str → List ℤ
offsets_of f actor_id = or_nil (Map.get Str_discrete f.actor_offsets actor_id)

module _ (min_offset max_offset : ℤ) where
  pub scan_count :
      (l : List ℤ) (om : Map ℤ Str) (n : ℕ) (need : Bool)
      → (scan min_offset max_offset l om n need).1 ≡ n + length (covered max_offset l)
  unfolding scan covered
  scan_count [] om n need = omega arith
  scan_count (o ∷ l) om n need = elim (Bool-cases (lt_ℤ max_offset o)) [
    | inl e ↦ rw e (omega arith)
    | inr e ↦ rw e (
        omega (
          arith,
          scan_count l (Map.del ℤ_discrete om o) (n + 1) (if eq_ℤ o min_offset then true else need),
        ))
  ]

  scan_reads :
      (l : List ℤ) (om : Map ℤ Str) (n : ℕ) (need : Bool) (q : ℤ)
      → Map.get ℤ_discrete (scan min_offset max_offset l om n need).0 q
        ≡ (if holds (covered max_offset l) q then none else Map.get ℤ_discrete om q)
  unfolding scan covered contains
  scan_reads [] om n need q = refl
  scan_reads (o ∷ l) om n need q = elim (Bool-cases (lt_ℤ max_offset o)) [
    | inl e ↦ rw e
    | inr e ↦ rw e (
        scan_reads l (Map.del ℤ_discrete om o) (n + 1) (if eq_ℤ o min_offset then true else need) q
        ∙ ground (arith, get-del ℤ_discrete om o q))
  ]

  scan_need :
      (l : List ℤ) (om : Map ℤ Str) (n : ℕ) (need : Bool)
      → (scan min_offset max_offset l om n need).2
        ≡ (holds (covered max_offset l) min_offset || need)
  unfolding scan covered contains
  scan_need [] om n need = refl
  scan_need (o ∷ l) om n need = elim (Bool-cases (lt_ℤ max_offset o)) [
    | inl e ↦ rw e
    | inr e ↦ rw e (
        scan_need l (Map.del ℤ_discrete om o) (n + 1) (if eq_ℤ o min_offset then true else need)
        ∙ ground (arith, eq_of_parts o min_offset))
  ]

module _ (f : Inflight) (a : Str) (m : ℤ) where
  owner-remove_offsets :
      (l : List ℤ) (q : ℤ)
      → owner (remove_offsets f a m l).0 q ≡ (if holds (covered m l) q then none else owner f q)
  unfolding remove_offsets covered contains
  owner-remove_offsets [] q = ground arith
  owner-remove_offsets (o ∷ l) q =
      ground (arith, scan_reads f.min_offset m (o ∷ l) f.offset_actor 0 false q)

  offsets_of-remove_offsets :
      (l : List ℤ) (b : Str)
      → offsets_of f a ≡ l
      → offsets_of (remove_offsets f a m l).0 b
        ≡ (ite (Str_discrete b a) (rest m l) (offsets_of f b))
  unfolding remove_offsets rest
  offsets_of-remove_offsets [] b e = ground arith
  offsets_of-remove_offsets (o ∷ l) b e = ground (
    arith,
    scan_count f.min_offset m (o ∷ l) f.offset_actor 0 false,
    length-covered-rest m (o ∷ l),
    drop-covered m (o ∷ l),
    get-del Str_discrete f.actor_offsets a b,
    get-add_or_update Str_discrete f.actor_offsets a b (rest m (o ∷ l)),
  )

  remove_offsets_need : (l : List ℤ) → (remove_offsets f a m l).1 ≡ holds (covered m l) f.min_offset
  unfolding remove_offsets covered contains
  remove_offsets_need [] = ground arith
  remove_offsets_need (o ∷ l) =
      ground (arith, scan_need f.min_offset m (o ∷ l) f.offset_actor 0 false)

  -- What is no longer owned after remove is exactly the covered prefix of the actor's offsets.
  pub owner-remove :
      (q : ℤ)
      → owner (remove f a m).0 q
        ≡ (if holds (covered m (offsets_of f a)) q then none else owner f q)
  unfolding remove covered contains
  owner-remove q = ground (arith, owner-remove_offsets (offsets_of f a) q)

  -- The actor's list loses that prefix, and the other lists stay.
  pub offsets_of-remove :
      (b : Str)
      → offsets_of (remove f a m).0 b
        ≡ (ite (Str_discrete b a) (rest m (offsets_of f a)) (offsets_of f b))
  unfolding remove rest
  offsets_of-remove b = ground (arith, offsets_of-remove_offsets (offsets_of f a) b)

  -- The result says whether the minimum was in the prefix.
  pub remove_need : (remove f a m).1 ≡ holds (covered m (offsets_of f a)) f.min_offset
  unfolding remove covered contains
  remove_need = ground (arith, remove_offsets_need (offsets_of f a))

  -- The bounds and the limit stay.
  pub remove_bounds :
      ((remove f a m).0.min_offset ≡ f.min_offset)
      × ((remove f a m).0.max_offset ≡ f.max_offset)
      × ((remove f a m).0.window_limit ≡ f.window_limit)
  unfolding remove remove_offsets
  remove_bounds = (ground arith, ground arith, ground arith)
