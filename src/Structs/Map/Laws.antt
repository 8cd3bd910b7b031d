-- ===== src/Structs/Map/Laws.antt =====
-- What a client of structs/map.go knows of a map: every method in terms of `get`.
use mathlib.Core.List.{lookup}
use goactor.Prelude.{
  ℕ, ◌≡◌, refl, true, false, none, some, [], ite, arith, ◌↔◌, Option-cases, inl, inr,
}
use goactor.Prelude.Assoc.{
  contains, keys, lookup-insert, lookup-delete, contains-keys, lookup-of_contains,
  length-eq-zero_iff,
}
use goactor.Structs.Map.{
  Map, new_map, get_map, get_length, get, exist, get_default, add_or_update, add_if_not_exist, del,
}

module _ {ℓ} {K V : Type ℓ} (dec : Discrete K) where
  pub get-new_map : (capacity : ℕ) (q : K) → get {V = V} dec (new_map capacity) q ≡ none
  unfolding get new_map lookup
  get-new_map capacity q = refl

  -- Reading after AddOrUpdate: the new value under its key, and the old reading elsewhere.
  pub get-add_or_update :
      (t : Map K V) (k q : K) (v : V)
      → get dec (add_or_update dec t k v) q ≡ ite (dec q k) (some v) (get dec t q)
  unfolding get add_or_update
  get-add_or_update t k q v = elim (Option-cases t.m) [
    | inl e ↦ rw e (lookup-insert dec k q v [])
    | inr (entries, e) ↦ rw e (lookup-insert dec k q v entries)
  ]

  -- Reading after Del.
  pub get-del : (t : Map K V) (k q : K) → get dec (del dec t k) q ≡ ite (dec q k) none (get dec t q)
  unfolding get del
  get-del t k q = elim (Option-cases t.m) [
    | inl e ↦ ground arith
    | inr (entries, e) ↦ rw e (lookup-delete dec k q entries)
  ]

  -- Reading after AddIfNotExist: a key that is there keeps its value.
  pub get-add_if_not_exist :
      (t : Map K V) (k q : K) (v : V)
      → get dec (add_if_not_exist dec t k v) q
        ≡ ite (dec q k) (elim (get dec t k) [ none ↦ some v | some w ↦ some w ]) (get dec t q)
  unfolding get add_if_not_exist
  get-add_if_not_exist t k q v = elim (Option-cases t.m) [
    | inl e ↦ ground (arith, lookup-insert dec k q v [])
    | inr (entries, e) ↦ ground (arith, lookup-insert dec k q v entries)
  ]

  pub exist-get :
      (t : Map K V) (k : K) → exist dec t k ≡ (elim (get dec t k) [ none ↦ false | some v ↦ true ])
  unfolding exist get
  exist-get t k = ground arith

  pub get_default-get :
      (zero : V) (t : Map K V) (k : K)
      → get_default dec zero t k ≡ (elim (get dec t k) [ none ↦ zero | some v ↦ v ])
  unfolding get_default get
  get_default-get zero t k = ground arith

  -- Length is zero exactly when no key is found.
  pub get_length-eq-zero_iff : (t : Map K V) → (get_length t ≡ 0) ↔ ((k : K) → get dec t k ≡ none)
  unfolding get_length get
  get_length-eq-zero_iff t = elim (Option-cases t.m) [
    | inl e ↦ rw e (λ h k. refl, λ h. refl)
    | inr (entries, e) ↦ rw e (length-eq-zero_iff dec entries)
  ]

  -- The keys that a `range` over Map() visits are those that Get finds.
  pub contains-get_map :
      (t : Map K V) (k : K) (v : V)
      → get dec t k ≡ some v
      → contains dec (keys (get_map t).0) k ≡ true
  unfolding get get_map
  contains-get_map t k v h = elim (Option-cases t.m) [
    | inl e ↦ ground arith
    | inr (entries, e) ↦ rw e (contains-keys dec k v entries (ground arith))
  ]

  pub get-of_contains :
      (t : Map K V) (k : K)
      → contains dec (keys (get_map t).0) k ≡ true
      → (v : V) × (get dec t k ≡ some v)
  unfolding get get_map contains
  get-of_contains t k h = elim (Option-cases t.m) [
    | inl e ↦ absurd (ground arith)
    | inr (entries, e) ↦ rw e (lookup-of_contains dec k entries (ground arith))
  ]

  -- Map() changes nothing that can be read.
  pub get-get_map : (t : Map K V) (q : K) → get dec (get_map t).1 q ≡ get dec t q
  unfolding get get_map lookup
  get-get_map t q = ground arith
