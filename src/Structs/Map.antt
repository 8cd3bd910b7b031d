-- ===== src/Structs/Map.antt =====
-- structs/map.go: a generic map whose zero value, with a nil Go map inside, is usable.
pub mod Laws
use goactor.Prelude.{ℕ, Bool, true, false, Option, none, some, List, [], ite}
use goactor.Prelude.Assoc.{length, insert, delete, keys}
use mathlib.Core.List.{lookup}
use mathlib.Core.Option.{IsSome}

-- `none` is Go's nil map.
pub record Map {ℓ} (K V : Type ℓ) : Type ℓ where
  pub m : Option (List (K × V))

module _ {ℓ} {K V : Type ℓ} where
  -- NewMap: the capacity is a hint to the allocator.
  unfoldable pub new_map : ℕ → Map K V
  new_map capacity = record { m = some [] }

  -- Map(): a nil map is replaced before it is handed out, so the receiver is returned too.
  unfoldable pub get_map : Map K V → List (K × V) × Map K V
  get_map t = elim t.m [ none ↦ ([], record { m = some [] }) | some entries ↦ (entries, t) ]

  -- Keys()
  unfoldable pub get_keys : Map K V → List K
  get_keys t = elim t.m [ none ↦ [] | some entries ↦ keys entries ]

  -- Length()
  unfoldable pub get_length : Map K V → ℕ
  get_length t = elim t.m [ none ↦ 0 | some entries ↦ length entries ]

module _ {ℓ} {K V : Type ℓ} (dec : Discrete K) where
  -- Get: `none` is `ok = false`
  unfoldable pub get : Map K V → K → Option V
  unfolding lookup
  get t key = elim t.m [ none ↦ none | some entries ↦ lookup dec key entries ]

  -- Exist
  unfoldable pub exist : Map K V → K → Bool
  unfolding lookup
  exist t key = elim t.m [
    | none ↦ false
    | some entries ↦ elim (lookup dec key entries) [ none ↦ false | some v ↦ true ]
  ]

  -- GetDefault: `zero` is the zero value of V.
  unfoldable pub get_default : V → Map K V → K → V
  unfolding lookup
  get_default zero t key = elim t.m [
    | none ↦ zero
    | some entries ↦ elim (lookup dec key entries) [ none ↦ zero | some v ↦ v ]
  ]

  -- AddOrUpdate
  unfoldable pub add_or_update : Map K V → K → V → Map K V
  unfolding insert
  add_or_update t key value = elim t.m [
    | none ↦ record { m = some (insert dec key value []) }
    | some entries ↦ record { m = some (insert dec key value entries) }
  ]

  -- AddIfNotExist
  unfoldable pub add_if_not_exist : Map K V → K → V → Map K V
  unfolding insert lookup
  add_if_not_exist t key value = elim t.m [
    | none ↦ record { m = some (insert dec key value []) }
    | some entries ↦ elim (lookup dec key entries) [
      | none ↦ record { m = some (insert dec key value entries) }
      | some v ↦ t
    ]
  ]

  -- Del
  unfoldable pub del : Map K V → K → Map K V
  unfolding delete
  del t key = elim t.m [ none ↦ t | some entries ↦ record { m = some (delete dec key entries) } ]
