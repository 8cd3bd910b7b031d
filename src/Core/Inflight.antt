-- ===== src/Core/Inflight.antt =====
-- core/inflight.go: the offsets of a shard that are delivered and not yet covered by a snapshot.
-- An offset is an `int64`; -1 stands for "none".
pub mod Prefix
pub mod Remove
pub mod Invariant
pub mod Least
pub mod Settle
pub mod Complete
pub mod Window
pub mod Again
mod Tests
use goactor.Prelude.{
  ℕ, ◌+◌, Bool, true, false, not, ◌&&◌, ◌||◌, List, [], ◌∷◌, Option, none, some, ◌==◌,
  if◌then◌else◌, ℤ, pos, negsuc, ℤ_discrete, ◌+ℤ◌, ◌-ℤ◌, lt_ℤ, le_ℤ, eq_ℤ, Str, Str_discrete, Run,
  ok, panic,
}
use goactor.Prelude.Assoc.{length, contains, drop, keys, ◌∷ʳ◌}
use goactor.Structs.Map
use goactor.Structs.Map.{Map}

-- InflightWindowLimit
abbrev pub inflight_window_limit : ℤ
inflight_window_limit = pos 4096

pub record Inflight : Type 0 where
  pub window_limit : ℤ
  pub min_offset : ℤ
  pub max_offset : ℤ
  pub offset_actor : Map ℤ Str
  pub actor_offsets : Map Str (List ℤ)

pub record InflightComplete : Type 0 where
  pub actor_id : Str
  pub max_offset : ℤ

abbrev pub no_offset : ℤ
no_offset = negsuc 0

-- NewInflight
unfoldable pub new_inflight : ℤ → Inflight
new_inflight limit = record {
  window_limit = limit;
  min_offset = no_offset;
  max_offset = no_offset;
  offset_actor = Map.new_map 0;
  actor_offsets = Map.new_map 0;
}

-- reset()
unfoldable pub reset : Inflight → Inflight
reset f = record f {
  min_offset = no_offset;
  max_offset = no_offset;
  offset_actor = Map.new_map 0;
  actor_offsets = Map.new_map 0;
}

-- Full(offset)
unfoldable pub full : Inflight → ℤ → Bool
full f offset =
    if Map.exist ℤ_discrete f.offset_actor offset
    then false
    else if le_ℤ f.window_limit (f.max_offset -ℤ f.min_offset)
    then true
    else if not (eq_ℤ f.min_offset no_offset) && le_ℤ f.window_limit (offset -ℤ f.min_offset)
    then true
    else false

-- Add(offset, actorId): the bounds first.
unfoldable pub add_bounds : Inflight → ℤ → Inflight
add_bounds f offset = record f {
  min_offset = if eq_ℤ f.min_offset no_offset then offset else f.min_offset;
  max_offset =
      if eq_ℤ f.max_offset no_offset || lt_ℤ f.max_offset offset then offset else f.max_offset;
}

-- Then the list of the actor is made if there is none,
unfoldable pub ensure_list : Map Str (List ℤ) → Str → Map Str (List ℤ)
ensure_list lists actor_id =
    if Map.exist Str_discrete lists actor_id
    then lists
    else Map.add_if_not_exist Str_discrete lists actor_id []

-- and gets the offset if it does not hold it.
unfoldable pub add_offset : Map Str (List ℤ) → ℤ → Str → Map Str (List ℤ)
add_offset lists offset actor_id =
    let list = Map.get_default Str_discrete [] (ensure_list lists actor_id) actor_id in
    if contains ℤ_discrete list offset
    then ensure_list lists actor_id
    else Map.add_or_update Str_discrete (ensure_list lists actor_id) actor_id (list ∷ʳ offset)

unfoldable pub add : Inflight → ℤ → Str → Inflight
add f offset actor_id = record (add_bounds f offset) {
  offset_actor = Map.add_or_update ℤ_discrete f.offset_actor offset actor_id;
  actor_offsets = add_offset f.actor_offsets offset actor_id;
}

-- `slices.Min`, which panics on an empty slice
unfoldable pub min_from : ℤ → List ℤ → ℤ
min_from m [] = m
min_from m (x ∷ xs) = min_from (if lt_ℤ x m then x else m) xs

unfoldable pub slices_min : List ℤ → Run ℤ
slices_min [] = panic
slices_min (x ∷ xs) = ok (min_from x xs)

-- GetMinOffset: `none` is `ok = false`
unfoldable pub get_min_offset : Inflight → Str → Run (Option ℤ)
get_min_offset f actor_id = elim (Map.get Str_discrete f.actor_offsets actor_id) [
  | none ↦ ok none
  | some value ↦ elim (slices_min value) [ ok m ↦ ok (some m) | panic ↦ panic ]
]

-- The loop of remove: what is left of `offsetActor`, the count, and whether the minimum went.
unfoldable pub scan : ℤ → ℤ → List ℤ → Map ℤ Str → ℕ → Bool → Map ℤ Str × ℕ × Bool
scan min_offset max_offset [] owners removed need = (owners, removed, need)
scan min_offset max_offset (offset ∷ offsets) owners removed need =
    if lt_ℤ max_offset offset
    then (owners, removed, need)
    else scan min_offset max_offset offsets (Map.del ℤ_discrete owners offset) (removed + 1)
        (if eq_ℤ offset min_offset then true else need)

-- remove, once the list of the actor is found
unfoldable pub remove_offsets : Inflight → Str → ℤ → List ℤ → Inflight × Bool
remove_offsets f actor_id max_offset offsets =
    if length offsets == 0
    then (f, false)
    else let (owners, removed, need) =
        scan f.min_offset max_offset offsets f.offset_actor 0 false in
      (
        record f {
          offset_actor = owners;
          actor_offsets =
              if removed == length offsets
              then Map.del Str_discrete f.actor_offsets actor_id
              else Map.add_or_update Str_discrete f.actor_offsets actor_id (drop removed offsets);
        },
        need,
      )

-- remove(actorId, maxOffset)
unfoldable pub remove : Inflight → Str → ℤ → Inflight × Bool
remove f actor_id max_offset = elim (Map.get Str_discrete f.actor_offsets actor_id) [
  | none ↦ (f, false)
  | some offsets ↦ remove_offsets f actor_id max_offset offsets
]

-- The `range` of resetMinOffset over the keys.
unfoldable pub least : ℤ → List ℤ → ℤ
least m [] = m
least m (offset ∷ offsets) = least (if eq_ℤ m no_offset || lt_ℤ offset m then offset else m) offsets

-- resetMinOffset()
unfoldable pub reset_min_offset : Inflight → Inflight
reset_min_offset f =
    let (entries, owners) = Map.get_map f.offset_actor in
    let new_min = least no_offset (keys entries) in
    record f {
      offset_actor = owners;
      min_offset = if eq_ℤ new_min no_offset then no_offset else new_min;
    }

-- The loop of Complete.
unfoldable pub remove_all : Inflight → Bool → List InflightComplete → Inflight × Bool
remove_all f need [] = (f, need)
remove_all f need (item ∷ items) =
    let (f', more) = remove f item.actor_id item.max_offset in
    remove_all f' (if more then true else need) items

-- The rest of Complete: the new state, the next offset to commit, and whether it advanced.
unfoldable pub settle : Inflight → Bool → Inflight × ℤ × Bool
settle f need_advance =
    if Map.get_length f.offset_actor == 0
    then if lt_ℤ f.max_offset (pos 0) then (f, pos 0, false) else (
      record f { min_offset = no_offset; max_offset = no_offset },
      f.max_offset +ℤ pos 1,
      true,
    )
    else if need_advance
    then (let f' = reset_min_offset f in (f', f'.min_offset, lt_ℤ f.min_offset f'.min_offset))
    else (f, f.min_offset, false)

-- Complete(list...)
unfoldable pub complete : Inflight → List InflightComplete → Inflight × ℤ × Bool
complete f list = let (f', need) = remove_all f false list in settle f' need
