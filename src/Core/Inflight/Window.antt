-- ===== src/Core/Inflight/Window.antt =====
-- core/inflight.go: the width of the window (Full) and the least offset of an actor (GetMinOffset).
use goactor.Prelude.{
  ◌+◌, ◌<◌, ◌≡◌, ◌≢◌, refl, ◌↔◌, Bool, true, false, ◌⊎◌, List, [], ◌∷◌, Option, none, some, arith,
  if◌then◌else◌, ℤ, pos, pos_part, ℤ_discrete, ◌≤ℤ◌, ◌<ℤ◌, sub_parts, eq_of_parts, inl, inr, Str,
  Str_discrete, Run, ok, panic, Option-cases,
}
use goactor.Prelude.Assoc.{contains, ◌∷ʳ◌}
use goactor.Structs.Map
use goactor.Structs.Map.{Map}
use goactor.Structs.Map.Laws.{
  get-new_map, get-add_or_update, get-del, get-add_if_not_exist, exist-get, get_default-get,
}
use goactor.Core.Inflight.{
  Inflight, InflightComplete, no_offset, new_inflight, full, add_bounds, ensure_list, add_offset,
  add, min_from, slices_min, get_min_offset, remove_offsets, remove, remove_all, settle,
  reset_min_offset, complete,
}
use goactor.Core.Inflight.Prefix.{holds, rest, drop-covered, length-covered-rest}
use goactor.Core.Inflight.Remove.{owner, offsets_of, scan_count, or_nil}
use goactor.Core.Inflight.Invariant.{IsOffset, IsValid}
use goactor.Core.Inflight.Least.{min_from-IsLeast}

-- The window spans fewer offsets than its limit, or is unset.
abbrev pub HasWidth : Inflight → Type 0
HasWidth f =
    (f.min_offset ≡ no_offset)
    ⊎ (pos_part f.max_offset < pos_part f.min_offset + pos_part f.window_limit)

-- In a well-formed window that is narrower than its positive limit, Add of an offset that is not
-- negative and that Full lets through leaves the window narrower than the limit.
pub add-HasWidth :
    {f : Inflight} (o : ℤ) (a : Str)
    → IsValid f
    → IsOffset o
    → HasWidth f
    → pos 0 <ℤ f.window_limit
    → full f o ≡ false
    → HasWidth (add f o a)
unfolding full add add_bounds
add-HasWidth {f} o a v offset w positive h = elim (Option-cases (owner f o)) [
  | inl e ↦ ground (
    arith,
    exist-get ℤ_discrete f.offset_actor o,
    v.tracked.bounds,
    sub_parts f.max_offset f.min_offset,
    sub_parts o f.min_offset,
    eq_of_parts f.max_offset no_offset,
    eq_of_parts f.min_offset no_offset,
  )
  | inr (b, e) ↦ ground (
    arith,
    v.tracked.bounds,
    v.tracked.within b o e,
    eq_of_parts f.max_offset no_offset,
    eq_of_parts f.min_offset no_offset,
  )
]

-- No actor's list is empty, so `slices.Min` has something to look at.
pub record HasNoEmptyList (f : Inflight) : Type 0 where
  pub apply : (a : Str) → Map.get Str_discrete f.actor_offsets a ≢ some []

snoc-ne-nil : (l : List ℤ) (o : ℤ) → (l ∷ʳ o) ≢ []
snoc-ne-nil [] o h = cc
snoc-ne-nil (x ∷ l) o h = cc

pub new_inflight-HasNoEmptyList : (limit : ℤ) → HasNoEmptyList (new_inflight limit)
unfolding new_inflight
new_inflight-HasNoEmptyList limit = record {
  apply = λ a h. ground (arith, get-new_map {V = List ℤ} Str_discrete 0 a);
}

pub add-HasNoEmptyList :
    {f : Inflight} (o : ℤ) (a : Str) → HasNoEmptyList f → HasNoEmptyList (add f o a)
unfolding add add_bounds add_offset ensure_list contains
add-HasNoEmptyList {f} o a v = record {
  apply = λ b h.
      let lists = f.actor_offsets in
      ground (
        arith,
        v.apply a,
        v.apply b,
        exist-get Str_discrete lists a,
        get-add_if_not_exist Str_discrete lists a b [],
        get-add_if_not_exist Str_discrete lists a a [],
        get_default-get Str_discrete [] (ensure_list lists a) a,
        get-add_or_update Str_discrete (ensure_list lists a) a b
            (Map.get_default Str_discrete [] (ensure_list lists a) a ∷ʳ o),
        snoc-ne-nil (Map.get_default Str_discrete [] (ensure_list lists a) a) o,
      );
}

remove_offsets-HasNoEmptyList :
    {f : Inflight} (a : Str) (m : ℤ) (l : List ℤ)
    → HasNoEmptyList f
    → HasNoEmptyList (remove_offsets f a m l).0
unfolding remove_offsets
remove_offsets-HasNoEmptyList a m [] v = record { apply = λ b h. ground (arith, v.apply b) }
remove_offsets-HasNoEmptyList {f} a m (o ∷ l) v = record {
  apply = λ b h. ground (
    arith,
    v.apply b,
    scan_count f.min_offset m (o ∷ l) f.offset_actor 0 false,
    length-covered-rest m (o ∷ l),
    drop-covered m (o ∷ l),
    get-del Str_discrete f.actor_offsets a b,
    get-add_or_update Str_discrete f.actor_offsets a b (rest m (o ∷ l)),
  );
}

pub remove-HasNoEmptyList :
    {f : Inflight} (a : Str) (m : ℤ) → HasNoEmptyList f → HasNoEmptyList (remove f a m).0
unfolding remove
remove-HasNoEmptyList {f} a m v = record {
  apply = λ b h.
      ground (arith, v.apply b, (remove_offsets-HasNoEmptyList a m (offsets_of f a) v).apply b);
}

remove_all-HasNoEmptyList :
    (items : List InflightComplete) {f : Inflight} (need : Bool)
    → HasNoEmptyList f
    → HasNoEmptyList (remove_all f need items).0
unfolding remove_all
remove_all-HasNoEmptyList [] need v = v
remove_all-HasNoEmptyList (item ∷ items) {f} need v =
    remove_all-HasNoEmptyList items
      (if (remove f item.actor_id item.max_offset).1 then true else need)
      (remove-HasNoEmptyList item.actor_id item.max_offset v)

lists-settle : (f : Inflight) (need : Bool) → (settle f need).0.actor_offsets ≡ f.actor_offsets
unfolding settle reset_min_offset
lists-settle f need = ground arith

pub complete-HasNoEmptyList :
    {f : Inflight} (items : List InflightComplete)
    → HasNoEmptyList f
    → HasNoEmptyList (complete f items).0
unfolding complete
complete-HasNoEmptyList {f} items v = record {
  apply =
      rw (lists-settle (remove_all f false items).0 (remove_all f false items).1)
        ((remove_all-HasNoEmptyList items false v).apply);
}

-- What GetMinOffset may return for an actor.
pub data FoundMin (f : Inflight) (a : Str) : Run (Option ℤ) → Type 0 where
  absent : ((q : ℤ) → owner f q ≢ some a) → FoundMin f a (ok none)
  present :
      (m : ℤ)
      → owner f m ≡ some a
      → ((q : ℤ) → owner f q ≡ some a → m ≤ℤ q)
      → FoundMin f a (ok (some m))

abbrev lookup_min : Option (List ℤ) → Run (Option ℤ)
lookup_min found = elim found [
  | none ↦ ok none
  | some value ↦ elim (slices_min value) [ ok m ↦ ok (some m) | panic ↦ panic ]
]

FoundMin-of :
    {f : Inflight} {a : Str} (found : Option (List ℤ))
    → ((q : ℤ) → (holds (or_nil found) q ≡ true) ↔ (owner f q ≡ some a))
    → found ≢ some []
    → FoundMin f a (lookup_min found)
unfolding slices_min contains
FoundMin-of none listed ne = absent (λ q h. ground (arith, listed q))
FoundMin-of (some []) listed ne = absurd (ne refl)
FoundMin-of (some (o ∷ l)) listed ne =
    let h = min_from-IsLeast o l in
    present (min_from o l) ((listed (min_from o l)).0 h.among)
      (λ q e. ground (arith, listed q, h.first, h.all q))

-- In a well-formed window with no empty list, GetMinOffset does not panic: it returns the least
-- offset in flight for the actor, or nothing if there is none.
pub get_min_offset-FoundMin :
    {f : Inflight} (a : Str) → IsValid f → HasNoEmptyList f → FoundMin f a (get_min_offset f a)
unfolding get_min_offset
get_min_offset-FoundMin {f} a v ne =
    FoundMin-of (Map.get Str_discrete f.actor_offsets a) (v.tracked.listed a) (ne.apply a)
