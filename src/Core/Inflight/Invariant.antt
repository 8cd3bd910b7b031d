-- ===== src/Core/Inflight/Invariant.antt =====
-- core/inflight.go: the well-formedness of a window, under Add, remove and Complete.
use goactor.Prelude.{
  ◌-◌, ◌^◌, ◌≡◌, refl, Bool, true, false, ◌||◌, ◌⊎◌, ◌↔◌, List, [], ◌∷◌, none, some, ite, if_pos,
  if_neg, arith, if◌then◌else◌, ℤ, pos, ℤ_discrete, eq_of_parts, ◌≤ℤ◌, ◌<ℤ◌, Str, Str_discrete,
  Bool-cases, inl, inr,
}
use goactor.Prelude.Assoc.{contains, ◌∷ʳ◌}
use goactor.Structs.Map
use goactor.Structs.Map.{Map}
use goactor.Structs.Map.Laws.{
  get-add_or_update, get-new_map, get-add_if_not_exist, exist-get, get_default-get,
}
use goactor.Core.Inflight.{
  Inflight, InflightComplete, no_offset, new_inflight, add_bounds, ensure_list, add_offset, add,
  remove, remove_all,
}
use goactor.Core.Inflight.Prefix.{
  holds, holds-covered-rest, rest-IsDistinct, covered_of_rest, IsDistinct,
}
use goactor.Core.Inflight.Remove.{
  owner, or_nil, offsets_of, owner-remove, offsets_of-remove, remove_bounds,
}

-- A Kafka offset whose successor is still an `int64`.
abbrev pub IsOffset : ℤ → Type 0
IsOffset o = (pos 0 ≤ℤ o) × (o <ℤ pos (2 ^ 63 - 1))

-- Both bounds are unset, or both are offsets in order.
abbrev pub HasBounds : Inflight → Type 0
HasBounds f =
    ((f.min_offset ≡ no_offset) × (f.max_offset ≡ no_offset))
    ⊎ (IsOffset f.min_offset × IsOffset f.max_offset × (f.min_offset ≤ℤ f.max_offset))

-- The two maps say the same, without repetition, and the maximum bounds what they hold.
pub record IsTracked (f : Inflight) : Type 0 where
  pub listed : (a : Str) (q : ℤ) → (holds (offsets_of f a) q ≡ true) ↔ (owner f q ≡ some a)
  pub distinct : (a : Str) → IsDistinct (offsets_of f a)
  pub within : (a : Str) (q : ℤ) → owner f q ≡ some a → IsOffset q × (q ≤ℤ f.max_offset)
  pub bounds : HasBounds f

-- Between two calls the bounds are unset once nothing is in flight.
pub record IsValid (f : Inflight) : Type 0 where
  pub tracked : IsTracked f
  pub idle : ((q : ℤ) → owner f q ≡ none) → (f.min_offset ≡ no_offset) × (f.max_offset ≡ no_offset)

holds-snoc :
    (l : List ℤ) (o q : ℤ) → holds (l ∷ʳ o) q ≡ (holds l q || ite (ℤ_discrete o q) true false)
unfolding contains
holds-snoc [] o q = ground arith
holds-snoc (x ∷ l) o q = ground (arith, holds-snoc l o q)

snoc-IsDistinct : (l : List ℤ) (o : ℤ) → IsDistinct l → holds l o ≡ false → IsDistinct (l ∷ʳ o)
unfolding contains
snoc-IsDistinct [] o d h = (refl, tt)
snoc-IsDistinct (x ∷ l) o d h =
    (ground (arith, holds-snoc l o x), snoc-IsDistinct l o d.1 (ground arith))

-- Reading the owner after Add.
pub owner-add :
    (f : Inflight) (o : ℤ) (a : Str) (q : ℤ)
    → owner (add f o a) q ≡ ite (ℤ_discrete q o) (some a) (owner f q)
unfolding add add_bounds
owner-add f o a q = get-add_or_update ℤ_discrete f.offset_actor o q a

or_nil-ensure_list :
    (lists : Map Str (List ℤ)) (a b : Str)
    → or_nil (Map.get Str_discrete (ensure_list lists a) b) ≡ or_nil (Map.get Str_discrete lists b)
unfolding ensure_list
or_nil-ensure_list lists a b =
    ground (arith, exist-get Str_discrete lists a, get-add_if_not_exist Str_discrete lists a b [])

get_default-or_nil :
    (lists : Map Str (List ℤ)) (a : Str)
    → Map.get_default Str_discrete [] lists a ≡ or_nil (Map.get Str_discrete lists a)
get_default-or_nil lists a = ground (arith, get_default-get Str_discrete [] lists a)

-- Reading an actor's list after Add: the offset is appended to it if it was not there.
pub offsets_of-add :
    (f : Inflight) (o : ℤ) (a b : Str)
    → offsets_of (add f o a) b ≡ (
        ite
          (Str_discrete b a)
          (if holds (offsets_of f a) o then offsets_of f a else (offsets_of f a ∷ʳ o))
          (offsets_of f b))
unfolding add add_bounds add_offset
offsets_of-add f o a b =
    let lists = f.actor_offsets in
    ground (
      arith,
      or_nil-ensure_list lists a b,
      or_nil-ensure_list lists a a,
      get_default-or_nil (ensure_list lists a) a,
      get-add_or_update Str_discrete (ensure_list lists a) a b (offsets_of f a ∷ʳ o),
    )

pub new_inflight-IsValid : (limit : ℤ) → IsValid (new_inflight limit)
unfolding new_inflight contains
new_inflight-IsValid limit = record {
  tracked = record {
    listed = λ a q. rw (get-new_map, get-new_map) (ground arith, ground arith);
    distinct = λ a. rw get-new_map tt;
    within = λ a q h. absurd (ground (arith, get-new_map {V = Str} ℤ_discrete 0 q));
    bounds = inl (refl, refl);
  };
  idle = λ h. (refl, refl);
}

module _ {f : Inflight} (o : ℤ) (a : Str) (t : IsTracked f) (offset : IsOffset o)
    (free : (b : Str) → owner f o ≡ some b → b ≡ a) where
  add-listed :
      (b : Str) (q : ℤ)
      → (holds (offsets_of (add f o a) b) q ≡ true) ↔ (owner (add f o a) q ≡ some b)
  add-listed b q =
      rw (offsets_of-add f o a b, owner-add f o a q)
        (
          λ h. ground (
            arith,
            t.listed b q,
            t.listed a q,
            t.listed a o,
            t.listed b o,
            free b,
            holds-snoc (offsets_of f a) o q,
          ),
          λ h. ground (
            arith,
            t.listed b q,
            t.listed a q,
            t.listed a o,
            t.listed b o,
            free b,
            holds-snoc (offsets_of f a) o q,
          ),
        )

  add-IsDistinct : (b : Str) → IsDistinct (offsets_of (add f o a) b)
  add-IsDistinct b = rw (offsets_of-add f o a b) (elim (Str_discrete b a) [
    | yes p ↦ rw (if_pos _ p) (elim (Bool-cases (holds (offsets_of f a) o)) [
      | inl e ↦ rw e (t.distinct a)
      | inr e ↦ rw e (snoc-IsDistinct (offsets_of f a) o (t.distinct a) e)
    ])
    | no p ↦ rw (if_neg _ p) (t.distinct b)
  ])

  add-within :
      (b : Str) (q : ℤ) → owner (add f o a) q ≡ some b → IsOffset q × (q ≤ℤ (add f o a).max_offset)
  unfolding add add_bounds
  add-within b q h =
      ground (arith, owner-add f o a q, t.within b q, t.bounds, eq_of_parts f.max_offset no_offset)

  add-bounds : HasBounds (add f o a)
  unfolding add add_bounds
  add-bounds =
      ground
        (arith, t.bounds, eq_of_parts f.max_offset no_offset, eq_of_parts f.min_offset no_offset)

  pub add-IsTracked : IsTracked (add f o a)
  add-IsTracked = record {
    listed = add-listed;
    distinct = add-IsDistinct;
    within = add-within;
    bounds = add-bounds;
  }

-- Add keeps a well-formed window well-formed, if the offset is not negative and, where it is in
-- flight already, it is so for the same actor.
pub add-IsValid :
    {f : Inflight} (o : ℤ) (a : Str)
    → IsValid f
    → IsOffset o
    → ((b : Str) → owner f o ≡ some b → b ≡ a)
    → IsValid (add f o a)
add-IsValid {f} o a v offset free = record {
  tracked = add-IsTracked o a v.tracked offset free;
  idle = λ none_left. absurd (ground (arith, none_left o, owner-add f o a o));
}

module _ {f : Inflight} (a : Str) (m : ℤ) (t : IsTracked f) where
  remove-listed :
      (b : Str) (q : ℤ)
      → (holds (offsets_of (remove f a m).0 b) q ≡ true) ↔ (owner (remove f a m).0 q ≡ some b)
  remove-listed b q =
      rw (offsets_of-remove f a m b, owner-remove f a m q)
        (
          λ h. ground (
            arith,
            t.listed b q,
            t.listed a q,
            holds-covered-rest m (offsets_of f a) q,
            covered_of_rest m (offsets_of f a) q (t.distinct a),
          ),
          λ h. ground (
            arith,
            t.listed b q,
            t.listed a q,
            holds-covered-rest m (offsets_of f a) q,
            covered_of_rest m (offsets_of f a) q (t.distinct a),
          ),
        )

  remove-IsDistinct : (b : Str) → IsDistinct (offsets_of (remove f a m).0 b)
  remove-IsDistinct b = rw (offsets_of-remove f a m b) (elim (Str_discrete b a) [
    | yes p ↦ rw (if_pos _ p) (rest-IsDistinct m (offsets_of f a) (t.distinct a))
    | no p ↦ rw (if_neg _ p) (t.distinct b)
  ])

  pub remove-IsTracked : IsTracked (remove f a m).0
  remove-IsTracked =
      let (low, high, limit) = remove_bounds f a m in
      record {
        listed = remove-listed;
        distinct = remove-IsDistinct;
        within = λ b q h. ground (arith, owner-remove f a m q, t.within b q, high);
        bounds = rw (low, high) t.bounds;
      }

pub remove_all-IsTracked :
    (items : List InflightComplete) {f : Inflight} (need : Bool)
    → IsTracked f
    → IsTracked (remove_all f need items).0
unfolding remove_all
remove_all-IsTracked [] need t = t
remove_all-IsTracked (item ∷ items) {f} need t =
    remove_all-IsTracked items (if (remove f item.actor_id item.max_offset).1 then true else need)
      (remove-IsTracked item.actor_id item.max_offset t)
