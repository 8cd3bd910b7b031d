-- ===== src/Storage/Mongo/Behaviour.antt =====
-- What MongoDB documents of updates of the form that storage/mongo.go uses, whichever conditions and
-- settings they have: an update is atomic; with upsert, where its filter matches no document and one with
-- the id is there, it is a duplicate key. A bulk write that is not ordered makes each of its updates, and
-- names those that fail by their index. An operation that ends in another error may have taken effect.
use goactor.Prelude.{
  ℕ, ◌+◌, ◌≡◌, ◌⊎◌, Bool, true, false, not, ◌&&◌, ◌||◌, List, [], ◌∷◌, map, Option, none, some,
  if◌then◌else◌, ite, ℤ, pos, ◌+ℤ◌, ◌<ℤ◌, eq_ℤ, le_ℤ, lt_ℤ, Str, Str_discrete,
}
use mathlib.Core.List.{Perm}
use goactor.Storage.{Snapshot}
use goactor.Storage.Table.{IsDistinct}
use goactor.Storage.Mongo.{
  Update, Increment, Condition, compares, exists, Operator, lte, lt, eq, gt, gte, Setting,
  set_actor_type, set_version, set_offset, set_state, set_dedup, Updated, counts, duplicate_key,
  WriteError, BulkError, bulk_exception, Found, document, Client,
}
use goactor.Storage.Mongo.Save.{indices}

-- A document may lack its version; any other field that is missing is read as its zero value.
pub record Document : Type 0 where
  pub actor_type : Str
  pub version : Option ℤ
  pub offset : ℤ
  pub state : Str
  pub dedup : List Str

abbrev pub empty_document : Document
empty_document = record { actor_type = []; version = none; offset = pos 0; state = []; dedup = [] }

abbrev pub document_version : Option Document → Option ℤ
document_version none = none
document_version (some d) = d.version

unfoldable pub compare_by : Operator → ℤ → ℤ → Bool
compare_by lte x y = le_ℤ x y
compare_by lt x y = lt_ℤ x y
compare_by eq x y = eq_ℤ x y
compare_by gt x y = lt_ℤ y x
compare_by gte x y = le_ℤ y x

-- A comparison with a missing field does not hold.
unfoldable pub holds : Condition → Option ℤ → Bool
unfolding compare_by
holds (compares op bound) none = false
holds (compares op bound) (some v) = compare_by op v bound
holds (exists true) none = false
holds (exists true) (some v) = true
holds (exists false) none = true
holds (exists false) (some v) = false

unfoldable pub any_holds : List Condition → Option ℤ → Bool
unfolding holds
any_holds [] v = false
any_holds (c ∷ rest) v = holds c v || any_holds rest v

unfoldable pub set_field : Setting → Document → Document
set_field (set_actor_type x) d = record d { actor_type = x }
set_field (set_version x) d = record d { version = some x }
set_field (set_offset x) d = record d { offset = x }
set_field (set_state x) d = record d { state = x }
set_field (set_dedup x) d = record d { dedup = x }

unfoldable pub set_fields : List Setting → Document → Document
unfolding set_field
set_fields [] d = d
set_fields (x ∷ rest) d = set_fields rest (set_field x d)

-- Whether an update matches or inserts, and whether it is a duplicate key.
unfoldable pub is_written : Update → Option Document → Bool
unfolding any_holds
is_written u none = u.upsert
is_written u (some d) = any_holds u.any_of d.version

unfoldable pub is_duplicate_key : Update → Option Document → Bool
unfolding any_holds
is_duplicate_key u none = false
is_duplicate_key u (some d) = u.upsert && not (any_holds u.any_of d.version)

abbrev pub old_or_empty : Option Document → Document
old_or_empty none = empty_document
old_or_empty (some d) = d

unfoldable pub after_update : Option Update → Option Document → Option Document
unfolding is_written set_fields
after_update none old = old
after_update (some u) old =
    if is_written u old then some (set_fields u.set (old_or_empty old)) else old

unfoldable pub update_named : List Update → Str → Option Update
update_named [] id = none
update_named (u ∷ rest) id =
    let later = update_named rest id in ite (Str_discrete u.id id) (some u) later

-- The positions of the updates that fail with a duplicate key, from an index on.
unfoldable pub failing_positions : (Str → Option Document) → ℕ → List Update → List ℤ
unfolding is_duplicate_key
failing_positions collection index [] = []
failing_positions collection index (u ∷ rest) =
    let others = failing_positions collection (index + 1) rest in
    if is_duplicate_key u (collection u.id) then pos index ∷ others else others

unfoldable pub all_duplicates : List WriteError → Bool
all_duplicates [] = true
all_duplicates (item ∷ rest) = item.is_duplicate && all_duplicates rest

-- `$inc` of the version sets a missing one.
abbrev pub incremented : ℤ → Option ℤ → ℤ
incremented by none = by
incremented by (some v) = v +ℤ by

unfoldable pub after_increment : Increment → Option Document → Option Document
after_increment i none = none
after_increment i (some d) = some (record d { version = some (incremented i.by d.version) })

abbrev pub zero_if_missing : Option ℤ → ℤ
zero_if_missing none = pos 0
zero_if_missing (some v) = v

abbrev pub snapshot_at : Str → Document → Snapshot
snapshot_at id d = record {
  actor_id = id;
  actor_type = d.actor_type;
  version = zero_if_missing d.version;
  offset = d.offset;
  state = d.state;
  dedup = d.dedup;
}

module _ {S : Type 0} (view : S → Str → Option Document) where
  abbrev pub Applied : S → S → List Update → Type 0
  Applied w w' us = (id : Str) → view w' id ≡ after_update (update_named us id) (view w id)

  abbrev pub EachApplied : S → S → List Update → Type 0
  EachApplied w w' us =
      (id : Str)
      → (view w' id ≡ after_update (update_named us id) (view w id)) ⊎ (view w' id ≡ view w id)

  pub record UpdateDone (w w' : S) (u : Update) (reply : Updated) : Type 0 where
    pub effect : EachApplied w w' (u ∷ [])
    pub some_counts :
        (matched upserted : ℤ)
        → reply ≡ counts matched upserted
        → Applied w w' (u ∷ [])
          × (is_written u (view w u.id) ≡ not (eq_ℤ matched (pos 0) && eq_ℤ upserted (pos 0)))
    pub duplicate :
        (text : Str)
        → reply ≡ duplicate_key text
        → Applied w w' (u ∷ []) × (is_duplicate_key u (view w u.id) ≡ true)

  pub record BulkDone (w w' : S) (us : List Update) (reply : Option BulkError) : Type 0 where
    pub effect : EachApplied w w' us
    pub written : reply ≡ none → Applied w w' us × (failing_positions (view w) 0 us ≡ [])
    pub duplicates :
        (errors : List WriteError)
        → reply ≡ some (bulk_exception errors none)
        → all_duplicates errors ≡ true
        → Applied w w' us × Perm (indices errors) (failing_positions (view w) 0 us)

  -- A version outside int64 is an error.
  abbrev pub HasRoom : S → Increment → Type 0
  HasRoom w i = (v : ℤ) → document_version (view w i.id) ≡ some v → pos 0 <ℤ i.by → v <ℤ v +ℤ i.by

  abbrev pub Raised : S → S → Increment → Type 0
  Raised w w' i =
      (q : Str) → view w' q ≡ ite (Str_discrete i.id q) (after_increment i (view w q)) (view w q)

  pub record IncrementDone (w w' : S) (i : Increment) (reply : Found) : Type 0 where
    pub effect : (Raised w w' i × HasRoom w i) ⊎ ((q : Str) → view w' q ≡ view w q)
    pub found :
        (doc : Snapshot)
        → reply ≡ document doc
        → Raised w w' i
          × HasRoom w i
          × (d : Document) × (view (if i.after then w' else w) i.id ≡ some d)
          × (doc ≡ snapshot_at i.id d)

pub record Documented {S : Type 0} (client : Client S) (collection : Str) : Type 0 where
  pub view : S → Str → Option Document
  pub updates :
      (w : S) (u : Update)
      → UpdateDone view w
          (client.update_one w collection u).0
          u
          (client.update_one w collection u).1
  pub writes :
      (w : S) (us : List Update)
      → IsDistinct (map (λ (u : Update). u.id) us)
      → BulkDone view w
          (client.bulk_write w collection us).0
          us
          (client.bulk_write w collection us).1
  pub increments :
      (w : S) (i : Increment)
      → IncrementDone view w
          (client.find_one_and_update w collection i).0
          i
          (client.find_one_and_update w collection i).1
