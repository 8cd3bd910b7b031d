-- ===== src/Storage/Mongo/Save.antt =====
-- storage/mongo.go: Save, of one snapshot and of several.
use goactor.Prelude.{
  ℕ, ◌+◌, true, false, ◌&&◌, List, [], ◌∷◌, Option, none, some, if◌then◌else◌, ℤ, ℤ_discrete, pos,
  negsuc, Str, bytes, eq_ℤ,
}
use goactor.Prelude.Assoc.{contains, ◌∷ʳ◌}
use goactor.Prelude.Slice.{get_elem?}
use goactor.Message.{ActorSnapshot}
use goactor.Storage.{
  Snapshot, StoreError, Result, Saved, BulkCause, returned, failed, stale, uninitialized,
  driver_error, saving, joined, write_failed, concern_failed, stale_among, snapshot_from_message,
  validate_batch,
}
use goactor.Storage.Mongo.{
  Update, compares, lte, exists, set_actor_type, set_version, set_offset, set_state, set_dedup,
  Updated, counts, duplicate_key, update_error, WriteError, BulkError, bulk_exception, other_error,
  Client, MongoStore, ready,
}

-- The filter and the update of a snapshot.
unfoldable pub update_of : Snapshot → Update
update_of doc = record {
  id = doc.actor_id;
  any_of = compares lte doc.version ∷ exists false ∷ [];
  set =
      set_actor_type doc.actor_type
      ∷ set_version doc.version
      ∷ set_offset doc.offset
      ∷ set_state doc.state
      ∷ set_dedup doc.dedup
      ∷ [];
  upsert = true;
}

-- The end of saveOne.
unfoldable pub updated_one : Str → Updated → Option StoreError
updated_one id (counts matched upserted) =
    if eq_ℤ matched (pos 0) && eq_ℤ upserted (pos 0) then some (saving id stale) else none
updated_one id (duplicate_key text) = some (saving id stale)
updated_one id (update_error text) = some (saving id (driver_error text))

-- The Snapshot that snapshotFromMessage returns, empty beside an error.
unfoldable pub snapshot_or_empty : Result Snapshot → Snapshot
snapshot_or_empty (returned doc) = doc
snapshot_or_empty (failed e) = record {
  actor_id = [];
  actor_type = [];
  version = pos 0;
  offset = pos 0;
  state = [];
  dedup = [];
}

-- The models of saveBatch.
unfoldable pub models : List ActorSnapshot → List Update
models [] = []
models (input ∷ rest) = update_of (snapshot_or_empty (snapshot_from_message input)) ∷ models rest

-- The inputs' ids, with those at failed indices left out.
unfoldable pub others_from : List ℤ → ℕ → List ActorSnapshot → List Str
others_from wrong index [] = []
others_from wrong index (input ∷ rest) =
    let others = others_from wrong (index + 1) rest in
    if contains ℤ_discrete wrong (pos index) then others else input.actor_id ∷ others

unfoldable pub indices : List WriteError → List ℤ
indices [] = []
indices (item ∷ rest) = item.index ∷ indices rest

-- successfulActorIDs, of a BulkWriteException and of another error
unfoldable pub successful_actor_ids : List ActorSnapshot → BulkError → List Str
successful_actor_ids inputs (other_error e) = []
successful_actor_ids inputs (bulk_exception errors (some concern)) = []
successful_actor_ids inputs (bulk_exception errors none) = others_from (indices errors) 0 inputs

unfoldable pub id_at : List ActorSnapshot → ℤ → Str
id_at inputs (negsuc n) = bytes "?"
id_at inputs (pos n) = elim (get_elem? inputs n) [ none ↦ bytes "?" | some input ↦ input.actor_id ]

-- The loop of classifyBulkError: the stale ids and the other errors.
unfoldable pub classify :
    List ActorSnapshot → List WriteError → List Str × List BulkCause → List Str × List BulkCause
classify inputs [] (ids, causes) = (ids, causes)
classify inputs (item ∷ rest) (ids, causes) =
    let id = id_at inputs item.index in
    classify inputs rest (
      if item.is_duplicate then (ids ∷ʳ id, causes) else (ids, causes ∷ʳ write_failed id item.text))

unfoldable pub with_concern : Option Str → List BulkCause → List BulkCause
with_concern none causes = causes
with_concern (some e) causes = causes ∷ʳ concern_failed e

unfoldable pub with_stale : List Str → List BulkCause → List BulkCause
with_stale [] causes = causes
with_stale (id ∷ ids) causes = causes ∷ʳ stale_among (id ∷ ids)

unfoldable pub join : List BulkCause → StoreError
join [] = driver_error (bytes "bulk write exception")
join (cause ∷ rest) = joined (cause ∷ rest)

-- classifyBulkError
unfoldable pub classify_bulk_error : List ActorSnapshot → BulkError → StoreError
classify_bulk_error inputs (other_error e) = driver_error e
classify_bulk_error inputs (bulk_exception errors concern) =
    let (ids, causes) = classify inputs errors ([], []) in
    join (with_stale ids (with_concern concern causes))

unfoldable pub actor_ids : List ActorSnapshot → List Str
actor_ids [] = []
actor_ids (input ∷ rest) = input.actor_id ∷ actor_ids rest

-- The end of saveBatch.
unfoldable pub bulk_saved : List ActorSnapshot → Option BulkError → Saved
bulk_saved inputs none = record { success = actor_ids inputs; err = none }
bulk_saved inputs (some e) = record {
  success = successful_actor_ids inputs e;
  err = some (classify_bulk_error inputs e);
}

module _ {S : Type 0} (client : Client S) where
  -- saveOne
  unfoldable pub save_one : Option MongoStore → S → ActorSnapshot → S × Option StoreError
  save_one store w input = elim (ready store) [
    | none ↦ (w, some uninitialized)
    | some s ↦ elim (snapshot_from_message input) [
      | failed e ↦ (w, some e)
      | returned doc ↦
          let (w', reply) = client.update_one w s.collection (update_of doc) in
          (w', updated_one doc.actor_id reply)
    ]
  ]

  unfoldable pub write_models : Str → S → List ActorSnapshot → S × Saved
  write_models collection w inputs =
      let (w', reply) = client.bulk_write w collection (models inputs) in
      (w', bulk_saved inputs reply)

  -- saveBatch
  unfoldable pub save_batch : Option MongoStore → S → List ActorSnapshot → S × Saved
  save_batch store w [] = elim (ready store) [
    | none ↦ (w, record { success = []; err = some uninitialized })
    | some s ↦ (w, record { success = []; err = none })
  ]
  save_batch store w (input ∷ rest) = elim (ready store) [
    | none ↦ (w, record { success = []; err = some uninitialized })
    | some s ↦ elim (validate_batch (input ∷ rest)) [
      | some e ↦ (w, record { success = []; err = some e })
      | none ↦ write_models s.collection w (input ∷ rest)
    ]
  ]

  unfoldable pub saved_one : Str → S × Option StoreError → S × Saved
  saved_one id (w, none) = (w, record { success = id ∷ []; err = none })
  saved_one id (w, some e) = (w, record { success = []; err = some e })

  -- Save
  unfoldable pub save : Option MongoStore → S → List ActorSnapshot → S × Saved
  save store w [] = (w, record { success = []; err = none })
  save store w (input ∷ []) = saved_one input.actor_id (save_one store w input)
  save store w (first ∷ second ∷ rest) = save_batch store w (first ∷ second ∷ rest)
