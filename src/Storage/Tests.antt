-- ===== src/Storage/Tests.antt =====
-- storage/: a database in memory, and two owners of an actor.
use goactor.Prelude.{
  ite, ◌≡◌, refl, ◌↔◌, ◌⊎◌, true, false, List, [], ◌∷◌, Option, none, some, ℤ, pos, ◌+ℤ◌, wrap64,
  Str, Str_discrete, bytes, arith, is_blank, valid_string, ℤ_discrete,
}
use mathlib.Core.List.{Perm}
use goactor.Prelude.Assoc.{contains}
use goactor.Message.{ActorSnapshot}
use goactor.Storage.{
  returned, failed, loading, driver_error, snapshot_from_message, validate_batch, message,
  stale_actors, refused_id, is_stale, validate_actor_id,
}
use goactor.Storage.Table.{accepted, chosen, rejected}
use goactor.Storage.Contract.{Promise, only_stale, settled}
use goactor.Storage.Fencing.{here}
use goactor.Storage.Agree.{save-agree}
use goactor.Storage.Postgres.{
  Codec, PostgresStore, insert_rows, increment, encode_postgres_snapshot, decode_postgres_state,
  and_then, arguments, ready, encoded, decode_column, is_json_null,
}
use goactor.Storage.Postgres.Save.{
  save, save_one_postgres, insert_one, scanned_one, saved_one, save_batch_postgres, batch_rows,
  add_row, placeholders, insert_batch, read_ids, all_saved, scan_ids, missing_ids,
}
use goactor.Storage.Postgres.Load.{load, loaded}
use goactor.Storage.Postgres.Behaviour.{
  Documented, resolve, resolve_all, cell, value_of, same_column, row_named, after_insert, passes,
  assign, assign_all, is_written, returned_ids, bumped_by, number_at, compare_numbers,
}
use goactor.Storage.Fenced.{postgres-Fenced, mongo-Fenced}
use goactor.Storage.Postgres.Meaning.{held}
use goactor.Storage.Postgres.Sample.{Table, memory}
use goactor.Storage.Postgres.SampleLaws.{memory-Documented}
use goactor.Storage.Postgres.Promise.{save-Promise}
use goactor.Storage.Postgres.RoundTrip.{Decodes, load-save}
use goactor.Storage.Mongo
use goactor.Storage.Mongo.{MongoStore}
use goactor.Storage.Mongo.Meaning as MongoMeaning
use goactor.Storage.Mongo.Behaviour as MongoBehaviour
use goactor.Storage.Mongo.Meaning.{stale_positions}
use goactor.Storage.Mongo.Promise as MongoPromise
use goactor.Storage.Mongo.Sample as MongoSample
use goactor.Storage.Mongo.Save
use goactor.Storage.Mongo.Save.{
  update_of, updated_one, snapshot_or_empty, models, others_from, indices, successful_actor_ids,
  id_at, classify, with_concern, with_stale, join, classify_bulk_error, actor_ids, bulk_saved,
  write_models, save_batch,
}

program : Unit {0}
unfolding snapshot_from_message validate_batch message refused_id is_stale accepted chosen rejected
    only_stale encode_postgres_snapshot decode_postgres_state and_then arguments ready encoded
    decode_column is_json_null save save_one_postgres insert_one scanned_one saved_one
    save_batch_postgres batch_rows add_row placeholders insert_batch read_ids all_saved scan_ids
    missing_ids load loaded resolve resolve_all cell value_of same_column row_named after_insert
    passes assign assign_all is_written returned_ids bumped_by number_at compare_numbers insert_rows
    increment Str_discrete contains is_blank valid_string validate_actor_id ◌+ℤ◌ wrap64
program = tt

-- A codec of one state and of no ids.
abbrev codec : Codec
codec = record {
  encode_state = λ state. ite (Str_discrete state (bytes "apple")) (some (bytes "1")) none;
  decode_state = λ s. some (bytes "apple");
  encode_dedup = λ ids. elim ids [ [] ↦ some (bytes "2") | id ∷ rest ↦ none ];
  decode_dedup = λ s. some [];
}

abbrev store : PostgresStore
store = record { connected = true; table = bytes "actor"; owned = false }

abbrev cart : ℤ → ActorSnapshot
cart v = record {
  actor_id = bytes "c1";
  actor_type = bytes "cart";
  version = v;
  offset = pos 9;
  state = bytes "apple";
  dedup = [];
}

abbrev wish : ActorSnapshot
wish = record (cart (pos 2)) { actor_id = bytes "w1" }

abbrev empty : Table
empty id = none

abbrev saved_once : Table
saved_once = (save memory codec (some store) empty (cart (pos 4) ∷ [])).0

-- A stale snapshot and one that is not.
mixed :
    (save memory codec (some store) saved_once (cart (pos 3) ∷ wish ∷ [])).1
    ≡ record { success = bytes "w1" ∷ []; err = some (stale_actors (bytes "c1" ∷ [])) }
unfolding program
mixed = refl

digits_not_null : (is_json_null (bytes "1") ≡ false) × (is_json_null (bytes "2") ≡ false)
unfolding program
digits_not_null = (refl, refl)

null_nothing :
    {A : Type 0} {a zero_value : A} (s digit : Str)
    → s ≡ digit
    → is_json_null digit ≡ false
    → is_json_null s ≡ true
    → a ≡ zero_value
null_nothing s digit is not_null null = absurd (ground arith)

states-Decodes : Decodes codec.encode_state codec.decode_state (λ s. s) [] (bytes "apple")
states-Decodes = record {
  back = λ s h. refl;
  filled = λ s h. ground arith;
  null_is = λ s h. null_nothing s (bytes "1") (ground arith) (digits_not_null.0);
}

dedup_back :
    (a : List Str) (s : Str)
    → codec.encode_dedup a ≡ some s
    → (◌≡◌ {A = Option (List Str)} (some []) (some a)) × (s ≡ bytes "2")
dedup_back [] s h = (refl, ground arith)
dedup_back (x ∷ a) s h = absurd (ground arith)

dedups-Decodes : Decodes codec.encode_dedup codec.decode_dedup (λ s. s) [] []
dedups-Decodes = record {
  back = λ s h. refl;
  filled = λ s h e. let is = (dedup_back [] s h).1 in ground arith;
  null_is = λ s h. null_nothing s (bytes "2") ((dedup_back [] s h).1) (digits_not_null.1);
}

abbrev laws : Documented memory store.table
laws = memory-Documented store.table

save-Promise_example :
    Promise
      (held laws.view laws.normal saved_once)
      (held laws.view laws.normal
        (save memory codec (some store) saved_once (cart (pos 3) ∷ wish ∷ [])).0)
      (cart (pos 3) ∷ wish ∷ [])
      (save memory codec (some store) saved_once (cart (pos 3) ∷ wish ∷ [])).1
save-Promise_example =
    save-Promise memory codec store (memory-Documented store.table) saved_once
      (cart (pos 3) ∷ wish ∷ [])

load-save_example :
    ((load memory codec (some store) saved_once (bytes "c1")).1 ≡ returned (cart (pos 5)))
    ⊎ ((e : Str) × ((load memory codec (some store) saved_once (bytes "c1")).1
          ≡ failed (loading (bytes "c1") (driver_error e))))
unfolding program memory-Documented
load-save_example =
    load-save memory codec store (memory-Documented store.table) empty (cart (pos 4)) states-Decodes
      dedups-Decodes refl

-- The second owner of the cart loads it; the first one still has its old version.
abbrev taken : Table
taken = (load memory codec (some store) saved_once (bytes "c1")).0

postgres-Fenced_example :
    (held laws.view laws.normal
        (save memory codec (some store) taken (cart (pos 4) ∷ [])).0
        (bytes "c1")
      ≡ held laws.view laws.normal taken (bytes "c1"))
    × (settled (save memory codec (some store) taken (cart (pos 4) ∷ [])).1.err ≡ true
        → contains Str_discrete
            (save memory codec (some store) taken (cart (pos 4) ∷ [])).1.success
            (bytes "c1")
          ≡ false)
unfolding program
postgres-Fenced_example =
    postgres-Fenced memory codec store laws saved_once (bytes "c1") (cart (pos 5))
      (cart (pos 4) ∷ []) refl here ((λ e. omega arith), tt)

mongo_program : Unit {0}
unfolding program update_of MongoBehaviour.is_written MongoBehaviour.is_duplicate_key
    MongoBehaviour.any_holds MongoBehaviour.holds MongoBehaviour.compare_by
    MongoBehaviour.set_fields MongoBehaviour.set_field MongoBehaviour.after_update
    MongoBehaviour.update_named MongoBehaviour.failing_positions MongoBehaviour.after_increment
    Mongo.loaded Mongo.load updated_one snapshot_or_empty models others_from indices
    successful_actor_ids id_at classify with_concern with_stale join classify_bulk_error actor_ids
    bulk_saved write_models save_batch Save.save Mongo.ready ℤ_discrete
mongo_program = tt

abbrev mongo : MongoStore
mongo = record {
  has_client = true;
  has_coll = true;
  database = bytes "db";
  collection = bytes "actor";
  owned = false;
}

abbrev no_documents : MongoSample.Collection
no_documents id = none

abbrev first_documents : MongoSample.Collection
first_documents =
    (Save.save MongoSample.memory (some mongo) no_documents (cart (pos 4) ∷ wish ∷ [])).0

mongo_mixed :
    (Save.save MongoSample.memory (some mongo) first_documents (cart (pos 3) ∷ wish ∷ [])).1.success
    ≡ bytes "w1" ∷ []
unfolding mongo_program
mongo_mixed = refl

abbrev mongo_laws : MongoBehaviour.Documented MongoSample.memory mongo.collection
mongo_laws = MongoSample.memory-Documented mongo.collection

abbrev taken_document : MongoSample.Collection
taken_document = (Mongo.load MongoSample.memory (some mongo) first_documents (bytes "c1")).0

mongo-Fenced_example :
    (MongoMeaning.held mongo_laws.view
        (Save.save MongoSample.memory (some mongo) taken_document (cart (pos 4) ∷ [])).0
        (bytes "c1")
      ≡ MongoMeaning.held mongo_laws.view taken_document (bytes "c1"))
    × (settled (Save.save MongoSample.memory (some mongo) taken_document (cart (pos 4) ∷ [])).1.err
          ≡ true
        → contains Str_discrete
            (Save.save MongoSample.memory (some mongo) taken_document (cart (pos 4) ∷ [])).1.success
            (bytes "c1")
          ≡ false)
unfolding mongo_program
mongo-Fenced_example =
    mongo-Fenced MongoSample.memory mongo mongo_laws first_documents (bytes "c1") (cart (pos 5))
      (cart (pos 4) ∷ []) refl here ((λ e. omega arith), tt)

save_mongo-Promise_example :
    Promise
      (MongoMeaning.held (MongoSample.memory-Documented mongo.collection).view first_documents)
      (MongoMeaning.held
        (MongoSample.memory-Documented mongo.collection).view
        (Save.save MongoSample.memory (some mongo) first_documents (cart (pos 3) ∷ wish ∷ [])).0)
      (cart (pos 3) ∷ wish ∷ [])
      (Save.save MongoSample.memory (some mongo) first_documents (cart (pos 3) ∷ wish ∷ [])).1
save_mongo-Promise_example =
    MongoPromise.save_mongo-Promise MongoSample.memory mongo
      (MongoSample.memory-Documented mongo.collection) first_documents (cart (pos 3) ∷ wish ∷ [])

save-agree_example :
    Perm
      (save memory codec (some store) empty (cart (pos 4) ∷ wish ∷ [])).1.success
      (Save.save MongoSample.memory (some mongo) no_documents (cart (pos 4) ∷ wish ∷ [])).1.success
    × (((save memory codec (some store) empty (cart (pos 4) ∷ wish ∷ [])).1.err ≡ none) ↔ (
        (Save.save MongoSample.memory (some mongo) no_documents (cart (pos 4) ∷ wish ∷ [])).1.err
        ≡ none))
    × ((id : Str)
        → held laws.view laws.normal
            (save memory codec (some store) empty (cart (pos 4) ∷ wish ∷ [])).0
            id
          ≡ MongoMeaning.held
              (MongoSample.memory-Documented mongo.collection).view
              (Save.save MongoSample.memory (some mongo) no_documents (cart (pos 4) ∷ wish ∷ [])).0
              id)
unfolding mongo_program memory-Documented MongoSample.memory-Documented
save-agree_example =
    save-agree memory codec store (memory-Documented store.table) MongoSample.memory mongo
      (MongoSample.memory-Documented mongo.collection) empty no_documents (cart (pos 4) ∷ wish ∷ [])
      (λ id. refl) refl refl
