-- ===== src/Storage/Mongo.antt =====
-- storage/mongo.go: the store over MongoDB. What the driver answers is the parameter `Client`, over the
-- state of the world and the name of the collection; filters and update documents are values.
pub mod Save
pub mod Behaviour
pub mod Meaning
pub mod Meets
pub mod Refine
pub mod Bulk
pub mod Promise
pub mod Loading
pub mod Sample
use goactor.Prelude.{
  Bool, true, false, not, ◌&&◌, ◌||◌, List, [], ◌∷◌, Option, none, some, if◌then◌else◌, ℤ, pos, Str,
  bytes, is_blank,
}
use goactor.Message.{ActorSnapshot}
use goactor.Storage.{
  Snapshot, StoreError, Result, returned, failed, not_found, uninitialized, invalid, driver_error,
  loading, message, validate_actor_id,
}

abbrev pub default_collection : Str
default_collection = bytes "actor"

-- `$lte` and the other comparisons.
pub data Operator : Type 0 where
  lte lt eq gt gte : Operator

-- A condition on the version: `{version: {$lte: bound}}` or `{version: {$exists: false}}`.
pub data Condition : Type 0 where
  compares : Operator → ℤ → Condition
  exists : Bool → Condition

-- A field of `$set`.
pub data Setting : Type 0 where
  set_actor_type : Str → Setting
  set_version : ℤ → Setting
  set_offset : ℤ → Setting
  set_state : Str → Setting
  set_dedup : List Str → Setting

-- A filter `{_id: id, $or: any_of}`, the document of `$set`, and SetUpsert.
pub record Update : Type 0 where
  pub id : Str
  pub any_of : List Condition
  pub set : List Setting
  pub upsert : Bool

-- FindOneAndUpdate: a filter `{_id: id}`, `{$inc: {version: by}}`, and whether it returns the document as
-- it is after that.
pub record Increment : Type 0 where
  pub id : Str
  pub by : ℤ
  pub after : Bool

-- What UpdateOne gives: the counts, a duplicate key, or another error.
pub data Updated : Type 0 where
  counts : ℤ → ℤ → Updated
  duplicate_key : Str → Updated
  update_error : Str → Updated

pub record WriteError : Type 0 where
  pub index : ℤ
  pub is_duplicate : Bool
  pub text : Str

-- An error of BulkWrite: a BulkWriteException, or another one.
pub data BulkError : Type 0 where
  bulk_exception : List WriteError → Option Str → BulkError
  other_error : Str → BulkError

-- What FindOneAndUpdate and Decode give.
pub data Found : Type 0 where
  document : Snapshot → Found
  no_documents : Found
  find_error : Str → Found

pub record Client (S : Type 0) : Type 0 where
  pub connect : S → Str → S × Option Str
  pub ping : S → S × Option Str
  pub disconnect : S → S × Option Str
  pub update_one : S → Str → Update → S × Updated
  pub bulk_write : S → Str → List Update → S × Option BulkError
  pub find_one_and_update : S → Str → Increment → S × Found

-- The flags say that the pointers are not nil.
pub record MongoStore : Type 0 where
  pub has_client : Bool
  pub has_coll : Bool
  pub database : Str
  pub collection : Str
  pub owned : Bool

-- NewMongoWithClient
unfoldable pub new_mongo_with_client : Bool → Str → Str → Result MongoStore
new_mongo_with_client has_client database collection =
    if not has_client || is_blank database
    then failed (invalid (bytes "invalid mongo client or database"))
    else returned (record {
      has_client = true;
      has_coll = true;
      database = database;
      collection = if is_blank collection then default_collection else collection;
      owned = false;
    })

-- ready, with the store that the receiver points to
unfoldable pub ready : Option MongoStore → Option MongoStore
ready none = none
ready (some s) = if not s.has_client || not s.has_coll then none else some s

unfoldable pub or_else : Option Str → Option StoreError
or_else none = none
or_else (some e) = some (driver_error e)

module _ {S : Type 0} (client : Client S) where
  unfoldable pub with_client : Str → Str → S × Option Str → S × Result MongoStore
  with_client database collection (w, some e) = ((client.disconnect w).0, failed (driver_error e))
  with_client database collection (w, none) =
      elim (new_mongo_with_client true database collection) [
        | failed e ↦ ((client.disconnect w).0, failed e)
        | returned s ↦ (w, returned (record s { owned = true }))
      ]

  unfoldable pub ping_client : Str → Str → S × Option Str → S × Result MongoStore
  ping_client database collection (w, some e) = (w, failed (driver_error e))
  ping_client database collection (w, none) = with_client database collection (client.ping w)

  -- NewMongo
  unfoldable pub new_mongo : S → Str → Str → Str → S × Result MongoStore
  new_mongo w uri database collection =
      if is_blank uri
      then (w, failed (invalid (bytes "empty uri")))
      else ping_client database collection (client.connect w uri)

  -- Close
  unfoldable pub close : Option MongoStore → S → S × Option StoreError
  close store w = elim (ready store) [
    | none ↦ (w, some uninitialized)
    | some s ↦
        if not s.owned then (w, none) else let (w', e) = client.disconnect w in (w', or_else e)
  ]

  unfoldable pub loaded : Str → S × Found → S × Result ActorSnapshot
  loaded id (w, document doc) = (w, returned (message doc))
  loaded id (w, no_documents) = (w, failed (loading id not_found))
  loaded id (w, find_error e) = (w, failed (loading id (driver_error e)))

  -- Load
  unfoldable pub load : Option MongoStore → S → Str → S × Result ActorSnapshot
  load store w id = elim (ready store) [
    | none ↦ (w, failed uninitialized)
    | some s ↦ elim (validate_actor_id id) [
      | some e ↦ (w, failed e)
      | none ↦
          loaded id (
            client.find_one_and_update w s.collection
              (record { id = id; by = pos 1; after = true }))
    ]
  ]
