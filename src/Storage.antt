-- ===== src/Storage.antt =====
-- storage/storage.go: snapshots as they are stored, their checks, and the errors of a store.
pub mod Table
pub mod Checks
pub mod Contract
pub mod Fencing
pub mod Agree
pub mod Fenced
mod Tests
pub mod Postgres
pub mod Mongo
use goactor.Prelude.{
  ℕ, ◌+◌, Bool, true, false, not, ◌||◌, List, [], ◌∷◌, Option, none, some, if◌then◌else◌, ℤ, pos,
  lt_ℤ, Str, Str_discrete, bytes, is_blank, valid_string,
}
use goactor.Prelude.Assoc.{contains}
use goactor.Message.{ActorSnapshot}

pub record Snapshot : Type 0 where
  pub actor_id : Str
  pub actor_type : Str
  pub version : ℤ
  pub offset : ℤ
  pub state : Str
  pub dedup : List Str

-- What classifyBulkError joins: a failed write of an actor, a failed write concern, stale actors.
pub data BulkCause : Type 0 where
  write_failed : Str → Str → BulkCause
  concern_failed : Str → BulkCause
  stale_among : List Str → BulkCause

-- The errors, with what wraps them. `driver_error` and `codec_error` come from the client of the
-- database and from the JSON codec.
pub data StoreError : Type 0 where
  not_found stale uninitialized : StoreError
  invalid driver_error codec_error : Str → StoreError
  saving loading : Str → StoreError → StoreError
  batch_item : ℕ → StoreError → StoreError
  stale_actors : List Str → StoreError
  joined : List BulkCause → StoreError

-- `errors.Is(err, ErrStale)`
unfoldable pub joins_stale : List BulkCause → Bool
joins_stale [] = false
joins_stale (write_failed id text ∷ rest) = joins_stale rest
joins_stale (concern_failed text ∷ rest) = joins_stale rest
joins_stale (stale_among ids ∷ rest) = true

unfoldable pub is_stale : StoreError → Bool
unfolding joins_stale
is_stale not_found = false
is_stale stale = true
is_stale uninitialized = false
is_stale (invalid why) = false
is_stale (driver_error text) = false
is_stale (codec_error text) = false
is_stale (saving id e) = is_stale e
is_stale (loading id e) = is_stale e
is_stale (batch_item i e) = is_stale e
is_stale (stale_actors ids) = true
is_stale (joined causes) = joins_stale causes

pub data Result (A : Type 0) : Type 0 where
  returned : A → Result A
  failed : StoreError → Result A

-- What Save returns: the ids that are stored, and an error if there is one.
pub record Saved : Type 0 where
  pub success : List Str
  pub err : Option StoreError

unfoldable pub refused_id : Str → Bool
refused_id id = is_blank id || not (valid_string id)

-- snapshotFromMessage
unfoldable pub snapshot_from_message : ActorSnapshot → Result Snapshot
unfolding refused_id
snapshot_from_message x =
    if refused_id x.actor_id
    then failed (invalid (bytes "invalid actor id"))
    else if lt_ℤ x.version (pos 0) || lt_ℤ x.offset (pos 0)
    then failed (invalid (bytes "negative version or offset"))
    else returned (record {
      actor_id = x.actor_id;
      actor_type = x.actor_type;
      version = x.version;
      offset = x.offset;
      state = x.state;
      dedup = x.dedup;
    })

-- message
unfoldable pub message : Snapshot → ActorSnapshot
message s = record {
  actor_id = s.actor_id;
  actor_type = s.actor_type;
  version = s.version;
  offset = s.offset;
  state = s.state;
  dedup = s.dedup;
}

-- The loop of validateBatch, from the item at an index; `seen` are the ids before it.
unfoldable pub validate_from : ℕ → List Str → List ActorSnapshot → Option StoreError
validate_from i seen [] = none
validate_from i seen (item ∷ rest) =
    let others = validate_from (i + 1) (item.actor_id ∷ seen) rest in
    elim (snapshot_from_message item) [
      | failed e ↦ some (batch_item i e)
      | returned s ↦
          if contains Str_discrete seen item.actor_id
          then some (invalid (bytes "duplicate actor id"))
          else others
    ]

-- validateBatch
unfoldable pub validate_batch : List ActorSnapshot → Option StoreError
unfolding validate_from
validate_batch snapshots = validate_from 0 [] snapshots

-- validateActorID
unfoldable pub validate_actor_id : Str → Option StoreError
validate_actor_id id = if refused_id id then some (invalid (bytes "invalid actor id")) else none
