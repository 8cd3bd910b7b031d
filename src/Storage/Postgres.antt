-- ===== src/Storage/Postgres.antt =====
-- storage/postgres.go: the store over PostgreSQL, whose statements are values. What database/sql
-- answers is the parameter `Database`, over the state of the world; JSON is the parameter `Codec`.
mod Sql
unfoldable pub use Sql.*
pub mod Name
pub mod Quoted
pub mod Scanner
mod Tests
pub mod Save
pub mod Load
pub mod Behaviour
pub mod Meaning
pub mod Meets
pub mod Encoding
pub mod Refine
pub mod Promise
pub mod Increment
pub mod Sample
pub mod SampleLaws
pub mod RoundTrip
use goactor.Prelude.{
  ℕ, zero, suc, ◌+◌, ◌*◌, Bool, true, false, not, ◌&&◌, List, [], ◌∷◌, ◌++◌, map, Option, none,
  some, if◌then◌else◌, ◌==◌, ite, ℕ_discrete, ℤ, pos, Str, Str_discrete, bytes, is_blank, trimmed,
  runes,
}
use goactor.Prelude.Assoc.{contains, length}
use goactor.Message.{ActorSnapshot}
use goactor.Storage.{
  Snapshot, StoreError, Result, Saved, returned, failed, not_found, stale, uninitialized, invalid,
  driver_error, codec_error, saving, loading, batch_item, stale_actors, snapshot_from_message,
  message, validate_batch, validate_actor_id,
}
use goactor.Storage.Postgres.Name.{Unicode, quote_qualified_identifier}

abbrev pub default_postgres_table : Str
default_postgres_table = bytes "actor"

-- The arguments of a statement.
pub data Value : Type 0 where
  text : Str → Value
  bigint : ℤ → Value
  json : Str → Value

-- What QueryRowContext and Scan give, with NULL in a column of JSON as no bytes.
pub data Row (A : Type 0) : Type 0 where
  row : A → Row A
  no_rows : Row A
  row_error : Str → Row A

pub record Columns : Type 0 where
  pub actor_id : Str
  pub actor_type : Str
  pub version : ℤ
  pub offset : ℤ
  pub state : Str
  pub dedup : Str

-- What QueryContext gives: an error, or rows of one column, each with what Scan reads, and Err.
pub data Rows : Type 0 where
  refused : Str → Rows
  opened : List (Option Str) → Option Str → Rows

pub record Database (S : Type 0) : Type 0 where
  pub exec : S → Statement → S × Option Str
  pub query_id : S → Statement → List Value → S × Row Str
  pub query_ids : S → Statement → List Value → S × Rows
  pub query_columns : S → Statement → List Value → S × Row Columns
  pub open_pool : S → Str → S × Option Str
  pub ping : S → S × Option Str
  pub close : S → S × Option Str

pub record Codec : Type 0 where
  pub encode_state : Str → Option Str
  pub decode_state : Str → Option Str
  pub encode_dedup : List Str → Option Str
  pub decode_dedup : Str → Option (List Str)

-- `connected` says that `db` is not nil.
pub record PostgresStore : Type 0 where
  pub connected : Bool
  pub table : Str
  pub owned : Bool

-- NewPostgresWithDB
unfoldable pub new_postgres_with_db : Unicode → Bool → Str → Result PostgresStore
new_postgres_with_db unicode connected table =
    if not connected
    then failed (invalid (bytes "postgres db is nil"))
    else elim (quote_qualified_identifier unicode
        (if is_blank table then default_postgres_table else table)) [
          | failed e ↦ failed e
          | returned quoted ↦ returned (record { connected = true; table = quoted; owned = false })
        ]

-- ready, with the store that the receiver points to
unfoldable pub ready : Option PostgresStore → Option PostgresStore
ready none = none
ready (some s) = elim s.table [ [] ↦ none | b ∷ name ↦ if s.connected then some s else none ]

unfoldable pub or_else : Option Str → Option StoreError
or_else none = none
or_else (some e) = some (driver_error e)

-- isJSONNull
unfoldable pub is_json_null : Str → Bool
is_json_null value = ite (Str_discrete (trimmed value) (bytes "null")) true false

unfoldable pub encoded : Str → Option Str → Result Str
encoded what none = failed (codec_error what)
encoded what (some value) = returned value

unfoldable pub and_then : {A B : Type 0} → Result A → (A → Result B) → Result B
and_then (returned a) f = f a
and_then (failed e) f = failed e

-- encodePostgresSnapshot; the arguments of a row are what it returns, in order
unfoldable pub encode_postgres_snapshot : Codec → ActorSnapshot → Result (Snapshot × Str × Str)
encode_postgres_snapshot codec x = and_then (snapshot_from_message x) (λ doc.
    and_then (encoded (bytes "encode state") (codec.encode_state doc.state)) (λ state.
      and_then (encoded (bytes "encode dedup") (codec.encode_dedup doc.dedup))
        (λ dedup. returned (doc, state, dedup))))

unfoldable pub arguments : Snapshot × Str × Str → List Value
arguments (doc, state, dedup) =
    text doc.actor_id
    ∷ text doc.actor_type
    ∷ bigint doc.version
    ∷ bigint doc.offset
    ∷ json state
    ∷ json dedup
    ∷ []

-- What follows a decoded column; no bytes, and a null, leave the field as it is.
unfoldable pub decode_column : {A : Type 0} → Str → Option A → A → Str → Result A
unfolding is_json_null
decode_column [] decoded zero_value what = returned zero_value
decode_column (b ∷ value) decoded zero_value what =
    if is_json_null (b ∷ value)
    then returned zero_value
    else elim decoded [ none ↦ failed (codec_error what) | some x ↦ returned x ]

-- decodePostgresState, on a fresh Snapshot with the other columns
unfoldable pub decode_postgres_state : Codec → Columns → Result Snapshot
unfolding decode_column
decode_postgres_state codec c =
    and_then (decode_column c.state (codec.decode_state c.state) [] (bytes "decode state"))
      (λ state.
        and_then (decode_column c.dedup (codec.decode_dedup c.dedup) [] (bytes "decode dedup"))
          (λ dedup. returned (record {
            actor_id = c.actor_id;
            actor_type = c.actor_type;
            version = c.version;
            offset = c.offset;
            state = state;
            dedup = dedup;
          })))

module _ {S : Type 0} (db : Database S) where
  -- EnsureSchema
  unfoldable pub ensure_schema : Option PostgresStore → S → S × Option StoreError
  ensure_schema store w = elim (ready store) [
    | none ↦ (w, some uninitialized)
    | some s ↦ let (w', e) = db.exec w (create_table s.table schema) in (w', or_else e)
  ]

  -- Close
  unfoldable pub close : Option PostgresStore → S → S × Option StoreError
  close store w = elim (ready store) [
    | none ↦ (w, some uninitialized)
    | some s ↦ if not s.owned then (w, none) else let (w', e) = db.close w in (w', or_else e)
  ]

  -- What NewPostgres does with the pool that it could open.
  unfoldable pub with_pool : Unicode → Str → S × Option Str → S × Result PostgresStore
  with_pool unicode table (w, some e) = ((db.close w).0, failed (driver_error e))
  with_pool unicode table (w, none) = elim (new_postgres_with_db unicode true table) [
    | failed e ↦ ((db.close w).0, failed e)
    | returned s ↦ (w, returned (record s { owned = true }))
  ]

  unfoldable pub connect : Unicode → Str → S × Option Str → S × Result PostgresStore
  connect unicode table (w, some e) = (w, failed (driver_error e))
  connect unicode table (w, none) = with_pool unicode table (db.ping w)

  -- NewPostgres
  unfoldable pub new_postgres : Unicode → S → Str → Str → S × Result PostgresStore
  new_postgres unicode w dsn table =
      if is_blank dsn
      then (w, failed (invalid (bytes "empty postgres dsn")))
      else connect unicode table (db.open_pool w dsn)
