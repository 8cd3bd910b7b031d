-- ===== src/Storage/Postgres/Load.antt =====
-- storage/postgres.go: Load.
use goactor.Prelude.{[], ◌∷◌, Option, none, some, Str}
use goactor.Message.{ActorSnapshot}
use goactor.Storage.{
  Result, returned, failed, not_found, uninitialized, driver_error, loading, message,
  validate_actor_id,
}
use goactor.Storage.Postgres.{
  Database, text, Codec, PostgresStore, Row, row, no_rows, row_error, Columns, update, increment,
  ready, decode_postgres_state,
}

module _ {S : Type 0} (db : Database S) where
  -- Load from the answer on.
  unfoldable pub loaded : Codec → Str → S × Row Columns → S × Result ActorSnapshot
  loaded codec id (w, no_rows) = (w, failed (loading id not_found))
  loaded codec id (w, row_error e) = (w, failed (loading id (driver_error e)))
  loaded codec id (w, row c) = (
    w,
    elim (decode_postgres_state codec c) [
      | failed e ↦ failed (loading id e)
      | returned doc ↦ returned (message doc)
    ],
  )

  -- Load
  unfoldable pub load : Codec → Option PostgresStore → S → Str → S × Result ActorSnapshot
  load codec store w id = elim (ready store) [
    | none ↦ (w, failed uninitialized)
    | some s ↦ elim (validate_actor_id id) [
      | some e ↦ (w, failed e)
      | none ↦ loaded codec id (db.query_columns w (update (increment s.table)) (text id ∷ []))
    ]
  ]
