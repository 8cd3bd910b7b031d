-- ===== src/Storage/Postgres/Save.antt =====
-- storage/postgres.go: Save, of one snapshot and of several.
use goactor.Prelude.{
  ℕ, ◌+◌, ◌*◌, Bool, true, false, List, [], ◌∷◌, ◌++◌, Option, none, some, if◌then◌else◌, ◌==◌, Str,
  Str_discrete, bytes,
}
use goactor.Prelude.Assoc.{contains, length}
use goactor.Message.{ActorSnapshot}
use goactor.Storage.{
  Snapshot, StoreError, Result, Saved, returned, failed, stale, uninitialized, driver_error, saving,
  batch_item, stale_actors, validate_batch,
}
use goactor.Storage.Postgres.{
  Database, Value, Codec, PostgresStore, Row, row, no_rows, row_error, Rows, refused, opened,
  insert, insert_rows, ready, and_then, encode_postgres_snapshot, arguments,
}

module _ {S : Type 0} (db : Database S) where
  -- The end of saveOnePostgres.
  unfoldable pub scanned_one : Str → S × Row Str → S × Option StoreError
  scanned_one id (w, row _) = (w, none)
  scanned_one id (w, no_rows) = (w, some (saving id stale))
  scanned_one id (w, row_error e) = (w, some (saving id (driver_error e)))

  unfoldable pub insert_one : PostgresStore → S → Snapshot × Str × Str → S × Option StoreError
  unfolding scanned_one
  insert_one s w (doc, state, dedup) = scanned_one doc.actor_id (
      db.query_id w (insert (insert_rows s.table ((1 ∷ 2 ∷ 3 ∷ 4 ∷ 5 ∷ 6 ∷ []) ∷ [])))
        (arguments (doc, state, dedup)))

  -- saveOnePostgres
  unfoldable pub save_one_postgres :
      Codec → Option PostgresStore → S → ActorSnapshot → S × Option StoreError
  unfolding insert_one
  save_one_postgres codec store w input = elim (ready store) [
    | none ↦ (w, some uninitialized)
    | some s ↦ elim (encode_postgres_snapshot codec input) [
      | failed e ↦ (w, some e)
      | returned encoding ↦ insert_one s w encoding
    ]
  ]

-- The placeholders of a row.
unfoldable pub placeholders : ℕ → List ℕ
placeholders base = base ∷ (base + 1) ∷ (base + 2) ∷ (base + 3) ∷ (base + 4) ∷ (base + 5) ∷ []

unfoldable pub add_row :
    ℕ → Snapshot × Str × Str → List (List ℕ) × List Value → List (List ℕ) × List Value
add_row index encoding (values, args) =
    (placeholders (index * 6 + 1) ∷ values, arguments encoding ++ args)

-- The loop of saveBatchPostgres over the inputs, from one at an index.
unfoldable pub batch_rows : Codec → ℕ → List ActorSnapshot → Result (List (List ℕ) × List Value)
batch_rows codec index [] = returned ([], [])
batch_rows codec index (input ∷ rest) =
    let others = batch_rows codec (index + 1) rest in
    elim (encode_postgres_snapshot codec input) [
      | failed e ↦ failed (batch_item index e)
      | returned encoding ↦ and_then others (λ rows. returned (add_row index encoding rows))
    ]

-- The ids up to the first one that cannot be scanned, and whether there is such a one.
unfoldable pub scan_ids : List (Option Str) → List Str × Bool
scan_ids [] = ([], false)
scan_ids (none ∷ rest) = ([], true)
scan_ids (some id ∷ rest) = let (success, broken) = scan_ids rest in (id ∷ success, broken)

-- The ids of the inputs that were not saved.
unfoldable pub missing_ids : List Str → List ActorSnapshot → List Str
missing_ids success [] = []
missing_ids success (input ∷ rest) =
    let others = missing_ids success rest in
    if contains Str_discrete success input.actor_id then others else input.actor_id ∷ others

unfoldable pub all_saved : List ActorSnapshot → List Str → Saved
all_saved inputs success =
    if length success == length inputs
    then record { success = success; err = none }
    else record { success = success; err = some (stale_actors (missing_ids success inputs)) }

-- saveBatchPostgres from the rows on.
unfoldable pub read_ids : List ActorSnapshot → Rows → Saved
read_ids inputs (refused e) = record { success = []; err = some (driver_error e) }
read_ids inputs (opened ids err) =
    let (success, broken) = scan_ids ids in
    if broken
    then record { success = success; err = some (driver_error (bytes "scan saved actor id")) }
    else elim err [
      | some e ↦ record { success = success; err = some (driver_error e) }
      | none ↦ all_saved inputs success
    ]

module _ {S : Type 0} (db : Database S) where
  unfoldable pub insert_batch :
      PostgresStore → S → List ActorSnapshot → List (List ℕ) × List Value → S × Saved
  insert_batch s w inputs (values, args) =
      let (w', rows) = db.query_ids w (insert (insert_rows s.table values)) args in
      (w', read_ids inputs rows)

  -- saveBatchPostgres
  unfoldable pub save_batch_postgres :
      Codec → Option PostgresStore → S → List ActorSnapshot → S × Saved
  save_batch_postgres codec store w inputs = elim (ready store) [
    | none ↦ (w, record { success = []; err = some uninitialized })
    | some s ↦ elim (validate_batch inputs) [
      | some e ↦ (w, record { success = []; err = some e })
      | none ↦ elim (batch_rows codec 0 inputs) [
        | failed e ↦ (w, record { success = []; err = some e })
        | returned rows ↦ insert_batch s w inputs rows
      ]
    ]
  ]

  unfoldable pub saved_one : Str → S × Option StoreError → S × Saved
  saved_one id (w, none) = (w, record { success = id ∷ []; err = none })
  saved_one id (w, some e) = (w, record { success = []; err = some e })

  -- Save
  unfoldable pub save : Codec → Option PostgresStore → S → List ActorSnapshot → S × Saved
  save codec store w [] = (w, record { success = []; err = none })
  save codec store w (input ∷ []) =
      saved_one input.actor_id (save_one_postgres db codec store w input)
  save codec store w (first ∷ second ∷ rest) =
      save_batch_postgres codec store w (first ∷ second ∷ rest)
