-- ===== src/Storage/Postgres/Meaning.antt =====
-- What the statements of storage/postgres.go do to the rows and the versions, by what PostgreSQL
-- documents of statements of their form.
use goactor.Prelude.{
  ℕ, ◌≡◌, ◌⊎◌, List, [], ◌∷◌, map, Option, none, some, ite, ℤ, pos, ◌+ℤ◌, ◌<ℤ◌, Str, Str_discrete,
}
use mathlib.Core.List.{Perm}
use goactor.Storage.Table.{accepted, chosen, IsDistinct}
use goactor.Storage.Postgres.{
  Database, Value, text, Row, row, no_rows, Rows, opened, Columns, insert, insert_rows, update,
  increment, all_columns,
}
use goactor.Storage.Postgres.Behaviour.{resolve_all, row_id, normalised}

abbrev pub version_at : Option Columns → Option ℤ
version_at none = none
version_at (some c) = some c.version

abbrev pub row_version : Columns → ℤ
row_version c = c.version

abbrev pub overwritten : (Str → Str) → Option Columns → Option Columns → Option Columns
overwritten normal old none = old
overwritten normal old (some c) = some (normalised normal c)

abbrev pub bumped : Option Columns → Option Columns
bumped none = none
bumped (some c) = some (record c { version = c.version +ℤ pos 1 })

module _ {S : Type 0} (view : S → Str → Option Columns) (normal : Str → Str) where
  abbrev pub held : S → Str → Option ℤ
  held w id = version_at (view w id)

  abbrev pub Kept : S → S → Type 0
  Kept w w' = (id : Str) → view w' id ≡ view w id

  abbrev pub Wrote : S → S → List Columns → Type 0
  Wrote w w' rows =
      (id : Str)
      → view w' id ≡ overwritten normal (view w id) (chosen row_id row_version (held w) rows id)

  abbrev pub Incremented : S → S → Str → Type 0
  Incremented w w' id =
      (q : Str) → view w' q ≡ ite (Str_discrete id q) (bumped (view w q)) (view w q)

  abbrev pub written_ids : S → List Columns → List Str
  written_ids w rows = accepted row_id row_version (held w) rows

  -- An insertion that is read by QueryContext.
  pub record InsertedIds (w w' : S) (rows : List Columns) (reply : Rows) : Type 0 where
    pub effect : Wrote w w' rows ⊎ Kept w w'
    pub clean :
        (ids : List Str)
        → reply ≡ opened (map some ids) none
        → Wrote w w' rows × Perm ids (written_ids w rows)

  -- An insertion of one row that is read by QueryRowContext.
  pub record InsertedId (w w' : S) (r : Columns) (reply : Row Str) : Type 0 where
    pub effect : Wrote w w' (r ∷ []) ⊎ Kept w w'
    pub one : (id : Str) → reply ≡ row id → Wrote w w' (r ∷ []) × (written_ids w (r ∷ []) ≡ id ∷ [])
    pub nothing : reply ≡ no_rows → Wrote w w' (r ∷ []) × (written_ids w (r ∷ []) ≡ [])

  -- A version above the largest BIGINT is an error.
  abbrev pub Rises : S → Str → Type 0
  Rises w id = (v : ℤ) → held w id ≡ some v → v <ℤ v +ℤ pos 1

  pub record Counted (w w' : S) (id : Str) (reply : Row Columns) : Type 0 where
    pub effect : (Incremented w w' id × Rises w id) ⊎ Kept w w'
    pub one :
        (c : Columns)
        → reply ≡ row c
        → Incremented w w' id × Rises w id × (view w' id ≡ some c) × (c.actor_id ≡ id)
    pub nothing : reply ≡ no_rows → (view w id ≡ none) × Kept w w'

-- What the statements of the code do.
pub record Storing {S : Type 0} (db : Database S) (table : Str) (view : S → Str → Option Columns)
    (normal : Str → Str) : Type 0 where
  pub inserts :
      (w : S) (values : List (List ℕ)) (args : List Value) (rows : List Columns)
      → resolve_all all_columns values args ≡ some rows
      → IsDistinct (map row_id rows)
      → InsertedIds view normal w
          (db.query_ids w (insert (insert_rows table values)) args).0
          rows
          (db.query_ids w (insert (insert_rows table values)) args).1
  pub inserts_one :
      (w : S) (values : List (List ℕ)) (args : List Value) (r : Columns)
      → resolve_all all_columns values args ≡ some (r ∷ [])
      → InsertedId view normal w
          (db.query_id w (insert (insert_rows table values)) args).0
          r
          (db.query_id w (insert (insert_rows table values)) args).1
  pub increments :
      (w : S) (id : Str)
      → Counted view normal w
          (db.query_columns w (update (increment table)) (text id ∷ [])).0
          id
          (db.query_columns w (update (increment table)) (text id ∷ [])).1
