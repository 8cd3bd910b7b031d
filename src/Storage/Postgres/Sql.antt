-- ===== src/Storage/Postgres/Sql.antt =====
-- storage/postgres.go: the statements of SQL as values.
use goactor.Prelude.{ℕ, List, [], ◌∷◌, ℤ, pos, Str, bytes}

-- The columns of the table, those of BIGINT apart.
pub data NumberColumn : Type 0 where
  version_column offset_column : NumberColumn

pub data Column : Type 0 where
  id_column type_column state_column dedup_column : Column
  number : NumberColumn → Column

-- `target.column <= EXCLUDED.column`, or another comparison.
pub data Comparison : Type 0 where
  less_or_equal less equals greater greater_or_equal : Comparison

pub record Guard : Type 0 where
  pub target : NumberColumn
  pub comparison : Comparison
  pub excluded : NumberColumn

-- INSERT INTO table AS target (columns) VALUES values ON CONFLICT (conflict) DO UPDATE SET assigned WHERE
-- guard RETURNING returning. The values are the numbers of the placeholders of each row, and an
-- assigned column is set to the one of EXCLUDED.
pub record Insert : Type 0 where
  pub table : Str
  pub columns : List Column
  pub values : List (List ℕ)
  pub conflict : Column
  pub assigned : List Column
  pub guard : Guard
  pub returning : List Column

-- UPDATE table SET column = column + by WHERE key = $1 RETURNING returning.
pub record Addition : Type 0 where
  pub table : Str
  pub column : NumberColumn
  pub by : ℤ
  pub key : Column
  pub returning : List Column

-- The statements; a table is created from the definitions of its columns.
pub data Statement : Type 0 where
  create_table : Str → List (Column × Str) → Statement
  insert : Insert → Statement
  update : Addition → Statement

abbrev pub schema : List (Column × Str)
schema =
    (id_column, bytes "TEXT PRIMARY KEY")
    ∷ (type_column, bytes "TEXT NOT NULL DEFAULT ''")
    ∷ (number version_column, bytes "BIGINT NOT NULL")
    ∷ (number offset_column, bytes "BIGINT NOT NULL")
    ∷ (state_column, bytes "JSONB")
    ∷ (dedup_column, bytes "JSONB NOT NULL DEFAULT '[]'::jsonb")
    ∷ []

abbrev pub all_columns : List Column
all_columns =
    id_column
    ∷ type_column
    ∷ number version_column
    ∷ number offset_column
    ∷ state_column
    ∷ dedup_column
    ∷ []

-- The insertion of saveOnePostgres and saveBatchPostgres.
unfoldable pub insert_rows : Str → List (List ℕ) → Insert
insert_rows table values = record {
  table = table;
  columns = all_columns;
  values = values;
  conflict = id_column;
  assigned =
      type_column ∷ number version_column ∷ number offset_column ∷ state_column ∷ dedup_column ∷ [];
  guard = record { target = version_column; comparison = less_or_equal; excluded = version_column };
  returning = id_column ∷ [];
}

-- The update of Load.
unfoldable pub increment : Str → Addition
increment table = record {
  table = table;
  column = version_column;
  by = pos 1;
  key = id_column;
  returning = all_columns;
}
