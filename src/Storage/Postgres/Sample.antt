-- ===== src/Storage/Postgres/Sample.antt =====
-- A database in memory that does what PostgreSQL documents, and a codec, for the tests.
use goactor.Prelude.{
  List, [], ◌∷◌, map, Option, none, some, ite, if◌then◌else◌, ◌+ℤ◌, lt_ℤ, Str, Str_discrete,
}
use goactor.Storage.Postgres.{
  Statement, create_table, insert, update, Insert, Addition, Value, text, Database, Row, row,
  no_rows, row_error, Rows, refused, opened, Columns,
}
use goactor.Storage.Postgres.Behaviour.{
  row_named, normal_row, after_insert, returned_ids, bumped_by, number_at, resolve_all,
}

abbrev pub Table : Type 0
Table = Str → Option Columns

-- A row under its key.
abbrev pub keyed : Str → Option Columns → Option Columns
keyed id none = none
keyed id (some c) = some (record c { actor_id = id })

abbrev pub view : Table → Str → Option Columns
view w id = keyed id (w id)

abbrev pub as_is : Str → Str
as_is x = x

abbrev pub written : Insert → Table → List Columns → Table
written statement w rows id =
    after_insert statement (view w id) (normal_row as_is (row_named rows id))

abbrev pub ids_of : Insert → Table → List Columns → List Str
ids_of statement w rows = returned_ids statement (view w) rows

abbrev pub first_id : List Str → Row Str
first_id [] = no_rows
first_id (id ∷ ids) = row id

abbrev pub insert_many : Insert → Table → Option (List Columns) → Table × Rows
insert_many statement w none = (w, refused [])
insert_many statement w (some rows) =
    (written statement w rows, opened (map some (ids_of statement w rows)) none)

abbrev pub insert_first : Insert → Table → Option (List Columns) → Table × Row Str
insert_first statement w none = (w, row_error [])
insert_first statement w (some rows) =
    (written statement w rows, first_id (ids_of statement w rows))

abbrev pub raised : Addition → Table → Str → Table
raised statement w id q =
    ite (Str_discrete id q) (bumped_by statement.column statement.by (view w q)) (view w q)

abbrev pub row_or_error : Option Columns → Row Columns
row_or_error none = no_rows
row_or_error (some c) = row c

-- A number that does not rise is out of range.
abbrev pub count_row : Addition → Table → Str → Option Columns → Table × Row Columns
count_row statement w id none = (w, no_rows)
count_row statement w id (some c) =
    if lt_ℤ (number_at statement.column c) (number_at statement.column c +ℤ statement.by)
    then (raised statement w id, row_or_error (bumped_by statement.column statement.by (some c)))
    else (w, row_error [])

abbrev pub query_many : Table → Statement → List Value → Table × Rows
query_many w (insert statement) args =
    insert_many statement w (resolve_all statement.columns statement.values args)
query_many w (create_table t columns) args = (w, refused [])
query_many w (update statement) args = (w, refused [])

abbrev pub query_first : Table → Statement → List Value → Table × Row Str
query_first w (insert statement) args =
    insert_first statement w (resolve_all statement.columns statement.values args)
query_first w (create_table t columns) args = (w, no_rows)
query_first w (update statement) args = (w, no_rows)

abbrev pub query_count : Table → Statement → List Value → Table × Row Columns
query_count w (update statement) (text id ∷ []) = count_row statement w id (view w id)
query_count w statement args = (w, no_rows)

abbrev pub memory : Database Table
memory = record {
  exec = λ w statement. (w, none);
  query_id = query_first;
  query_ids = query_many;
  query_columns = query_count;
  open_pool = λ w dsn. (w, none);
  ping = λ w. (w, none);
  close = λ w. (w, none);
}
