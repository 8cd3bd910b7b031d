-- ===== src/Storage/Postgres/Behaviour.antt =====
-- What PostgreSQL documents of statements of the form that storage/postgres.go uses, whichever columns,
-- comparison and assignments they have: an insertion with ON CONFLICT DO UPDATE WHERE RETURNING is one
-- atomic step, as is an increment; a statement that ends in an error may still have taken effect, if the
-- connection was lost. JSONB keeps the value of a text, not its layout: `normal` is what it shows of a
-- text.
use goactor.Prelude.{
  ℕ, ◌-◌, ◌≡◌, ◌⊎◌, Bool, true, false, List, [], ◌∷◌, map, Option, none, some, ite, if◌then◌else◌,
  ℤ, pos, ◌+ℤ◌, ◌<ℤ◌, le_ℤ, lt_ℤ, eq_ℤ, Str, Str_discrete,
}
use mathlib.Core.List.{Perm}
use goactor.Prelude.Slice.{get_elem?}
use goactor.Storage.Table.{IsDistinct}
use goactor.Storage.Postgres.{
  Database, Value, text, bigint, json, Row, row, no_rows, Rows, opened, Columns, Column, id_column,
  type_column, state_column, dedup_column, number, NumberColumn, version_column, offset_column,
  Comparison, less_or_equal, less, equals, greater, greater_or_equal, Guard, Insert, Addition,
  insert, update, all_columns,
}

-- The argument that a placeholder stands for, counted from 1.
unfoldable pub cell : List Value → ℕ → Option Value
cell args k = get_elem? args (k - 1)

unfoldable pub as_text : Option Value → Option Str
as_text none = none
as_text (some (text t)) = some t
as_text (some (bigint n)) = none
as_text (some (json t)) = none

unfoldable pub as_bigint : Option Value → Option ℤ
as_bigint none = none
as_bigint (some (text t)) = none
as_bigint (some (bigint n)) = some n
as_bigint (some (json t)) = none

unfoldable pub as_json : Option Value → Option Str
as_json none = none
as_json (some (text t)) = none
as_json (some (bigint n)) = none
as_json (some (json t)) = some t

-- The row that six placeholders stand for.
unfoldable pub assemble :
    Option Str → Option Str → Option ℤ → Option ℤ → Option Str → Option Str → Option Columns
assemble (some id) (some typ) (some version) (some offset) (some state) (some dedup) =
    some (record {
      actor_id = id;
      actor_type = typ;
      version = version;
      offset = offset;
      state = state;
      dedup = dedup;
    })
assemble _ _ _ _ _ _ = none

unfoldable pub same_column : Column → Column → Bool
same_column id_column id_column = true
same_column type_column type_column = true
same_column state_column state_column = true
same_column dedup_column dedup_column = true
same_column (number version_column) (number version_column) = true
same_column (number offset_column) (number offset_column) = true
same_column _ _ = false

-- The value of a column, by the place of the column in the list of columns.
unfoldable pub value_of : List Value → Column → List Column → List ℕ → Option Value
unfolding cell same_column
value_of args wanted [] group = none
value_of args wanted (c ∷ columns) [] = none
value_of args wanted (c ∷ columns) (k ∷ group) =
    let later = value_of args wanted columns group in
    if same_column wanted c then cell args k else later

unfoldable pub resolve : List Column → List Value → List ℕ → Option Columns
unfolding value_of as_text as_bigint as_json assemble
resolve columns args group =
    assemble (as_text (value_of args id_column columns group))
      (as_text (value_of args type_column columns group))
      (as_bigint (value_of args (number version_column) columns group))
      (as_bigint (value_of args (number offset_column) columns group))
      (as_json (value_of args state_column columns group))
      (as_json (value_of args dedup_column columns group))

unfoldable pub join_rows : Option Columns → Option (List Columns) → Option (List Columns)
join_rows (some r) (some rows) = some (r ∷ rows)
join_rows (some r) none = none
join_rows none rows = none

unfoldable pub resolve_all : List Column → List (List ℕ) → List Value → Option (List Columns)
unfolding join_rows
resolve_all columns [] args = some []
resolve_all columns (group ∷ rest) args =
    join_rows (resolve columns args group) (resolve_all columns rest args)

abbrev pub row_id : Columns → Str
row_id c = c.actor_id

abbrev pub normalised : (Str → Str) → Columns → Columns
normalised normal c = record c { state = normal c.state; dedup = normal c.dedup }

abbrev pub normal_row : (Str → Str) → Option Columns → Option Columns
normal_row normal none = none
normal_row normal (some c) = some (normalised normal c)

unfoldable pub number_at : NumberColumn → Columns → ℤ
number_at version_column c = c.version
number_at offset_column c = c.offset

unfoldable pub compare_numbers : Comparison → ℤ → ℤ → Bool
compare_numbers less_or_equal x y = le_ℤ x y
compare_numbers less x y = lt_ℤ x y
compare_numbers equals x y = eq_ℤ x y
compare_numbers greater x y = lt_ℤ y x
compare_numbers greater_or_equal x y = le_ℤ y x

-- Whether the row that is there lets EXCLUDED overwrite it.
unfoldable pub passes : Guard → Columns → Columns → Bool
unfolding number_at compare_numbers
passes guard old new =
    compare_numbers guard.comparison (number_at guard.target old) (number_at guard.excluded new)

unfoldable pub assign : Column → Columns → Columns → Columns
assign id_column new old = record old { actor_id = new.actor_id }
assign type_column new old = record old { actor_type = new.actor_type }
assign state_column new old = record old { state = new.state }
assign dedup_column new old = record old { dedup = new.dedup }
assign (number version_column) new old = record old { version = new.version }
assign (number offset_column) new old = record old { offset = new.offset }

unfoldable pub assign_all : List Column → Columns → Columns → Columns
unfolding assign
assign_all [] new old = old
assign_all (c ∷ columns) new old = assign_all columns new (assign c new old)

-- The row of an id among the rows of a statement.
unfoldable pub row_named : List Columns → Str → Option Columns
row_named [] id = none
row_named (r ∷ rest) id =
    let later = row_named rest id in ite (Str_discrete r.actor_id id) (some r) later

-- What stands under a key after an insertion.
unfoldable pub after_insert : Insert → Option Columns → Option Columns → Option Columns
unfolding passes assign_all
after_insert statement old none = old
after_insert statement none (some new) = some new
after_insert statement (some old) (some new) =
    if passes statement.guard old new
    then some (assign_all statement.assigned new old)
    else some old

unfoldable pub is_written : Insert → Option Columns → Columns → Bool
unfolding passes
is_written statement none new = true
is_written statement (some old) new = passes statement.guard old new

-- RETURNING actor_id: the rows that are inserted or updated.
unfoldable pub returned_ids : Insert → (Str → Option Columns) → List Columns → List Str
unfolding is_written
returned_ids statement table [] = []
returned_ids statement table (r ∷ rest) =
    let others = returned_ids statement table rest in
    if is_written statement (table r.actor_id) r then r.actor_id ∷ others else others

unfoldable pub bumped_by : NumberColumn → ℤ → Option Columns → Option Columns
bumped_by column by none = none
bumped_by version_column by (some c) = some (record c { version = c.version +ℤ by })
bumped_by offset_column by (some c) = some (record c { offset = c.offset +ℤ by })

module _ {S : Type 0} (view : S → Str → Option Columns) (normal : Str → Str) where
  abbrev pub Same : S → S → Type 0
  Same w w' = (id : Str) → view w' id ≡ view w id

  abbrev pub Applied : Insert → S → S → List Columns → Type 0
  Applied statement w w' rows =
      (id : Str)
      → view w' id ≡ after_insert statement (view w id) (normal_row normal (row_named rows id))

  -- An insertion that is read by QueryContext.
  pub record Inserted (statement : Insert) (w w' : S) (rows : List Columns) (reply : Rows)
      : Type 0 where
    pub effect : Applied statement w w' rows ⊎ Same w w'
    pub clean :
        (ids : List Str)
        → reply ≡ opened (map some ids) none
        → Applied statement w w' rows × Perm ids (returned_ids statement (view w) rows)

  -- An insertion of one row that is read by QueryRowContext.
  pub record InsertedRow (statement : Insert) (w w' : S) (r : Columns) (reply : Row Str)
      : Type 0 where
    pub effect : Applied statement w w' (r ∷ []) ⊎ Same w w'
    pub one :
        (id : Str)
        → reply ≡ row id
        → Applied statement w w' (r ∷ []) × (returned_ids statement (view w) (r ∷ []) ≡ id ∷ [])
    pub nothing :
        reply ≡ no_rows
        → Applied statement w w' (r ∷ []) × (returned_ids statement (view w) (r ∷ []) ≡ [])

  abbrev pub Raised : Addition → S → S → Str → Type 0
  Raised statement w w' id =
      (q : Str)
      → view w' q
        ≡ ite (Str_discrete id q) (bumped_by statement.column statement.by (view w q)) (view w q)

  -- A number outside BIGINT is an error.
  abbrev pub HasRoom : Addition → S → Str → Type 0
  HasRoom statement w id =
      (c : Columns)
      → view w id ≡ some c
      → pos 0 <ℤ statement.by
      → number_at statement.column c <ℤ number_at statement.column c +ℤ statement.by

  pub record RaisedRow (statement : Addition) (w w' : S) (id : Str) (reply : Row Columns)
      : Type 0 where
    pub effect : (Raised statement w w' id × HasRoom statement w id) ⊎ Same w w'
    pub one :
        (c : Columns)
        → reply ≡ row c
        → Raised statement w w' id × HasRoom statement w id × (view w' id ≡ some c)
    pub nothing : reply ≡ no_rows → (view w id ≡ none) × Same w w'

-- `view` is the row of an id: the primary key. The laws speak of conflicts on that key alone.
pub record Documented {S : Type 0} (db : Database S) (table : Str) : Type 0 where
  pub view : S → Str → Option Columns
  pub normal : Str → Str
  pub keyed : (w : S) (id : Str) (c : Columns) → view w id ≡ some c → c.actor_id ≡ id
  pub inserts :
      (w : S) (statement : Insert) (args : List Value) (rows : List Columns)
      → statement.table ≡ table
      → statement.conflict ≡ id_column
      → statement.returning ≡ id_column ∷ []
      → resolve_all statement.columns statement.values args ≡ some rows
      → IsDistinct (map row_id rows)
      → Inserted view normal statement w
          (db.query_ids w (insert statement) args).0
          rows
          (db.query_ids w (insert statement) args).1
  pub inserts_one :
      (w : S) (statement : Insert) (args : List Value) (r : Columns)
      → statement.table ≡ table
      → statement.conflict ≡ id_column
      → statement.returning ≡ id_column ∷ []
      → resolve_all statement.columns statement.values args ≡ some (r ∷ [])
      → InsertedRow view normal statement w
          (db.query_id w (insert statement) args).0
          r
          (db.query_id w (insert statement) args).1
  pub increments :
      (w : S) (statement : Addition) (id : Str)
      → statement.table ≡ table
      → statement.key ≡ id_column
      → statement.returning ≡ all_columns
      → RaisedRow view normal statement w
          (db.query_columns w (update statement) (text id ∷ [])).0
          id
          (db.query_columns w (update statement) (text id ∷ [])).1
