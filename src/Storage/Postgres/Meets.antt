-- ===== src/Storage/Postgres/Meets.antt =====
-- storage/postgres.go: a database that does what PostgreSQL documents does what Meaning.antt says.
use goactor.Prelude.{
  ℕ, ◌≡◌, refl, sym, ◌∙◌, ap, ◌⊎◌, inl, inr, List, [], ◌∷◌, Option, none, some, ite, if_pos, if_neg,
  if◌then◌else◌, ℤ, pos, ◌+ℤ◌, ◌<ℤ◌, le_ℤ, Str, Str_discrete, arith, Bool-cases, Option-cases,
}
use mathlib.Core.List.{Perm}
use mathlib.Core.Path.{subst}
use goactor.Storage.Table.{accepted, chosen, accepts}
use goactor.Storage.Postgres.{Database, Row, Rows, Columns, insert_rows, increment, version_column}
use goactor.Storage.Postgres.Behaviour.{
  row_id, normalised, normal_row, number_at, compare_numbers, passes, assign, assign_all, row_named,
  after_insert, returned_ids, is_written, bumped_by, Documented, Inserted, InsertedRow, Raised,
  RaisedRow, Applied, Same, HasRoom,
}
use goactor.Storage.Postgres.Meaning.{
  version_at, row_version, overwritten, bumped, Storing, held, Kept, Wrote, Incremented,
  InsertedIds, InsertedId, Rises, Counted,
}

-- A row that is assigned its other columns under the same key is the new row.
overwrites :
    (table : Str) (values : List (List ℕ)) (old new : Columns)
    → old.actor_id ≡ new.actor_id
    → assign_all (insert_rows table values).assigned new old ≡ new
unfolding assign_all assign insert_rows
overwrites table values old new e = ap (λ id. record new { actor_id = id }) e

after_one :
    (normal : Str → Str) (table : Str) (values : List (List ℕ)) (o : Option Columns) (r : Columns)
    → ((c : Columns) → o ≡ some c → c.actor_id ≡ r.actor_id)
    → after_insert (insert_rows table values) o (some (normalised normal r))
      ≡ overwritten normal o (if accepts (version_at o) r.version then some r else none)
unfolding after_insert passes number_at compare_numbers insert_rows
after_one normal table values none r own = refl
after_one normal table values (some c) r own = elim (Bool-cases (le_ℤ c.version r.version)) [
  | inl newer ↦ rw (newer, overwrites table values c (normalised normal r) (own c refl)) refl
  | inr stale ↦ rw stale refl
]

-- The insertion of the code leaves what `chosen` says.
after_insert-chosen :
    (normal : Str → Str) (table : Str) (values : List (List ℕ)) (versions : Str → Option ℤ)
    (id : Str) (o : Option Columns)
    → versions id ≡ version_at o
    → ((c : Columns) → o ≡ some c → c.actor_id ≡ id)
    → (rows : List Columns)
    → after_insert (insert_rows table values) o (normal_row normal (row_named rows id))
      ≡ overwritten normal o (chosen row_id row_version versions rows id)
unfolding after_insert row_named chosen
after_insert-chosen normal table values versions id o h own [] = by_row o
  where
    by_row :
        (q : Option Columns)
        → after_insert (insert_rows table values) q none ≡ overwritten normal q none
    by_row none = refl
    by_row (some c) = refl
after_insert-chosen normal table values versions id o h own (r ∷ rest) =
    elim (Str_discrete r.actor_id id) [
      | yes p ↦
          let same : versions r.actor_id ≡ version_at o = ap versions p ∙ h in
          rw
            (
              row_named,
              chosen,
              if_pos (Str_discrete r.actor_id id) p,
              if_pos (Str_discrete r.actor_id id) p,
              same,
              after_one normal table values o r (λ c e. own c e ∙ sym p),
            )
            refl
      | no p ↦
          rw
            (
              row_named,
              chosen,
              if_neg (Str_discrete r.actor_id id) p,
              if_neg (Str_discrete r.actor_id id) p,
            )
            (after_insert-chosen normal table values versions id o h own rest)
    ]

returned_ids-accepted :
    (table : Str) (values : List (List ℕ)) (view : Str → Option Columns) (rows : List Columns)
    → returned_ids (insert_rows table values) view rows
      ≡ accepted row_id row_version (λ id. version_at (view id)) rows
unfolding returned_ids accepted is_written passes number_at compare_numbers insert_rows
returned_ids-accepted table values view [] = refl
returned_ids-accepted table values view (r ∷ rest) = elim (Option-cases (view r.actor_id)) [
  | inl free ↦
      rw (returned_ids, free, is_written, returned_ids-accepted table values view rest) refl
  | inr (c, taken) ↦
      rw (returned_ids, taken, is_written, returned_ids-accepted table values view rest) refl
]

module _ {S : Type 0} (view : S → Str → Option Columns) (normal : Str → Str)
    (keyed : (w : S) (id : Str) (c : Columns) → view w id ≡ some c → c.actor_id ≡ id) (table : Str)
    (w w' : S) where
  module _ (values : List (List ℕ)) where
    Applied-Wrote :
        (rows : List Columns)
        → Applied view normal (insert_rows table values) w w' rows
        → Wrote view normal w w' rows
    Applied-Wrote rows h id =
        h id
        ∙ after_insert-chosen normal table values (held view normal w) id (view w id) refl
            (keyed w id) rows

    applied_or_same :
        (rows : List Columns)
        → Applied view normal (insert_rows table values) w w' rows ⊎ Same view normal w w'
        → Wrote view normal w w' rows ⊎ Kept view normal w w'
    applied_or_same rows (inl h) = inl (Applied-Wrote rows h)
    applied_or_same rows (inr h) = inr h

    pub Inserted-InsertedIds :
        (rows : List Columns) (reply : Rows)
        → Inserted view normal (insert_rows table values) w w' rows reply
        → InsertedIds view normal w w' rows reply
    Inserted-InsertedIds rows reply law = record {
      effect = applied_or_same rows law.effect;
      clean = λ ids is.
          let (applied, perm) = law.clean ids is in
          (
            Applied-Wrote rows applied,
            subst (λ l. Perm ids l) (returned_ids-accepted table values (view w) rows) perm,
          );
    }

    pub InsertedRow-InsertedId :
        (r : Columns) (reply : Row Str)
        → InsertedRow view normal (insert_rows table values) w w' r reply
        → InsertedId view normal w w' r reply
    InsertedRow-InsertedId r reply law =
        let same = sym (returned_ids-accepted table values (view w) (r ∷ [])) in
        record {
          effect = applied_or_same (r ∷ []) law.effect;
          one = λ id is.
              let (applied, ids) = law.one id is in (Applied-Wrote (r ∷ []) applied, same ∙ ids);
          nothing = λ is.
              let (applied, ids) = law.nothing is in (Applied-Wrote (r ∷ []) applied, same ∙ ids);
        }

  Raised-Incremented :
      (id : Str) → Raised view normal (increment table) w w' id → Incremented view normal w w' id
  unfolding increment bumped_by
  Raised-Incremented id h q = h q ∙ ap (λ o. ite (Str_discrete id q) o (view w q)) (same (view w q))
    where
      same : (o : Option Columns) → bumped_by version_column (pos 1) o ≡ bumped o
      same none = refl
      same (some c) = refl

  HasRoom-Rises : (id : Str) → HasRoom view normal (increment table) w id → Rises view normal w id
  unfolding increment number_at
  HasRoom-Rises id h v is = elim (Option-cases (view w id)) [
    | inl free ↦ absurd (ground arith)
    | inr (c, there) ↦
        let same : c.version ≡ v = ground arith in
        subst (λ u. u <ℤ u +ℤ pos 1) same (h c there (omega arith))
  ]

  pub RaisedRow-Counted :
      (id : Str) (reply : Row Columns)
      → RaisedRow view normal (increment table) w w' id reply
      → Counted view normal w w' id reply
  RaisedRow-Counted id reply law = record {
    effect = either law.effect;
    one = λ c is.
        let (raised, room, there) = law.one c is in
        (Raised-Incremented id raised, HasRoom-Rises id room, there, keyed w' id c there);
    nothing = law.nothing;
  }
    where
      either :
          (Raised view normal (increment table) w w' id
              × HasRoom view normal (increment table) w id)
            ⊎ Same view normal w w'
          → (Incremented view normal w w' id × Rises view normal w id) ⊎ Kept view normal w w'
      either (inl (raised, room)) = inl (Raised-Incremented id raised, HasRoom-Rises id room)
      either (inr same) = inr same

pub storing :
    {S : Type 0} {db : Database S} {table : Str} (laws : Documented db table)
    → Storing db table laws.view laws.normal
unfolding insert_rows increment
storing {S} {db} {table} laws = record {
  inserts = λ w values args rows h d.
      Inserted-InsertedIds laws.view laws.normal laws.keyed table w _ values rows _
        (laws.inserts w (insert_rows table values) args rows refl refl refl h d);
  inserts_one = λ w values args r h.
      InsertedRow-InsertedId laws.view laws.normal laws.keyed table w _ values r _
        (laws.inserts_one w (insert_rows table values) args r refl refl refl h);
  increments = λ w id.
      RaisedRow-Counted laws.view laws.normal laws.keyed table w _ id _
        (laws.increments w (increment table) id refl refl refl);
}
