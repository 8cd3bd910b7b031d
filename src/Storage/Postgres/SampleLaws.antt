-- ===== src/Storage/Postgres/SampleLaws.antt =====
-- The database in memory does what PostgreSQL documents.
use goactor.Prelude.{
  ◌≡◌, refl, sym, ap, ◌∙◌, if_pos, if_neg, inl, inr, List, [], ◌∷◌, map, Option, none, some, ℤ,
  ◌+ℤ◌, ◌<ℤ◌, lt_ℤ, Str, Str_discrete, arith, Bool-cases,
}
use mathlib.Core.List.Perm
use mathlib.Core.List.{Perm}
use mathlib.Core.Path.{subst}
use goactor.Storage.Postgres.{
  Insert, Addition, Column, id_column, number, NumberColumn, version_column, offset_column,
  type_column, state_column, dedup_column, row, no_rows, opened, Columns,
}
use goactor.Storage.Postgres.Behaviour.{
  Documented, Inserted, InsertedRow, RaisedRow, Applied, Raised, HasRoom, row_named, normal_row,
  after_insert, passes, assign, assign_all, is_written, returned_ids, bumped_by, number_at,
}
use goactor.Storage.Postgres.Sample.{
  Table, keyed, view, as_is, written, ids_of, first_id, insert_many, insert_first, raised,
  row_or_error, count_row, memory,
}

row_named-key :
    (rows : List Columns) (id : Str) (c : Columns) → row_named rows id ≡ some c → c.actor_id ≡ id
unfolding row_named
row_named-key [] id c h = absurd (ground arith)
row_named-key (r ∷ rest) id c h = elim (Str_discrete r.actor_id id) [
  | yes p ↦ ground arith
  | no p ↦ row_named-key rest id c (ground arith)
]

assign-key :
    (c : Column) (new old : Columns) (id : Str)
    → new.actor_id ≡ id
    → old.actor_id ≡ id
    → (assign c new old).actor_id ≡ id
unfolding assign
assign-key id_column new old id n o = n
assign-key type_column new old id n o = o
assign-key state_column new old id n o = o
assign-key dedup_column new old id n o = o
assign-key (number version_column) new old id n o = o
assign-key (number offset_column) new old id n o = o

assign_all-key :
    (columns : List Column) (new old : Columns) (id : Str)
    → new.actor_id ≡ id
    → old.actor_id ≡ id
    → (assign_all columns new old).actor_id ≡ id
unfolding assign_all
assign_all-key [] new old id n o = o
assign_all-key (c ∷ columns) new old id n o =
    assign_all-key columns new (assign c new old) id n (assign-key c new old id n o)

pub keyed-own :
    (id : Str) (o : Option Columns) (c : Columns) → keyed id o ≡ some c → c.actor_id ≡ id
keyed-own id none c h = absurd (ground arith)
keyed-own id (some r) c h = ground arith

keyed-same :
    (id : Str) (o : Option Columns)
    → ((c : Columns) → o ≡ some c → c.actor_id ≡ id)
    → keyed id o ≡ o
keyed-same id none h = refl
keyed-same id (some c) h = ap (λ q. some (record c { actor_id = q })) (sym (h c refl))

after_insert-key :
    (statement : Insert) (id : Str) (o r : Option Columns)
    → ((c : Columns) → o ≡ some c → c.actor_id ≡ id)
    → ((c : Columns) → r ≡ some c → c.actor_id ≡ id)
    → (c : Columns) → after_insert statement o r ≡ some c
    → c.actor_id ≡ id
unfolding after_insert
after_insert-key statement id o none own new c h = own c h
after_insert-key statement id none (some r) own new c h = new c h
after_insert-key statement id (some old) (some r) own new c h =
    elim (Bool-cases (passes statement.guard old r)) [
      | inl over ↦
          let is : assign_all statement.assigned r old ≡ c = ground arith in
          sym (ap (λ (x : Columns). x.actor_id) is)
          ∙ assign_all-key statement.assigned r old id (new r refl) (own old refl)
      | inr left ↦
          let is : old ≡ c = ground arith in
          sym (ap (λ (x : Columns). x.actor_id) is) ∙ own old refl
    ]

normal_row-key :
    (id : Str) (o : Option Columns)
    → ((c : Columns) → o ≡ some c → c.actor_id ≡ id)
    → (c : Columns) → normal_row as_is o ≡ some c
    → c.actor_id ≡ id
normal_row-key id none own c h = absurd (ground arith)
normal_row-key id (some r) own c h = own c h

written-Applied :
    (statement : Insert) (w : Table) (rows : List Columns)
    → Applied view as_is statement w (written statement w rows) rows
written-Applied statement w rows id = keyed-same id (written statement w rows id) (
    after_insert-key statement id (view w id) (normal_row as_is (row_named rows id))
      (keyed-own id (w id)) (normal_row-key id (row_named rows id) (row_named-key rows id)))

some-cancel : (xs ys : List Str) → map some xs ≡ map some ys → xs ≡ ys
some-cancel [] [] h = refl
some-cancel (x ∷ xs) [] h = absurd (ground arith)
some-cancel [] (y ∷ ys) h = absurd (ground arith)
some-cancel (x ∷ xs) (y ∷ ys) h =
    let same : x ≡ y = ground arith in
    let rest : map some xs ≡ map some ys = ground arith in cc (same, some-cancel xs ys rest)

pub insert_many-Inserted :
    (statement : Insert) (w : Table) (rows : List Columns)
    → Inserted view as_is statement w
        (written statement w rows)
        rows
        (opened (map some (ids_of statement w rows)) none)
insert_many-Inserted statement w rows = record {
  effect = inl (written-Applied statement w rows);
  clean = λ ids same.
      let these = some-cancel (ids_of statement w rows) ids (ground arith) in
      (
        written-Applied statement w rows,
        subst (λ l. Perm l (ids_of statement w rows)) these (Perm.refl (ids_of statement w rows)),
      );
}

pub insert_first-InsertedRow :
    (statement : Insert) (w : Table) (r : Columns)
    → InsertedRow view as_is statement w
        (written statement w (r ∷ []))
        r
        (first_id (ids_of statement w (r ∷ [])))
unfolding returned_ids
insert_first-InsertedRow statement w r =
    let applied = written-Applied statement w (r ∷ []) in
    elim (Bool-cases (is_written statement (view w r.actor_id) r)) [
      | inl taken ↦ record {
        effect = inl applied;
        one = λ id same. (applied, ground arith);
        nothing = λ same. absurd (ground arith);
      }
      | inr left ↦ record {
        effect = inl applied;
        one = λ id same. absurd (ground arith);
        nothing = λ same. (applied, ground arith);
      }
    ]

bumped_by-key :
    (column : NumberColumn) (by : ℤ) (id : Str) (o : Option Columns)
    → ((c : Columns) → o ≡ some c → c.actor_id ≡ id)
    → (c : Columns) → bumped_by column by o ≡ some c
    → c.actor_id ≡ id
unfolding bumped_by
bumped_by-key column by id none own c h = absurd (ground arith)
bumped_by-key version_column by id (some r) own c h = ground (arith, own r refl)
bumped_by-key offset_column by id (some r) own c h = ground (arith, own r refl)

raised-Raised :
    (statement : Addition) (w : Table) (id : Str)
    → Raised view as_is statement w (raised statement w id) id
raised-Raised statement w id q = elim (Str_discrete id q) [
  | yes p ↦ rw (if_pos (Str_discrete id q) p) (
      keyed-same q (bumped_by statement.column statement.by (view w q))
        (bumped_by-key statement.column statement.by q (view w q) (keyed-own q (w q))))
  | no p ↦ rw (if_neg (Str_discrete id q) p) (keyed-same q (view w q) (keyed-own q (w q)))
]

row_or_error-row : (o : Option Columns) (c : Columns) → row_or_error o ≡ row c → o ≡ some c
row_or_error-row none c h = absurd (ground arith)
row_or_error-row (some r) c h = ground arith

bumped_by-row :
    (column : NumberColumn) (by : ℤ) (c : Columns)
    → (r : Columns) × (bumped_by column by (some c) ≡ some r)
unfolding bumped_by
bumped_by-row version_column by c = (_, refl)
bumped_by-row offset_column by c = (_, refl)

-- An increment, by the row that is there and by whether its number can rise.
pub count_row-RaisedRow :
    (statement : Addition) (w : Table) (id : Str) (o : Option Columns)
    → view w id ≡ o
    → RaisedRow view as_is statement w
        (count_row statement w id o).0
        id
        (count_row statement w id o).1
count_row-RaisedRow statement w id none is = record {
  effect = inr (λ q. refl);
  one = λ c h. absurd (ground arith);
  nothing = λ h. (is, λ q. refl);
}
count_row-RaisedRow statement w id (some c) is =
    let now = number_at statement.column c in
    elim (Bool-cases (lt_ℤ now (now +ℤ statement.by))) [
      | inr full ↦ rw full (record {
        effect = inr (λ q. refl);
        one = λ r h. absurd (ground arith);
        nothing = λ h. absurd (ground arith);
      })
      | inl room ↦
          let rise : now <ℤ now +ℤ statement.by = ground arith in
          let has : HasRoom view as_is statement w id = λ r there positive.
            subst
              (λ (x : Columns).
                number_at statement.column x <ℤ number_at statement.column x +ℤ statement.by)
              (same r there) rise in
          let up = raised-Raised statement w id in
          let (next, made) = bumped_by-row statement.column statement.by c in
          rw room (record {
            effect = inl (up, has);
            one = λ r h. (
              up,
              has,
              up id
                  ∙ if_pos (Str_discrete id id) refl _ _
                  ∙ ap (bumped_by statement.column statement.by) is
                  ∙ row_or_error-row (bumped_by statement.column statement.by (some c)) r h,
            );
            nothing = λ h.
                absurd (no_error (bumped_by statement.column statement.by (some c)) next made h);
          })
    ]
  where
    same : (r : Columns) → view w id ≡ some r → c ≡ r
    same r there = ground arith

    no_error : (o : Option Columns) (r : Columns) → o ≡ some r → row_or_error o ≡ no_rows → ⊥
    no_error none r e h = ground arith
    no_error (some q) r e h = ground arith

-- The database does what PostgreSQL documents.
unfoldable pub memory-Documented : (table : Str) → Documented memory table
memory-Documented table = record {
  view = view;
  normal = as_is;
  keyed = λ w id. keyed-own id (w id);
  inserts = λ w statement args rows t k r h d.
      subst
        (λ o.
          Inserted view as_is statement w (insert_many statement w o).0 rows
            (insert_many statement w o).1)
        (sym h) (insert_many-Inserted statement w rows);
  inserts_one = λ w statement args r t k c h.
      subst
        (λ o.
          InsertedRow view as_is statement w (insert_first statement w o).0 r
            (insert_first statement w o).1)
        (sym h) (insert_first-InsertedRow statement w r);
  increments = λ w statement id t k r. count_row-RaisedRow statement w id (view w id) refl;
}
