-- ===== src/Storage/Postgres/Encoding.antt =====
-- storage/postgres.go: the placeholders of a statement stand for the rows that are to be saved.
use goactor.Prelude.{
  ℕ, suc, ◌+◌, ◌-◌, ◌*◌, ◌≡◌, refl, sym, ◌∙◌, ap, List, [], ◌∷◌, ◌++◌, Option, none, some, Str,
  arith,
}
use mathlib.Core.List.{append_assoc}
use mathlib.Core.Path.{subst}
use goactor.Prelude.Assoc.{length}
use goactor.Prelude.Slice.{get_elem?, length-append}
use goactor.Message.{ActorSnapshot}
use goactor.Storage.{Snapshot, Result, returned, failed, batch_item}
use goactor.Storage.Table.{Encodes}
use goactor.Storage.Postgres.{
  Value, Codec, Columns, all_columns, and_then, encode_postgres_snapshot, arguments,
}
use goactor.Storage.Postgres.Save.{placeholders, add_row, batch_rows}
use goactor.Storage.Postgres.Behaviour.{cell, resolve, resolve_all, value_of, same_column}

abbrev pub columns_of : Snapshot × Str × Str → Columns
columns_of (doc, state, dedup) = record {
  actor_id = doc.actor_id;
  actor_type = doc.actor_type;
  version = doc.version;
  offset = doc.offset;
  state = state;
  dedup = dedup;
}

abbrev pub if_returned : Result (Snapshot × Str × Str) → Option Columns
if_returned (returned encoding) = some (columns_of encoding)
if_returned (failed e) = none

-- The row of a snapshot.
abbrev pub row_of : Codec → ActorSnapshot → Option Columns
row_of codec x = if_returned (encode_postgres_snapshot codec x)

cell-append :
    (before rest : List Value) (k : ℕ)
    → cell (before ++ rest) (length before + k + 1) ≡ get_elem? rest k
unfolding cell
cell-append [] rest k = ap (get_elem? rest) (omega arith)
cell-append (x ∷ before) rest k =
    let e : length (x ∷ before) + k + 1 - 1 ≡ suc (length before + k + 1 - 1) = omega arith in
    rw (cell, e) (cell-append before rest k)

cell-at :
    (before rest : List Value) (k p : ℕ)
    → p ≡ length before + k + 1
    → cell (before ++ rest) p ≡ get_elem? rest k
cell-at before rest k p e = rw e (cell-append before rest k)

resolve-arguments :
    (index : ℕ) (before rest : List Value) (encoding : Snapshot × Str × Str)
    → length before ≡ index * 6
    → resolve all_columns (before ++ (arguments encoding ++ rest)) (placeholders (index * 6 + 1))
      ≡ some (columns_of encoding)
unfolding resolve value_of same_column arguments placeholders
resolve-arguments index before rest (doc, state, dedup) h =
    let all = arguments (doc, state, dedup) ++ rest in
    let base = index * 6 + 1 in
    rw
      (
        cell-at before all 0 base (omega arith),
        cell-at before all 1 (base + 1) (omega arith),
        cell-at before all 2 (base + 2) (omega arith),
        cell-at before all 3 (base + 3) (omega arith),
        cell-at before all 4 (base + 4) (omega arith),
        cell-at before all 5 (base + 5) (omega arith),
      )
      refl

length-arguments : (encoding : Snapshot × Str × Str) → length (arguments encoding) ≡ 6
unfolding arguments
length-arguments (doc, state, dedup) = refl

pub and_then-returned :
    {A B : Type 0} (r : Result A) (f : A → Result B) (b : B)
    → and_then r f ≡ returned b
    → (a : A) × (r ≡ returned a) × (f a ≡ returned b)
unfolding and_then
and_then-returned (returned a) f b h = (a, refl, h)
and_then-returned (failed e) f b h = absurd (ground arith)

batch_rows-returned :
    (codec : Codec) (index : ℕ) (x : ActorSnapshot) (inputs : List ActorSnapshot)
    (r : Result (Snapshot × Str × Str)) (p : List (List ℕ) × List Value)
    → encode_postgres_snapshot codec x ≡ r
    → batch_rows codec index (x ∷ inputs) ≡ returned p
    → (encoding : Snapshot × Str × Str) × (r ≡ returned encoding)
      × (rest : List (List ℕ) × List Value) × (batch_rows codec (index + 1) inputs ≡ returned rest)
      × (add_row index encoding rest ≡ p)
unfolding batch_rows
batch_rows-returned codec index x inputs (failed e) p is h =
    let bad : failed (batch_item index e) ≡ returned p = sym (rw (batch_rows, is) refl) ∙ h in
    absurd (ground arith)
batch_rows-returned codec index x inputs (returned encoding) p is h =
    let (rest, found, same) =
      and_then-returned (batch_rows codec (index + 1) inputs)
        (λ rows. returned (add_row index encoding rows)) p (sym (rw (batch_rows, is) refl) ∙ h) in
    (encoding, refl, rest, found, ground arith)

resolve_all-add_row :
    (index : ℕ) (before : List Value) (encoding : Snapshot × Str × Str)
    (rest : List (List ℕ) × List Value) (rows : List Columns)
    → length before ≡ index * 6
    → resolve_all all_columns rest.0 ((before ++ arguments encoding) ++ rest.1) ≡ some rows
    → resolve_all all_columns
        (add_row index encoding rest).0
        (before ++ (add_row index encoding rest).1)
      ≡ some (columns_of encoding ∷ rows)
unfolding resolve_all add_row
resolve_all-add_row index before encoding (values, args) rows h found =
    rw
      (
        resolve_all,
        resolve-arguments index before args encoding h,
        sym (append_assoc before (arguments encoding) args),
        found,
      )
      refl

no_rows-returned :
    (codec : Codec) (index : ℕ) (p : List (List ℕ) × List Value)
    → batch_rows codec index [] ≡ returned p
    → ◌≡◌ {A = List (List ℕ) × List Value} ([], []) p
unfolding batch_rows
no_rows-returned codec index p h = ground arith

-- The statement of a batch stands for the rows of its inputs, whatever arguments stand before.
pub resolve_all-batch_rows :
    (codec : Codec) (index : ℕ) (before : List Value) (inputs : List ActorSnapshot)
    (p : List (List ℕ) × List Value)
    → length before ≡ index * 6
    → batch_rows codec index inputs ≡ returned p
    → (rows : List Columns) × (resolve_all all_columns p.0 (before ++ p.1) ≡ some rows)
      × Encodes (row_of codec) inputs rows
unfolding resolve_all
resolve_all-batch_rows codec index before [] p h e = (
  [],
  subst (λ q. resolve_all all_columns q.0 (before ++ q.1) ≡ some [])
      (no_rows-returned codec index p e) refl,
  tt,
)
resolve_all-batch_rows codec index before (x ∷ inputs) p h e =
    let (encoding, made, rest, found, same) =
      batch_rows-returned codec index x inputs (encode_postgres_snapshot codec x) p refl e in
    let (rows, resolved, encodes) =
      resolve_all-batch_rows codec (index + 1) (before ++ arguments encoding) inputs rest
        (length-append before (arguments encoding) ∙ omega (arith, length-arguments encoding))
        found in
    (
      columns_of encoding ∷ rows,
      subst (λ q. resolve_all all_columns q.0 (before ++ q.1) ≡ some (columns_of encoding ∷ rows))
          same (resolve_all-add_row index before encoding rest rows h resolved),
      (ap if_returned made, encodes),
    )

-- The statement of one row.
pub one_resolved :
    (encoding : Snapshot × Str × Str)
    → resolve_all all_columns ((1 ∷ 2 ∷ 3 ∷ 4 ∷ 5 ∷ 6 ∷ []) ∷ []) (arguments encoding)
      ≡ some (columns_of encoding ∷ [])
unfolding resolve_all resolve value_of same_column arguments
one_resolved (doc, state, dedup) = refl
