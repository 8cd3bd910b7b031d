-- ===== src/Storage/Postgres/Promise.antt =====
-- storage/postgres.go: Save keeps the promise of a store, by what PostgreSQL documents.
use goactor.Prelude.{
  ℕ, ◌+◌, ◌≡◌, refl, sym, ap, inl, inr, false, List, [], ◌∷◌, Option, none, some, ℤ, Str, arith,
  Option-cases, Bool-cases, ◌⊎◌,
}
use mathlib.Core.List.Perm
use mathlib.Core.Path.{subst}
use goactor.Prelude.Assoc.{contains}
use goactor.Message.{ActorSnapshot}
use goactor.Storage.{
  Snapshot, StoreError, Result, Saved, returned, failed, is_stale, uninitialized, validate_batch,
  stale, saving,
}
use goactor.Storage.Table.{accepted, rejected, chosen, Encodes, map-Encodes}
use goactor.Storage.Checks.{
  actor_key, actor_version, validate_batch-IsDistinct, validate_batch-stale,
  snapshot_from_message-failed, Result-cases,
}
use goactor.Storage.Contract.{Promise, stored-Answer, stale-Answer, only_stale, refused-Promise}
use goactor.Storage.Postgres.Meets.{storing}
use goactor.Storage.Postgres.{
  Database, Codec, PostgresStore, Row, row, no_rows, row_error, Columns, ready,
  encode_postgres_snapshot, arguments, encoded, and_then,
}
use goactor.Storage.Postgres.Save.{
  save, save_batch_postgres, save_one_postgres, insert_batch, insert_one, scanned_one, saved_one,
  batch_rows,
}
use goactor.Storage.Postgres.Behaviour.{Documented, row_id}
use goactor.Storage.Postgres.Meaning.{InsertedId, held, row_version, written_ids}
use goactor.Storage.Postgres.Encoding.{
  row_of, columns_of, if_returned, resolve_all-batch_rows, one_resolved,
}
use goactor.Storage.Postgres.Refine.{
  encode_postgres_snapshot-returned, row_of-keeps, versions_written, effect-versions,
  written_ids-accepted, read_ids-Promise,
}

encode_postgres_snapshot-stale :
    (codec : Codec) (x : ActorSnapshot) (e : StoreError)
    → encode_postgres_snapshot codec x ≡ failed e
    → is_stale e ≡ false
unfolding encode_postgres_snapshot and_then encoded is_stale
encode_postgres_snapshot-stale codec x e h = ground (arith, snapshot_from_message-failed x e)

batch_rows-stale :
    (codec : Codec) (index : ℕ) (inputs : List ActorSnapshot) (e : StoreError)
    → batch_rows codec index inputs ≡ failed e
    → is_stale e ≡ false
unfolding batch_rows and_then is_stale
batch_rows-stale codec index [] e h = absurd (ground arith)
batch_rows-stale codec index (x ∷ rest) e h =
    by_item (encode_postgres_snapshot codec x) refl (batch_rows-stale codec (index + 1) rest e)
  where
    by_item :
        (r : Result (Snapshot × Str × Str))
        → encode_postgres_snapshot codec x ≡ r
        → (batch_rows codec (index + 1) rest ≡ failed e → is_stale e ≡ false)
        → is_stale e ≡ false
    by_item (failed e') is later = ground (arith, encode_postgres_snapshot-stale codec x e' is)
    by_item (returned s) is later = ground arith

pub ready-cases : (s : PostgresStore) → (ready (some s) ≡ none) ⊎ (ready (some s) ≡ some s)
unfolding ready
ready-cases s = by_name s.table refl
  where
    by_name : (t : Str) → s.table ≡ t → (ready (some s) ≡ none) ⊎ (ready (some s) ≡ some s)
    by_name [] e = inl (rw (ready, e) refl)
    by_name (b ∷ t) e = elim (Bool-cases s.connected) [
      | inl there ↦ inr (ground arith)
      | inr missing ↦ inl (ground arith)
    ]

module _ {S : Type 0} (db : Database S) (codec : Codec) (s : PostgresStore)
    (laws : Documented db s.table) (w : S) where
  abbrev versions : S → Str → Option ℤ
  versions = held laws.view laws.normal

  abbrev Keeps : List ActorSnapshot → S × Saved → Type 0
  Keeps inputs r = Promise (versions w) (versions r.0) inputs r.1

  save_batch_postgres-Promise :
      (inputs : List ActorSnapshot) → Keeps inputs (save_batch_postgres db codec (some s) w inputs)
  unfolding save_batch_postgres insert_batch is_stale
  save_batch_postgres-Promise inputs = elim (ready-cases s) [
    | inl broken ↦
        rw (save_batch_postgres, broken) (refused-Promise (versions w) inputs uninitialized refl)
    | inr is ↦ elim (Option-cases (validate_batch inputs)) [
      | inr (e, bad) ↦
          rw (save_batch_postgres, is, bad)
            (refused-Promise (versions w) inputs e (validate_batch-stale inputs e bad))
      | inl good ↦ elim (Result-cases (batch_rows codec 0 inputs)) [
        | inl (e, bad) ↦
            rw (save_batch_postgres, is, good, bad)
              (refused-Promise (versions w) inputs e (batch_rows-stale codec 0 inputs e bad))
        | inr ((values, args), made) ↦
            let (rows, resolved, encodes) =
              resolve_all-batch_rows codec 0 [] inputs (values, args) refl made in
            let distinct = (validate_batch-IsDistinct inputs good).0 in
            let same =
              map-Encodes (row_of codec) actor_key actor_version row_id row_version
                (row_of-keeps codec) (versions w) inputs rows encodes in
            rw (save_batch_postgres, is, good, made)
              (read_ids-Promise codec laws.view laws.normal w _ inputs rows encodes _
                ((storing laws).inserts w values args rows resolved (rw same distinct)))
      ]
    ]
  ]

  module _ (input : ActorSnapshot) (encoding : Snapshot × Str × Str)
      (made : encode_postgres_snapshot codec input ≡ returned encoding) where
    abbrev one_row : List Columns
    one_row = columns_of encoding ∷ []

    one-Encodes : Encodes (row_of codec) (input ∷ []) one_row
    one-Encodes = (ap if_returned made, tt)

    accepted_ids :
        (w' : S)
        → written_ids laws.view laws.normal w one_row
          ≡ accepted actor_key actor_version (versions w) (input ∷ [])
    accepted_ids w' =
        written_ids-accepted codec laws.view laws.normal w w' (input ∷ []) one_row one-Encodes

    -- One snapshot, by what the client answers.
    scanned_one-Promise :
        (w' : S) (id : Str) (reply : Row Str)
        → id ≡ input.actor_id
        → InsertedId laws.view laws.normal w w' (columns_of encoding) reply
        → Keeps (input ∷ []) (saved_one db input.actor_id (scanned_one db id (w', reply)))
    unfolding saved_one scanned_one only_stale
    scanned_one-Promise w' id (row id') is inserted =
        let (wrote, ids) = inserted.one id' refl in
        let written =
          versions_written codec laws.view laws.normal w w' (input ∷ []) one_row one-Encodes
            wrote in
        record {
          effect = λ id. inl (written id);
          answer = λ t.
              stored-Answer (versions w) (versions w') input written
                (λ e. absurd (ground (arith, accepted_ids w')));
        }
    scanned_one-Promise w' id no_rows is inserted =
        let (wrote, ids) = inserted.nothing refl in
        let written =
          versions_written codec laws.view laws.normal w w' (input ∷ []) one_row one-Encodes
            wrote in
        record {
          effect = λ id. inl (written id);
          answer = λ t.
              stale-Answer (versions w) (versions w') input written (saving id stale)
                (ground (arith, accepted_ids w'));
        }
    scanned_one-Promise w' id (row_error e) is inserted = record {
      effect =
          effect-versions codec laws.view laws.normal w w' (input ∷ []) one_row one-Encodes
            inserted.effect;
      answer = λ t. absurd (ground arith);
    }

  -- The promise of a call of saveOnePostgres whose end is known.
  by_end :
      (input : ActorSnapshot) (r : S × Option StoreError)
      → save_one_postgres db codec (some s) w input ≡ r
      → Keeps (input ∷ []) (saved_one db input.actor_id r)
      → Keeps
          (input ∷ [])
          (saved_one db input.actor_id (save_one_postgres db codec (some s) w input))
  by_end input r e p = subst (λ q. Keeps (input ∷ []) (saved_one db input.actor_id q)) (sym e) p

  save_one_postgres-Promise :
      (input : ActorSnapshot)
      → Keeps
          (input ∷ [])
          (saved_one db input.actor_id (save_one_postgres db codec (some s) w input))
  unfolding save_one_postgres insert_one saved_one is_stale contains
  save_one_postgres-Promise input = elim (ready-cases s) [
    | inl broken ↦
        by_end input (w, some uninitialized) (rw (save_one_postgres, broken) refl)
          (refused-Promise (versions w) (input ∷ []) uninitialized refl)
    | inr is ↦ elim (Result-cases (encode_postgres_snapshot codec input)) [
      | inl (e, bad) ↦
          by_end input (w, some e) (rw (save_one_postgres, is, bad) refl)
            (refused-Promise (versions w) (input ∷ []) e
              (encode_postgres_snapshot-stale codec input e bad))
      | inr ((doc, state, dedup), made) ↦
          by_end input (insert_one db s w (doc, state, dedup))
            (rw (save_one_postgres, is, made) refl)
            (scanned_one-Promise input (doc, state, dedup) made _ doc.actor_id _
              (ap (λ (d : Snapshot). d.actor_id)
                (encode_postgres_snapshot-returned codec input (doc, state, dedup) made))
              ((storing laws).inserts_one w _ (arguments (doc, state, dedup)) _
                (one_resolved (doc, state, dedup))))
    ]
  ]

  -- With a database that does what PostgreSQL documents, Save of any snapshots leaves each version that
  -- is held as it is or makes it that of the actor's snapshot, if that is not stale: the held one
  -- is not above it. If it ends without
  -- an error, or with one that says that versions are stale and nothing else, then every snapshot that
  -- is not stale is written, the ids that it returns are those of these snapshots, in some order, and
  -- there is no error if and only if no snapshot is stale.
  pub save-Promise :
      (inputs : List ActorSnapshot)
      → Promise
          (versions w)
          (versions (save db codec (some s) w inputs).0)
          inputs
          (save db codec (some s) w inputs).1
  unfolding save accepted rejected chosen
  save-Promise [] = record {
    effect = λ id. inr refl;
    answer = λ t. record {
      written = λ id. refl;
      success = Perm.refl [];
      all_of_none = λ e. refl;
      none_of_all = λ e. refl;
    };
  }
  save-Promise (input ∷ []) = save_one_postgres-Promise input
  save-Promise (first ∷ second ∷ rest) = save_batch_postgres-Promise (first ∷ second ∷ rest)
