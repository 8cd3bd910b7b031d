-- ===== src/Storage/Postgres/RoundTrip.antt =====
-- storage/postgres.go: a snapshot that is saved comes back.
use goactor.Prelude.{
  ◌≡◌, ◌≢◌, refl, sym, ◌∙◌, ap, ◌⊎◌, inl, inr, true, [], ◌∷◌, Option, none, some, ℤ, pos, ◌+ℤ◌, Str,
  bytes, arith, Bool-cases,
}
use mathlib.Core.Path.{subst}
use goactor.Message.{ActorSnapshot}
use goactor.Storage.{
  Snapshot, StoreError, Saved, returned, failed, uninitialized, driver_error, loading, message,
  validate_actor_id, snapshot_from_message,
}
use goactor.Storage.Table.{accepted, chosen}
use goactor.Storage.Checks.{Result-cases}
use goactor.Storage.Postgres.Meets.{storing}
use goactor.Storage.Postgres.{
  Database, Codec, PostgresStore, Row, row, no_rows, row_error, Columns, ready, and_then, arguments,
  decode_column, is_json_null, encode_postgres_snapshot, decode_postgres_state, encoded,
}
use goactor.Storage.Postgres.Save.{save, saved_one, save_one_postgres, insert_one, scanned_one}
use goactor.Storage.Postgres.Load.{load, loaded}
use goactor.Storage.Postgres.Behaviour.{Documented, row_id, normalised}
use goactor.Storage.Postgres.Meaning.{InsertedId, Counted, held, row_version}
use goactor.Storage.Postgres.Encoding.{columns_of, and_then-returned, one_resolved}
use goactor.Storage.Postgres.Refine.{encode_postgres_snapshot-returned}
use goactor.Storage.Postgres.Promise.{ready-cases}

-- What the JSON of a column does for a value: it is decoded to what was encoded, also as JSONB shows it,
-- it is never empty, and a null is the JSON of nothing.
pub record Decodes {A : Type 0} (encode : A → Option Str) (decode : Str → Option A)
    (normal : Str → Str) (zero_value a : A) : Type 0 where
  pub back : (s : Str) → encode a ≡ some s → decode (normal s) ≡ some a
  pub filled : (s : Str) → encode a ≡ some s → normal s ≢ []
  pub null_is : (s : Str) → encode a ≡ some s → is_json_null (normal s) ≡ true → a ≡ zero_value

decode_column-returned :
    {A : Type 0} (value : Str) (decoded : Option A) (zero_value a : A) (what : Str)
    → value ≢ []
    → decoded ≡ some a
    → (is_json_null value ≡ true → a ≡ zero_value)
    → decode_column value decoded zero_value what ≡ returned a
unfolding decode_column
decode_column-returned [] decoded zero_value a what h is n = absurd (h refl)
decode_column-returned (b ∷ value) decoded zero_value a what h is n =
    elim (Bool-cases (is_json_null (b ∷ value))) [
      | inl null ↦ rw null (ap (λ x. returned x) (sym (n null)))
      | inr other ↦ rw (other, is) refl
    ]

encoded-returned :
    (what : Str) (o : Option Str) (value : Str) → encoded what o ≡ returned value → o ≡ some value
unfolding encoded
encoded-returned what none value h = absurd (ground arith)
encoded-returned what (some v) value h = ground arith

encoding-columns :
    (codec : Codec) (x : ActorSnapshot) (e : Snapshot × Str × Str)
    → encode_postgres_snapshot codec x ≡ returned e
    → (codec.encode_state x.state ≡ some (e.1)) × (codec.encode_dedup x.dedup ≡ some (e.2))
unfolding encode_postgres_snapshot
encoding-columns codec x e h =
    let same = encode_postgres_snapshot-returned codec x e h in
    let (doc, made, h1) = and_then-returned (snapshot_from_message x) _ e h in
    let (state, encoded_state, h2) = and_then-returned _ _ e h1 in
    let (dedup, encoded_dedup, h3) = and_then-returned _ _ e h2 in
    let a = encoded-returned _ (codec.encode_state doc.state) state encoded_state in
    let b = encoded-returned _ (codec.encode_dedup doc.dedup) dedup encoded_dedup in
    (ground arith, ground arith)

-- A row that was accepted is what is written for its id.
chosen-accepted :
    (held : Str → Option ℤ) (r : Columns) (id : Str)
    → accepted row_id row_version held (r ∷ []) ≡ id ∷ []
    → chosen row_id row_version held (r ∷ []) r.actor_id ≡ some r
unfolding accepted chosen
chosen-accepted held r id h = ground arith

module _ {S : Type 0} (db : Database S) (codec : Codec) (s : PostgresStore)
    (laws : Documented db s.table) (w : S) (x : ActorSnapshot) where
  -- What a Save of one snapshot without an error has stored.
  abbrev Stores : S × Saved → Type 0
  Stores r =
      r.1.err ≡ none
      → (encoding : Snapshot × Str × Str) × (encode_postgres_snapshot codec x ≡ returned encoding)
        × (ready (some s) ≡ some s)
        × (laws.view r.0 x.actor_id ≡ some (normalised laws.normal (columns_of encoding)))

  scanned_one-Stores :
      (encoding : Snapshot × Str × Str)
      → encode_postgres_snapshot codec x ≡ returned encoding
      → ready (some s) ≡ some s
      → (w' : S) (reply : Row Str)
      → InsertedId laws.view laws.normal w w' (columns_of encoding) reply
      → Stores (saved_one db x.actor_id (scanned_one db (encoding.0).actor_id (w', reply)))
  unfolding saved_one scanned_one
  scanned_one-Stores encoding made ok w' (row id) inserted = λ h.
      let (wrote, ids) = inserted.one id refl in
      let is = chosen-accepted (held laws.view laws.normal w) (columns_of encoding) id ids in
      let own : (columns_of encoding).actor_id ≡ x.actor_id =
        ap (λ (d : Snapshot). d.actor_id)
          (encode_postgres_snapshot-returned codec x encoding made) in
      (
        encoding,
        made,
        ok,
        subst (λ q. laws.view w' q ≡ some (normalised laws.normal (columns_of encoding))) own
            (wrote (columns_of encoding).actor_id ∙ rw is refl),
      )
  scanned_one-Stores encoding made ok w' no_rows inserted = λ h. absurd (ground arith)
  scanned_one-Stores encoding made ok w' (row_error e) inserted = λ h. absurd (ground arith)

  by_end :
      (r : S × Option StoreError)
      → save_one_postgres db codec (some s) w x ≡ r
      → Stores (saved_one db x.actor_id r)
      → Stores (saved_one db x.actor_id (save_one_postgres db codec (some s) w x))
  by_end r e p = subst (λ q. Stores (saved_one db x.actor_id q)) (sym e) p

  failed-Stores : (w' : S) (e : StoreError) → Stores (saved_one db x.actor_id (w', some e))
  unfolding saved_one
  failed-Stores w' e = λ h. absurd (ground arith)

  save-Stores : Stores (save db codec (some s) w (x ∷ []))
  unfolding save save_one_postgres insert_one
  save-Stores = elim (ready-cases s) [
    | inl broken ↦
        by_end (w, some uninitialized) (rw (save_one_postgres, broken) refl)
          (failed-Stores w uninitialized)
    | inr is ↦ elim (Result-cases (encode_postgres_snapshot codec x)) [
      | inl (e, bad) ↦ by_end (w, some e) (rw (save_one_postgres, is, bad) refl) (failed-Stores w e)
      | inr ((doc, state, dedup), made) ↦
          by_end (insert_one db s w (doc, state, dedup)) (rw (save_one_postgres, is, made) refl) (
            scanned_one-Stores (doc, state, dedup) made is _ _
              ((storing laws).inserts_one w _ (arguments (doc, state, dedup)) _
                (one_resolved (doc, state, dedup))))
    ]
  ]

  -- What Load makes of the row.
  abbrev Back : ActorSnapshot → Type 0
  Back y = y ≡ record x { version = x.version +ℤ pos 1 }

  decoded-Back :
      Decodes codec.encode_state codec.decode_state laws.normal [] x.state
      → Decodes codec.encode_dedup codec.decode_dedup laws.normal [] x.dedup
      → (encoding : Snapshot × Str × Str) → encode_postgres_snapshot codec x ≡ returned encoding
      → (c : Columns)
      → c ≡ record (normalised laws.normal (columns_of encoding)) {
        version = (encoding.0).version +ℤ pos 1;
      }
      → (doc : Snapshot) × (decode_postgres_state codec c ≡ returned doc) × Back (message doc)
  unfolding decode_postgres_state and_then message
  decoded-Back states dedups encoding made c is =
      let (st, dd) = encoding-columns codec x encoding made in
      let same = encode_postgres_snapshot-returned codec x encoding made in
      let state =
        decode_column-returned (laws.normal (encoding.1))
          (codec.decode_state (laws.normal (encoding.1))) [] x.state (bytes "decode state")
          (states.filled (encoding.1) st) (states.back (encoding.1) st)
          (states.null_is (encoding.1) st) in
      let dedup =
        decode_column-returned (laws.normal (encoding.2))
          (codec.decode_dedup (laws.normal (encoding.2))) [] x.dedup (bytes "decode dedup")
          (dedups.filled (encoding.2) dd) (dedups.back (encoding.2) dd)
          (dedups.null_is (encoding.2) dd) in
      let target : Snapshot = record (encoding.0) {
        version = (encoding.0).version +ℤ pos 1;
        state = x.state;
        dedup = x.dedup;
      } in
      let ends : decode_postgres_state codec c ≡ returned target =
        ap (decode_postgres_state codec) is ∙ rw (decode_postgres_state, state, dedup) refl in
      (target, ends, ground arith)

  loaded-Back :
      Decodes codec.encode_state codec.decode_state laws.normal [] x.state
      → Decodes codec.encode_dedup codec.decode_dedup laws.normal [] x.dedup
      → (encoding : Snapshot × Str × Str) → encode_postgres_snapshot codec x ≡ returned encoding
      → (w' w'' : S) → laws.view w' x.actor_id ≡ some (normalised laws.normal (columns_of encoding))
      → (reply : Row Columns) → Counted laws.view laws.normal w' w'' x.actor_id reply
      → ((loaded db codec x.actor_id (w'', reply)).1
          ≡ returned (record x { version = x.version +ℤ pos 1 }))
        ⊎ ((e : Str) × ((loaded db codec x.actor_id (w'', reply)).1
              ≡ failed (loading x.actor_id (driver_error e))))
  unfolding loaded
  loaded-Back states dedups encoding made w' w'' at (row_error e) counted = inr (e, refl)
  loaded-Back states dedups encoding made w' w'' at no_rows counted =
      absurd (ground (arith, (counted.nothing refl).0))
  loaded-Back states dedups encoding made w' w'' at (row c) counted =
      let (raised, rises, is, own) = counted.one c refl in
      let step : c ≡ record (normalised laws.normal (columns_of encoding)) {
        version = (encoding.0).version +ℤ pos 1;
      } =
        ground (arith, raised x.actor_id) in
      let (doc, ends, back) = decoded-Back states dedups encoding made c step in
      inl (rw (loaded, ends) (ap (λ y. returned y) back))

  validate_actor_id-saved :
      (encoding : Snapshot × Str × Str)
      → encode_postgres_snapshot codec x ≡ returned encoding
      → validate_actor_id x.actor_id ≡ none
  unfolding encode_postgres_snapshot snapshot_from_message validate_actor_id
  validate_actor_id-saved encoding made =
      let (doc, sound, _) = and_then-returned (snapshot_from_message x) _ encoding made in
      ground arith

  -- With a database that does what PostgreSQL documents, and JSON texts of the snapshot's state and ids that
  -- decode to them, are not empty, and are a null only where that is nothing: a Load of an actor right after a Save of one
  -- snapshot of it that ended without an error returns that snapshot with the version after its own, or
  -- fails with an error of the database.
  pub load-save :
      Decodes codec.encode_state codec.decode_state laws.normal [] x.state
      → Decodes codec.encode_dedup codec.decode_dedup laws.normal [] x.dedup
      → (save db codec (some s) w (x ∷ [])).1.err ≡ none
      → ((load db codec (some s) (save db codec (some s) w (x ∷ [])).0 x.actor_id).1
          ≡ returned (record x { version = x.version +ℤ pos 1 }))
        ⊎ ((e : Str) × ((load db codec (some s) (save db codec (some s) w (x ∷ [])).0 x.actor_id).1
              ≡ failed (loading x.actor_id (driver_error e))))
  unfolding load
  load-save states dedups h =
      let (encoding, made, ok, at) = save-Stores h in
      let good = validate_actor_id-saved encoding made in
      let w' = (save db codec (some s) w (x ∷ [])).0 in
      rw (load, ok, good)
        (loaded-Back states dedups encoding made w' _ at _
          ((storing laws).increments w' x.actor_id))
