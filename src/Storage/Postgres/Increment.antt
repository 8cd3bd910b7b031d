-- ===== src/Storage/Postgres/Increment.antt =====
-- storage/postgres.go: Load keeps the promise of a store, by what PostgreSQL documents.
use goactor.Prelude.{
  ◌≡◌, refl, ◌∙◌, ap, ◌⊎◌, inl, inr, Option, none, some, ℤ, pos, ◌+ℤ◌, ◌<ℤ◌, Str, Str_discrete,
  arith, Option-cases,
}
use goactor.Message.{ActorSnapshot}
use goactor.Storage.{Snapshot, returned, message, validate_actor_id, uninitialized}
use goactor.Storage.Contract.{Loaded, NextOf, Below, unmoved}
use goactor.Storage.Postgres.Meets.{storing}
use goactor.Storage.Postgres.{
  Database, Codec, PostgresStore, Row, row, no_rows, row_error, Columns, decode_postgres_state,
}
use goactor.Storage.Postgres.Load.{load, loaded}
use goactor.Storage.Postgres.Behaviour.{Documented}
use goactor.Storage.Postgres.Meaning.{Counted, Incremented, Rises, Kept, held, version_at, bumped}
use goactor.Storage.Postgres.Encoding.{and_then-returned}
use goactor.Storage.Checks.{Result-cases}
use goactor.Storage.Postgres.Promise.{ready-cases}

decode_postgres_state-returned :
    (codec : Codec) (c : Columns) (doc : Snapshot)
    → decode_postgres_state codec c ≡ returned doc
    → (doc.actor_id ≡ c.actor_id) × (doc.version ≡ c.version)
unfolding decode_postgres_state
decode_postgres_state-returned codec c doc h =
    let (state, _, h1) = and_then-returned _ _ doc h in
    let (dedup, _, h2) = and_then-returned _ _ doc h1 in (ground arith, ground arith)

module _ {S : Type 0} (view : S → Str → Option Columns) (normal : Str → Str) (w w' : S)
    (id : Str) where
  bumped-Risen :
      (q : Str) (o o' : Option Columns)
      → o' ≡ bumped o
      → ((v : ℤ) → version_at o ≡ some v → v <ℤ v +ℤ pos 1)
      → (version_at o' ≡ version_at o) ⊎ NextOf (version_at o) (version_at o')
  bumped-Risen q none o' is h = inl (ap version_at is)
  bumped-Risen q (some c) o' is h = inr (ap version_at is, h c.version refl)

  effect-Risen :
      (Incremented view normal w w' id × Rises view normal w id) ⊎ Kept view normal w w'
      → (q : Str)
      → (held view normal w' q ≡ held view normal w q)
        ⊎ NextOf (held view normal w q) (held view normal w' q)
  effect-Risen (inr kept) q = inl (ap version_at (kept q))
  effect-Risen (inl (raised, rises)) q = elim (Str_discrete id q) [
    | yes p ↦
        let is : view w' q ≡ bumped (view w q) = ground (arith, raised q) in
        bumped-Risen q (view w q) (view w' q) is
          (λ v e. rises v (ap (λ r. version_at (view w r)) p ∙ e))
    | no p ↦ let is : view w' q ≡ view w q = ground (arith, raised q) in inl (ap version_at is)
  ]

module _ {S : Type 0} (db : Database S) (codec : Codec) (s : PostgresStore)
    (laws : Documented db s.table) (w : S) (id : Str) where
  abbrev versions : S → Str → Option ℤ
  versions = held laws.view laws.normal

  -- The snapshot that a row is decoded to.
  row-answer :
      (w' : S) (c : Columns) (x : ActorSnapshot)
      → Counted laws.view laws.normal w w' id (row c)
      → (loaded db codec id (w', row c)).1 ≡ returned x
      → (x.actor_id ≡ id) × (versions w' id ≡ some x.version) × Below (versions w id) x.version
  unfolding loaded message
  row-answer w' c x counted h = elim (Result-cases (decode_postgres_state codec c)) [
    | inl (e, bad) ↦ absurd (ground arith)
    | inr (doc, made) ↦
        let (same_id, same_version) = decode_postgres_state-returned codec c doc made in
        let (raised, rises, is, own) = counted.one c refl in
        elim (Option-cases (laws.view w id)) [
          | inl missing ↦ absurd (ground (arith, raised id))
          | inr (old, was) ↦
              let rise = rises old.version (ap version_at was) in
              let next : x.version ≡ old.version +ℤ pos 1 = ground (arith, raised id) in
              (ground arith, ground arith, rw (was, next) rise)
        ]
  ]

  loaded-Loaded :
      (w' : S) (reply : Row Columns)
      → Counted laws.view laws.normal w w' id reply
      → Loaded
          (versions w)
          (versions (loaded db codec id (w', reply)).0)
          id
          (loaded db codec id (w', reply)).1
  unfolding loaded
  loaded-Loaded w' (row c) counted = record {
    effect = effect-Risen laws.view laws.normal w w' id counted.effect;
    answer = λ x h. row-answer w' c x counted h;
  }
  loaded-Loaded w' no_rows counted = record {
    effect = effect-Risen laws.view laws.normal w w' id counted.effect;
    answer = λ x h. absurd (ground arith);
  }
  loaded-Loaded w' (row_error e) counted = record {
    effect = effect-Risen laws.view laws.normal w w' id counted.effect;
    answer = λ x h. absurd (ground arith);
  }

  -- Load keeps the promise of a store, if the database does what PostgreSQL documents.
  pub load-Loaded :
      Loaded
        (versions w)
        (versions (load db codec (some s) w id).0)
        id
        (load db codec (some s) w id).1
  unfolding load
  load-Loaded = elim (ready-cases s) [
    | inl broken ↦ rw (load, broken) (unmoved (versions w) id uninitialized)
    | inr is ↦ elim (Option-cases (validate_actor_id id)) [
      | inr (e, bad) ↦ rw (load, is, bad) (unmoved (versions w) id e)
      | inl good ↦ rw (load, is, good) (loaded-Loaded _ _ ((storing laws).increments w id))
    ]
  ]
