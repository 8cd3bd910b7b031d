-- ===== src/Storage/Mongo/Meaning.antt =====
-- What the updates of storage/mongo.go do to the documents and the versions, by what MongoDB documents of
-- updates of their form.
use goactor.Prelude.{
  ℕ, ◌+◌, ◌≡◌, ◌⊎◌, true, false, ◌&&◌, List, [], ◌∷◌, map, Option, none, some, if◌then◌else◌, ℤ,
  pos, eq_ℤ, Str,
}
use mathlib.Core.List.{Perm}
use goactor.Message.{ActorSnapshot}
use goactor.Storage.{Snapshot, snapshot_from_message}
use goactor.Storage.Table.{accepts, accepted, chosen, IsDistinct}
use goactor.Storage.Contract.{NextOf, Below}
use goactor.Storage.Mongo.{
  Update, Updated, counts, duplicate_key, WriteError, BulkError, bulk_exception, Found, document,
  Client, compares, lte, exists, set_actor_type, set_version, set_offset, set_state, set_dedup,
}
use goactor.Storage.Mongo.Save.{indices, snapshot_or_empty}
use goactor.Storage.Mongo.Behaviour.{Document, document_version, all_duplicates}

-- The document of a snapshot, with the bound of the filter.
pub record Fields : Type 0 where
  pub actor_type : Str
  pub version : ℤ
  pub offset : ℤ
  pub state : Str
  pub dedup : List Str

pub record Guarded : Type 0 where
  pub id : Str
  pub bound : ℤ
  pub fields : Fields

unfoldable pub guarded_of : Snapshot → Guarded
guarded_of doc = record {
  id = doc.actor_id;
  bound = doc.version;
  fields = record {
    actor_type = doc.actor_type;
    version = doc.version;
    offset = doc.offset;
    state = doc.state;
    dedup = doc.dedup;
  };
}

-- Its update, the fields being those of the bound.
unfoldable pub update_from : Guarded → Update
update_from u = record {
  id = u.id;
  any_of = compares lte u.bound ∷ exists false ∷ [];
  set =
      set_actor_type u.fields.actor_type
      ∷ set_version u.fields.version
      ∷ set_offset u.fields.offset
      ∷ set_state u.fields.state
      ∷ set_dedup u.fields.dedup
      ∷ [];
  upsert = true;
}

unfoldable pub guarded_models : List ActorSnapshot → List Guarded
guarded_models [] = []
guarded_models (input ∷ rest) =
    guarded_of (snapshot_or_empty (snapshot_from_message input)) ∷ guarded_models rest

abbrev pub update_id : Guarded → Str
update_id u = u.id

abbrev pub update_bound : Guarded → ℤ
update_bound u = u.bound

abbrev pub updated : Option Document → Option Guarded → Option Document
updated old none = old
updated old (some u) = some (record {
  actor_type = u.fields.actor_type;
  version = some u.fields.version;
  offset = u.fields.offset;
  state = u.fields.state;
  dedup = u.fields.dedup;
})

-- The positions of the updates whose filter does not match, from an index on.
unfoldable pub stale_positions : (Str → Option ℤ) → ℕ → List Guarded → List ℤ
stale_positions held index [] = []
stale_positions held index (u ∷ rest) =
    let others = stale_positions held (index + 1) rest in
    if accepts (held u.id) u.bound then others else pos index ∷ others

module _ {S : Type 0} (view : S → Str → Option Document) where
  abbrev pub held : S → Str → Option ℤ
  held w id = document_version (view w id)

  abbrev pub Wrote : S → S → List Guarded → Type 0
  Wrote w w' us =
      (id : Str) → view w' id ≡ updated (view w id) (chosen update_id update_bound (held w) us id)

  abbrev pub EachWritten : S → S → List Guarded → Type 0
  EachWritten w w' us =
      (id : Str)
      → (view w' id ≡ updated (view w id) (chosen update_id update_bound (held w) us id))
        ⊎ (view w' id ≡ view w id)

  abbrev pub written_ids : S → List Guarded → List Str
  written_ids w us = accepted update_id update_bound (held w) us

  pub record UpdatedOne (w w' : S) (u : Guarded) (reply : Updated) : Type 0 where
    pub effect : EachWritten w w' (u ∷ [])
    pub some_counts :
        (matched upserted : ℤ)
        → reply ≡ counts matched upserted
        → Wrote w w' (u ∷ [])
          × (written_ids w (u ∷ [])
              ≡ (if eq_ℤ matched (pos 0) && eq_ℤ upserted (pos 0) then [] else u.id ∷ []))
    pub duplicate :
        (text : Str)
        → reply ≡ duplicate_key text
        → Wrote w w' (u ∷ []) × (written_ids w (u ∷ []) ≡ [])

  pub record BulkWritten (w w' : S) (us : List Guarded) (reply : Option BulkError) : Type 0 where
    pub effect : EachWritten w w' us
    pub written : reply ≡ none → Wrote w w' us × (stale_positions (held w) 0 us ≡ [])
    pub stale_ones :
        (errors : List WriteError)
        → reply ≡ some (bulk_exception errors none)
        → all_duplicates errors ≡ true
        → Wrote w w' us × Perm (indices errors) (stale_positions (held w) 0 us)

  -- An increment of the version. A version above the largest int64 is an error; a document without a
  -- version gets the version 1.
  pub record Counted (w w' : S) (id : Str) (reply : Found) : Type 0 where
    pub effect : (q : Str) → (held w' q ≡ held w q) ⊎ NextOf (held w q) (held w' q)
    pub found :
        (doc : Snapshot)
        → reply ≡ document doc
        → (doc.actor_id ≡ id) × (held w' id ≡ some doc.version) × Below (held w id) doc.version

-- What the calls of the code do.
pub record Storing {S : Type 0} (client : Client S) (collection : Str)
    (view : S → Str → Option Document) : Type 0 where
  pub updates :
      (w : S) (u : Guarded)
      → UpdatedOne view w
          (client.update_one w collection (update_from u)).0
          u
          (client.update_one w collection (update_from u)).1
  pub writes :
      (w : S) (us : List Guarded)
      → IsDistinct (map update_id us)
      → BulkWritten view w
          (client.bulk_write w collection (map update_from us)).0
          us
          (client.bulk_write w collection (map update_from us)).1
  pub increments :
      (w : S) (id : Str)
      → Counted view w
          (client.find_one_and_update w collection (record { id = id; by = pos 1; after = true })).0
          id
          (client.find_one_and_update w collection (record { id = id; by = pos 1; after = true })).1
