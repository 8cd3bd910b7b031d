-- ===== src/Storage/Agree.antt =====
-- storage/postgres.go and storage/mongo.go: both are stores, and they agree.
use goactor.Prelude.{◌≡◌, sym, ◌∙◌, ap, ◌↔◌, true, List, Option, none, some, ℤ, Str}
use mathlib.Core.List.{Perm}
use mathlib.Core.List.Perm
use mathlib.Core.Path.{fun_ext, subst}
use goactor.Message.{ActorSnapshot}
use goactor.Storage.{Saved}
use goactor.Storage.Table.{accepted, rejected, chosen}
use goactor.Storage.Checks.{actor_key, actor_version}
use goactor.Storage.Contract.{Answer, settled, version_after}
use goactor.Storage.Fencing.{Store}
use goactor.Storage.Postgres.Behaviour.{Documented}
use goactor.Storage.Postgres.Meaning.{held}
use goactor.Storage.Postgres.{Database, Codec, PostgresStore}
use goactor.Storage.Postgres.Save.{save}
use goactor.Storage.Postgres.Load.{load}
use goactor.Storage.Postgres.Promise.{save-Promise}
use goactor.Storage.Postgres.Increment.{load-Loaded}
use goactor.Storage.Mongo.{Client, MongoStore, load as load_document}
use goactor.Storage.Mongo.Behaviour.{Documented as DocumentedMongo}
use goactor.Storage.Mongo.Meaning.{held as held_document}
use goactor.Storage.Mongo.Save.{save as save_documents}
use goactor.Storage.Mongo.Promise.{save_mongo-Promise}
use goactor.Storage.Mongo.Loading.{load-Loaded as load_document-Loaded}

-- What two saves say that start from the same versions.
answers-agree :
    (before after before' after' : Str → Option ℤ) (inputs : List ActorSnapshot)
    (saved saved' : Saved)
    → before ≡ before'
    → Answer before after inputs saved
    → Answer before' after' inputs saved'
    → Perm saved.success saved'.success
      × ((saved.err ≡ none) ↔ (saved'.err ≡ none))
      × ((id : Str) → after id ≡ after' id)
answers-agree before after before' after' inputs saved saved' same a b =
    let ids : accepted actor_key actor_version before' inputs
        ≡ accepted actor_key actor_version before inputs =
      ap (λ h. accepted actor_key actor_version h inputs) (sym same) in
    let left : rejected actor_key actor_version before' inputs
        ≡ rejected actor_key actor_version before inputs =
      ap (λ h. rejected actor_key actor_version h inputs) (sym same) in
    (
      Perm.trans a.success (Perm.symm (subst (λ l. Perm saved'.success l) ids b.success)),
      (
        (λ e. b.none_of_all (left ∙ a.all_of_none e)),
        λ e. a.none_of_all (sym left ∙ b.all_of_none e),
      ),
      λ id.
          a.written id
          ∙ ap (λ h. version_after (h id) (chosen actor_key actor_version h inputs id)) same
          ∙ sym (b.written id),
    )

-- Both databases give a store.
abbrev pub postgres_store :
    {S : Type 0} (db : Database S) → Codec → (s : PostgresStore) → Documented db s.table → Store
postgres_store {S} db codec s laws = record {
  State = S;
  held = held laws.view laws.normal;
  save = save db codec (some s);
  load = load db codec (some s);
  save_promise = save-Promise db codec s laws;
  load_promise = load-Loaded db codec s laws;
}

abbrev pub mongo_store :
    {S : Type 0} (client : Client S) (s : MongoStore) → DocumentedMongo client s.collection → Store
mongo_store {S} client s laws = record {
  State = S;
  held = held_document laws.view;
  save = save_documents client (some s);
  load = load_document client (some s);
  save_promise = save_mongo-Promise client s laws;
  load_promise = load_document-Loaded client s laws;
}

-- If a PostgreSQL and a MongoDB database hold the same versions and do what they document, and Save of
-- the same snapshots ends in each without an error or with one that says that versions are stale and
-- nothing else, then both return the same ids, up to their order, one ends without an error if and only
-- if the other does, and both hold the same versions afterwards.
pub save-agree :
    {S S' : Type 0} (db : Database S) (codec : Codec) (s : PostgresStore)
    (laws : Documented db s.table) (client : Client S') (s' : MongoStore)
    (laws' : DocumentedMongo client s'.collection) (w : S) (w' : S') (inputs : List ActorSnapshot)
    → ((id : Str) → held laws.view laws.normal w id ≡ held_document laws'.view w' id)
    → settled (save db codec (some s) w inputs).1.err ≡ true
    → settled (save_documents client (some s') w' inputs).1.err ≡ true
    → Perm
        (save db codec (some s) w inputs).1.success
        (save_documents client (some s') w' inputs).1.success
      × (((save db codec (some s) w inputs).1.err ≡ none)
          ↔ ((save_documents client (some s') w' inputs).1.err ≡ none))
      × ((id : Str)
          → held laws.view laws.normal (save db codec (some s) w inputs).0 id
            ≡ held_document laws'.view (save_documents client (some s') w' inputs).0 id)
save-agree db codec s laws client s' laws' w w' inputs same t t' =
    answers-agree (held laws.view laws.normal w) (held laws.view laws.normal _)
      (held_document laws'.view w') (held_document laws'.view _) inputs _ _ (fun_ext same)
      ((save-Promise db codec s laws w inputs).answer t)
      ((save_mongo-Promise client s' laws' w' inputs).answer t')
