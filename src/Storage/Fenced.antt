-- ===== src/Storage/Fenced.antt =====
-- storage/postgres.go and storage/mongo.go: the last owner that loaded a snapshot fences off the others.
use goactor.Prelude.{◌≡◌, true, false, List, some, Str, Str_discrete}
use goactor.Prelude.Assoc.{contains}
use goactor.Message.{ActorSnapshot}
use goactor.Storage.{returned}
use goactor.Storage.Contract.{settled}
use goactor.Storage.Fencing.{Calls, AllBelow, Calls-Fenced}
use goactor.Storage.Agree.{postgres_store, mongo_store}
use goactor.Storage.Postgres.{Database, Codec, PostgresStore}
use goactor.Storage.Postgres.Save.{save}
use goactor.Storage.Postgres.Load.{load}
use goactor.Storage.Postgres.Behaviour.{Documented}
use goactor.Storage.Postgres.Meaning.{held}
use goactor.Storage.Mongo.{Client, MongoStore, load as load_document}
use goactor.Storage.Mongo.Save.{save as save_documents}
use goactor.Storage.Mongo.Behaviour.{Documented as DocumentedMongo}
use goactor.Storage.Mongo.Meaning.{held as held_document}

-- With a database that does what PostgreSQL documents of statements of the form of the code's:
-- After a Load that returned a snapshot, and any calls of Save and Load since, however they end, a Save
-- whose snapshots of the actor all have versions below the one that was loaded leaves the version that is
-- held for the actor as it is; and if it ends without an error, or with one that says that versions are
-- stale and nothing else, the actor is not among the ids that it returns.
pub postgres-Fenced :
    {S : Type 0} (db : Database S) (codec : Codec) (s : PostgresStore)
    (laws : Documented db s.table) (w : S) {w' : S} (id : Str) (x : ActorSnapshot)
    (inputs : List ActorSnapshot)
    → (load db codec (some s) w id).1 ≡ returned x
    → Calls (postgres_store db codec s laws) (load db codec (some s) w id).0 w'
    → AllBelow id x.version inputs
    → (held laws.view laws.normal (save db codec (some s) w' inputs).0 id
        ≡ held laws.view laws.normal w' id)
      × (settled (save db codec (some s) w' inputs).1.err ≡ true
          → contains Str_discrete (save db codec (some s) w' inputs).1.success id ≡ false)
postgres-Fenced db codec s laws w id x inputs loaded calls below =
    let fenced = Calls-Fenced (postgres_store db codec s laws) w id x inputs loaded calls below in
    (fenced.unchanged, fenced.left_out)

-- With a database that does what MongoDB documents of updates of the form of the code's:
-- After a Load that returned a snapshot, and any calls of Save and Load since, however they end, a Save
-- whose snapshots of the actor all have versions below the one that was loaded leaves the version that is
-- held for the actor as it is; and if it ends without an error, or with one that says that versions are
-- stale and nothing else, the actor is not among the ids that it returns.
pub mongo-Fenced :
    {S : Type 0} (client : Client S) (s : MongoStore) (laws : DocumentedMongo client s.collection)
    (w : S) {w' : S} (id : Str) (x : ActorSnapshot) (inputs : List ActorSnapshot)
    → (load_document client (some s) w id).1 ≡ returned x
    → Calls (mongo_store client s laws) (load_document client (some s) w id).0 w'
    → AllBelow id x.version inputs
    → (held_document laws.view (save_documents client (some s) w' inputs).0 id
        ≡ held_document laws.view w' id)
      × (settled (save_documents client (some s) w' inputs).1.err ≡ true
          → contains Str_discrete (save_documents client (some s) w' inputs).1.success id ≡ false)
mongo-Fenced client s laws w id x inputs loaded calls below =
    let fenced = Calls-Fenced (mongo_store client s laws) w id x inputs loaded calls below in
    (fenced.unchanged, fenced.left_out)
