-- ===== src/Storage/Mongo/Loading.antt =====
-- storage/mongo.go: Load keeps the promise of a store, by what MongoDB documents.
use goactor.Prelude.{◌≡◌, refl, inl, inr, Option, some, ℤ, Str, arith, Option-cases}
use mathlib.Core.Path.{subst}
use goactor.Storage.{uninitialized, validate_actor_id, message}
use goactor.Storage.Contract.{Loaded, unmoved, Below}
use goactor.Storage.Mongo.Meets.{storing}
use goactor.Storage.Mongo.{
  MongoStore, Client, Found, document, no_documents, find_error, load, loaded,
}
use goactor.Storage.Mongo.Behaviour.{Documented}
use goactor.Storage.Mongo.Meaning.{Counted, held}
use goactor.Storage.Mongo.Bulk.{ready-cases}

module _ {S : Type 0} (client : Client S) (s : MongoStore) (laws : Documented client s.collection)
    (w : S) where
  abbrev versions : S → Str → Option ℤ
  versions = held laws.view

  loaded-Loaded :
      (id : Str) (w' : S) (reply : Found)
      → Counted laws.view w w' id reply
      → Loaded
          (versions w)
          (versions (loaded client id (w', reply)).0)
          id
          (loaded client id (w', reply)).1
  unfolding loaded message
  loaded-Loaded id w' (document doc) law = record {
    effect = law.effect;
    answer = λ x h.
        let (own, is, below) = law.found doc refl in
        let same : doc.version ≡ x.version = ground arith in
        (ground arith, ground arith, subst (Below (versions w id)) same below);
  }
  loaded-Loaded id w' no_documents law = record {
    effect = law.effect;
    answer = λ x h. absurd (ground arith);
  }
  loaded-Loaded id w' (find_error e) law = record {
    effect = law.effect;
    answer = λ x h. absurd (ground arith);
  }

  -- Load keeps the promise of a store, if the database does what MongoDB documents.
  pub load-Loaded :
      (id : Str)
      → Loaded
          (versions w)
          (versions (load client (some s) w id).0)
          id
          (load client (some s) w id).1
  unfolding load
  load-Loaded id = elim (ready-cases s) [
    | inl broken ↦ rw (load, broken) (unmoved (versions w) id uninitialized)
    | inr is ↦ elim (Option-cases (validate_actor_id id)) [
      | inr (e, bad) ↦ rw (load, is, bad) (unmoved (versions w) id e)
      | inl good ↦ rw (load, is, good) (loaded-Loaded id _ _ ((storing laws).increments w id))
    ]
  ]
