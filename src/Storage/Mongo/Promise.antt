-- ===== src/Storage/Mongo/Promise.antt =====
-- storage/mongo.go: Save keeps the promise of a store, by what MongoDB documents.
use goactor.Prelude.{
  ◌≡◌, refl, sym, ap, inl, inr, ◌&&◌, List, [], ◌∷◌, map, Option, none, some, ℤ, pos, eq_ℤ, Str,
  arith, Option-cases, Bool-cases,
}
use mathlib.Core.List.Perm
use mathlib.Core.Path.{subst}
use goactor.Message.{ActorSnapshot}
use goactor.Storage.{
  StoreError, Saved, stale, saving, uninitialized, is_stale, snapshot_from_message, validate_batch,
}
use goactor.Storage.Table.{
  accepted, rejected, chosen, Encodes, IsDistinct, map-Encodes, accepted-Encodes,
}
use goactor.Storage.Checks.{
  actor_key, actor_version, document_of, AllSound, validate_batch-IsDistinct, validate_batch-stale,
  snapshot_from_message-failed, snapshot_from_message-returned, Result-cases,
}
use goactor.Storage.Contract.{
  Promise, VersionsWritten, stored-Answer, stale-Answer, only_stale, refused-Promise,
}
use goactor.Storage.Mongo.Meets.{storing, models-guarded}
use goactor.Storage.Mongo.{MongoStore, Client, Updated, counts, duplicate_key, update_error}
use goactor.Storage.Mongo.Save.{
  bulk_saved, update_of, save, save_one, save_batch, saved_one, write_models, updated_one,
  update_of,
}
use goactor.Storage.Mongo.Behaviour.{Documented, document_version}
use goactor.Storage.Mongo.Meaning.{
  UpdatedOne, held, Wrote, written_ids, update_id, update_bound, Guarded, guarded_of,
  guarded_models, update_from,
}
use goactor.Storage.Mongo.Bulk.{ready-cases, bulk_saved-Promise}
use goactor.Storage.Mongo.Refine.{sound_update, sound_update-keeps, models-Encodes, one_written}

module _ {S : Type 0} (client : Client S) (s : MongoStore) (laws : Documented client s.collection)
    (w : S) where
  abbrev versions : S → Str → Option ℤ
  versions = held laws.view

  abbrev Keeps : List ActorSnapshot → S × Saved → Type 0
  Keeps inputs r = Promise (versions w) (versions r.0) inputs r.1

  models-IsDistinct :
      (inputs : List ActorSnapshot)
      → AllSound inputs
      → IsDistinct (map actor_key inputs)
      → IsDistinct (map update_id (guarded_models inputs))
  models-IsDistinct inputs sound distinct =
      rw
        (map-Encodes sound_update actor_key actor_version update_id update_bound sound_update-keeps
          (versions w) inputs (guarded_models inputs) (models-Encodes inputs sound))
        distinct

  write_models-Promise :
      (inputs : List ActorSnapshot)
      → AllSound inputs
      → IsDistinct (map actor_key inputs)
      → Keeps inputs (write_models client s.collection w inputs)
  unfolding write_models
  write_models-Promise inputs sound distinct =
      subst
        (λ us.
          let r = client.bulk_write w s.collection us in Keeps inputs (r.0, bulk_saved inputs r.1))
        (sym (models-guarded inputs))
        (bulk_saved-Promise laws.view w _ inputs sound _ (
          (storing laws).writes w (guarded_models inputs)
            (models-IsDistinct inputs sound distinct)))

  save_batch-Promise :
      (first : ActorSnapshot) (rest : List ActorSnapshot)
      → Keeps (first ∷ rest) (save_batch client (some s) w (first ∷ rest))
  unfolding save_batch
  save_batch-Promise first rest = elim (ready-cases s) [
    | inl broken ↦
        rw (save_batch, broken)
          (refused-Promise (versions w) (first ∷ rest) uninitialized (unfold is_stale in refl))
    | inr is ↦ elim (Option-cases (validate_batch (first ∷ rest))) [
      | inr (e, bad) ↦
          rw (save_batch, is, bad)
            (refused-Promise (versions w) (first ∷ rest) e
              (validate_batch-stale (first ∷ rest) e bad))
      | inl good ↦
          let (distinct, sound) = validate_batch-IsDistinct (first ∷ rest) good in
          rw (save_batch, is, good) (write_models-Promise (first ∷ rest) sound distinct)
    ]
  ]

  module _ (input : ActorSnapshot) where
    abbrev one : Guarded
    one = guarded_of (document_of input)

    one-Encodes : Encodes sound_update (input ∷ []) (one ∷ [])
    one-Encodes = (refl, tt)

    one-versions :
        (w' : S)
        → Wrote laws.view w w' (one ∷ [])
        → VersionsWritten (versions w) (versions w') (input ∷ [])
    one-versions w' wrote id =
        one_written laws.view w w' (input ∷ []) (one ∷ []) one-Encodes id (wrote id)

    one_ids :
        (w' : S)
        → written_ids laws.view w (one ∷ [])
          ≡ accepted actor_key actor_version (versions w) (input ∷ [])
    one_ids w' =
        accepted-Encodes sound_update actor_key actor_version update_id update_bound
          sound_update-keeps (versions w) (input ∷ []) (one ∷ []) one-Encodes

    one_stored :
        (w' : S)
        → Wrote laws.view w w' (one ∷ [])
        → written_ids laws.view w (one ∷ []) ≡ input.actor_id ∷ []
        → Keeps (input ∷ []) (w', record { success = input.actor_id ∷ []; err = none })
    one_stored w' wrote ids = record {
      effect = λ id. inl (one-versions w' wrote id);
      answer = λ t.
          stored-Answer (versions w) (versions w') input (one-versions w' wrote)
            (λ e. absurd (ground (arith, one_ids w')));
    }

    one_stale :
        (w' : S)
        → Wrote laws.view w w' (one ∷ [])
        → written_ids laws.view w (one ∷ []) ≡ []
        → Keeps (input ∷ []) (w', record { success = []; err = some (saving input.actor_id stale) })
    one_stale w' wrote ids = record {
      effect = λ id. inl (one-versions w' wrote id);
      answer = λ t.
          stale-Answer (versions w) (versions w') input (one-versions w' wrote)
            (saving input.actor_id stale) (ground (arith, one_ids w'));
    }

    -- One snapshot, by what the client answers.
    updated_one-Promise :
        (w' : S) (reply : Updated)
        → UpdatedOne laws.view w w' one reply
        → Keeps
            (input ∷ [])
            (saved_one client input.actor_id (w', updated_one input.actor_id reply))
    unfolding saved_one updated_one only_stale guarded_of
    updated_one-Promise w' (counts matched upserted) law =
        let (wrote, ids) = law.some_counts matched upserted refl in
        elim (Bool-cases (eq_ℤ matched (pos 0) && eq_ℤ upserted (pos 0))) [
          | inl zero_counts ↦ rw zero_counts (one_stale w' wrote (ground arith))
          | inr some_count ↦ rw some_count (one_stored w' wrote (ground arith))
        ]
    updated_one-Promise w' (duplicate_key text) law =
        let (wrote, ids) = law.duplicate text refl in one_stale w' wrote ids
    updated_one-Promise w' (update_error text) law = record {
      effect = λ id. elim (law.effect id) [
        | inl h ↦ inl (one_written laws.view w w' (input ∷ []) (one ∷ []) one-Encodes id h)
        | inr kept ↦ inr (ap document_version kept)
      ];
      answer = λ t. absurd (ground arith);
    }

    by_end :
        (r : S × Option StoreError)
        → save_one client (some s) w input ≡ r
        → Keeps (input ∷ []) (saved_one client input.actor_id r)
        → Keeps (input ∷ []) (saved_one client input.actor_id (save_one client (some s) w input))
    by_end r e p = subst (λ q. Keeps (input ∷ []) (saved_one client input.actor_id q)) (sym e) p

    save_one-Promise :
        Keeps (input ∷ []) (saved_one client input.actor_id (save_one client (some s) w input))
    unfolding save_one saved_one is_stale guarded_of update_from update_of
    save_one-Promise = elim (ready-cases s) [
      | inl broken ↦
          by_end (w, some uninitialized) (rw (save_one, broken) refl)
            (refused-Promise (versions w) (input ∷ []) uninitialized refl)
      | inr is ↦ elim (Result-cases (snapshot_from_message input)) [
        | inl (e, bad) ↦
            by_end (w, some e) (rw (save_one, is, bad) refl)
              (refused-Promise (versions w) (input ∷ []) e
                (snapshot_from_message-failed input e bad))
        | inr (doc, made) ↦
            let (w', reply) = client.update_one w s.collection (update_from one) in
            by_end (w', updated_one input.actor_id reply)
              (rw (save_one, is, made, snapshot_from_message-returned input doc made) refl)
              (updated_one-Promise w' reply ((storing laws).updates w one))
      ]
    ]

  -- With a database that does what MongoDB documents, Save of any snapshots leaves each version that
  -- is held as it is or makes it that of the actor's snapshot, if that is not stale: the held one
  -- is not above it. If it ends without
  -- an error, or with one that says that versions are stale and nothing else, then every snapshot that
  -- is not stale is written, the ids that it returns are those of these snapshots, in some order, and
  -- there is no error if and only if no snapshot is stale.
  pub save_mongo-Promise :
      (inputs : List ActorSnapshot)
      → Promise
          (versions w)
          (versions (save client (some s) w inputs).0)
          inputs
          (save client (some s) w inputs).1
  unfolding save save_batch accepted rejected chosen
  save_mongo-Promise [] = record {
    effect = λ id. inr refl;
    answer = λ t. record {
      written = λ id. refl;
      success = Perm.refl [];
      all_of_none = λ e. refl;
      none_of_all = λ e. refl;
    };
  }
  save_mongo-Promise (input ∷ []) = save_one-Promise input
  save_mongo-Promise (first ∷ second ∷ rest) = save_batch-Promise first (second ∷ rest)
