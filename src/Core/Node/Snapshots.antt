-- ===== src/Core/Node/Snapshots.antt =====
-- core/node.go:snapshot and snapshotBatch: the windows and the commits of a node across them.
use goactor.Prelude.{
  refl, not, ◌||◌, ◌==◌, List, [], ◌∷◌, ℤ, Str, Bool-cases, Option-cases, inl, inr,
}
use goactor.Prelude.Assoc.{length}
use goactor.Structs.Map
use goactor.Structs.BoolValue
use goactor.Message.{ActorSnapshot}
use goactor.Message.Shard.{actor_shard_id}
use goactor.Core.Inflight.{InflightComplete}
use goactor.Core.Node.{Env, Node, save, actor_of, modify_actor}
use goactor.Core.Node.Saving.{
  save_snapshot, complete_and_resume, snapshot, waiting, collect, complete_shards, snapshot_batch,
}
use goactor.Core.Node.Progress.{
  AllValid, Progress, Progress-refl, Progress-trans, quiet, same_of_eq, modify_actor-Progress,
  record_call-Progress,
}
use goactor.Core.Node.Commit.{complete_and_resume-Progress}

module _ (env : Env) where
  save_snapshot-Progress :
      (n : Node) (list : List ActorSnapshot) → AllValid n → Progress n (save_snapshot env n list).0
  unfolding save_snapshot
  save_snapshot-Progress n list v = record_call-Progress n (save list) tt v

  -- snapshot commits nothing unsafe.
  pub snapshot-Progress :
      (n : Node) (actor_id : Str) → AllValid n → Progress n (snapshot env n actor_id)
  unfolding snapshot
  snapshot-Progress n actor_id v = elim (Option-cases (actor_of n actor_id)) [
    | inl e ↦ rw (e, snapshot) (Progress-refl v)
    | inr (actor, e) ↦ elim (Bool-cases (BoolValue.get actor.snapshot).1) [
      | inr idle ↦ rw (e, idle, snapshot) (Progress-refl v)
      | inl changed ↦
          let taken = (BoolValue.get actor.snapshot).0 in
          let saved = save_snapshot-Progress n (taken ∷ []) v in
          elim (Bool-cases (save_snapshot env n (taken ∷ [])).2) [
            | inr failed ↦ rw (e, changed, failed, snapshot) saved
            | inl done ↦
                let disabled =
                  modify_actor-Progress _ actor_id
                    (λ a. record a { snapshot = BoolValue.disable a.snapshot }) saved.valid in
                rw (e, changed, done, snapshot)
                  (Progress-trans (Progress-trans saved disabled) (
                    complete_and_resume-Progress env _ (actor_shard_id actor.actor.id) _
                      disabled.valid))
          ]
    ]
  ]

  collect-Progress :
      (n : Node) (ids : List Str) (completed : List (ℤ × List InflightComplete))
      → AllValid n
      → Progress n (collect n ids completed).0
  unfolding collect
  collect-Progress n [] completed v = Progress-refl v
  collect-Progress n (id ∷ ids) completed v = elim (Option-cases (actor_of n id)) [
    | inl e ↦ rw (e, collect) (collect-Progress n ids completed v)
    | inr (actor, e) ↦ elim (Bool-cases (BoolValue.get actor.snapshot).1) [
      | inr idle ↦ rw (e, idle, collect) (collect-Progress n ids completed v)
      | inl enabled ↦
          let disabled =
            modify_actor-Progress n id (λ a. record a { snapshot = BoolValue.disable a.snapshot })
              v in
          rw (e, enabled, collect)
            (Progress-trans disabled (
              collect-Progress
                (modify_actor n id (λ a. record a { snapshot = BoolValue.disable a.snapshot })) ids
                _ disabled.valid))
    ]
  ]

  complete_shards-Progress :
      (n : Node) (completed : List (ℤ × List InflightComplete))
      → AllValid n
      → Progress n (complete_shards env n completed)
  unfolding complete_shards
  complete_shards-Progress n [] v = Progress-refl v
  complete_shards-Progress n ((k, items) ∷ rest) v =
      let first = complete_and_resume-Progress env n k items v in
      Progress-trans first
        (complete_shards-Progress (complete_and_resume env n k items) rest first.valid)

  -- snapshotBatch commits nothing unsafe.
  pub snapshot_batch-Progress : (n : Node) → AllValid n → Progress n (snapshot_batch env n)
  unfolding snapshot_batch
  snapshot_batch-Progress n v =
      let (entries, actors) = Map.get_map n.actors in
      let read : Progress n (record n { actors = actors }) =
        quiet [] refl tt (same_of_eq n (record n { actors = actors }) refl) v in
      let saved =
        save_snapshot-Progress (record n { actors = actors }) (waiting entries) read.valid in
      let (_, success, done) = save_snapshot env (record n { actors = actors }) (waiting entries) in
      elim (Bool-cases (not done || length success == 0)) [
        | inl stop ↦ rw (stop, snapshot_batch) (Progress-trans read saved)
        | inr go ↦
            let collected = collect-Progress _ success [] saved.valid in
            rw (go, snapshot_batch)
              (Progress-trans read (
                Progress-trans saved
                  (Progress-trans collected (complete_shards-Progress _ _ collected.valid))))
      ]
