-- ===== src/Core/Node/Saving.antt =====
-- core/node.go: saving snapshots, and what the node commits and resumes after that.
use mathlib.Core.List.{lookup}
use goactor.Prelude.{
  Bool, true, not, ◌||◌, List, [], ◌∷◌, none, some, ◌==◌, if◌then◌else◌, ℤ, ℤ_discrete, Str,
}
use goactor.Prelude.Assoc.{length, insert, ◌∷ʳ◌}
use goactor.Structs.Map
use goactor.Structs.Map.{Map}
use goactor.Structs.BoolValue
use goactor.Structs.BoolValue.{BoolValue}
use goactor.Message.{ActorSnapshot}
use goactor.Message.Shard.{actor_shard_id}
use goactor.Core.Inflight
use goactor.Core.Inflight.{Inflight, InflightComplete, inflight_window_limit}
use goactor.Core.Node.{
  Env, Node, NodeActor, Effect, resume_partition, seek_message, commit_offset, save, shard_of,
  actor_of, modify_shard, modify_actor, record_call, and_then,
}

-- The snapshots that are waiting, in the order of the map.
unfoldable pub waiting : List (Str × NodeActor) → List ActorSnapshot
waiting [] = []
waiting ((_, actor) ∷ rest) =
    if actor.snapshot.enabled then actor.snapshot.value ∷ waiting rest else waiting rest

-- `completed[shardId] = append(completed[shardId], item)`
unfoldable pub append_completed :
    List (ℤ × List InflightComplete) → ℤ → InflightComplete → List (ℤ × List InflightComplete)
append_completed completed shard_id item = elim (lookup ℤ_discrete shard_id completed) [
  | none ↦ insert ℤ_discrete shard_id (item ∷ []) completed
  | some items ↦ insert ℤ_discrete shard_id (items ∷ʳ item) completed
]

-- The first loop of snapshotBatch, over the saved ids.
unfoldable pub collect :
    Node → List Str → List (ℤ × List InflightComplete) → Node × List (ℤ × List InflightComplete)
collect n [] completed = (n, completed)
collect n (actor_id ∷ rest) completed = elim (actor_of n actor_id) [
  | none ↦ collect n rest completed
  | some actor ↦
      let (taken, enabled) = BoolValue.get actor.snapshot in
      let item : InflightComplete = record {
        actor_id = taken.actor_id;
        max_offset = taken.offset;
      } in
      let n' =
        modify_actor n actor_id (λ a. record a { snapshot = BoolValue.disable a.snapshot }) in
      collect (if enabled then n' else n) rest (
        if enabled
        then append_completed completed (actor_shard_id actor.actor.id) item
        else completed)
]

module _ (env : Env) where
  -- A call of the queue, and whether it returned no error.
  unfoldable pub call : Node → Effect → Node × Bool
  call n e = (record_call n e, env.mq_ok n.log e)

  -- completeOffset, and whether it returned no error
  unfoldable pub complete_offset : Node → ℤ → List InflightComplete → Node × Bool
  complete_offset n shard_id list = elim (shard_of n shard_id) [
    | none ↦ (n, true)
    | some shard ↦
        let (inflight, next, advanced) = Inflight.complete shard.inflight list in
        let n' = modify_shard n shard_id (λ s. record s { inflight = inflight }) in
        if advanced then call n' (commit_offset shard_id next) else (n', true)
  ]

  -- resumeOffset
  unfoldable pub resume_offset : Node → ℤ → Node × Bool
  resume_offset n shard_id = elim (shard_of n shard_id) [
    | none ↦ (n, true)
    | some shard ↦
        let (offset, enabled) = BoolValue.get shard.pause in
        if not enabled
        then (n, true)
        else and_then (call n (seek_message shard_id offset)) (λ n1.
          and_then (call n1 (resume_partition shard_id)) (λ n2.
            (modify_shard n2 shard_id (λ s. record s { pause = BoolValue.disable s.pause }), true)))
  ]

  -- saveSnapshot: the saved ids, and whether it returned no error
  unfoldable pub save_snapshot : Node → List ActorSnapshot → Node × List Str × Bool
  save_snapshot n snapshots =
      let (success, done) = env.store_save n.log snapshots in
      (record_call n (save snapshots), success, done)

  -- The end of snapshot and of each round of snapshotBatch.
  unfoldable pub complete_and_resume : Node → ℤ → List InflightComplete → Node
  complete_and_resume n shard_id list =
      (and_then (complete_offset n shard_id list) (λ n'. resume_offset n' shard_id)).0

  -- snapshot(actorId)
  unfoldable pub snapshot : Node → Str → Node
  snapshot n actor_id = elim (actor_of n actor_id) [
    | none ↦ n
    | some actor ↦
        let (taken, changed) = BoolValue.get actor.snapshot in
        if not changed
        then n
        else (let (n1, _, done) = save_snapshot n (taken ∷ []) in
            if not done
            then n1
            else complete_and_resume
                (modify_actor n1 actor_id
                  (λ a. record a { snapshot = BoolValue.disable a.snapshot }))
                (actor_shard_id actor.actor.id)
                (record { actor_id = taken.actor_id; max_offset = taken.offset } ∷ []))
  ]

  -- The second loop, over the shards.
  unfoldable pub complete_shards : Node → List (ℤ × List InflightComplete) → Node
  complete_shards n [] = n
  complete_shards n ((shard_id, items) ∷ rest) =
      complete_shards (complete_and_resume n shard_id items) rest

  -- snapshotBatch
  unfoldable pub snapshot_batch : Node → Node
  snapshot_batch n =
      let (entries, actors) = Map.get_map n.actors in
      let (n1, success, done) = save_snapshot (record n { actors = actors }) (waiting entries) in
      if not done || length success == 0
      then n1
      else (let (n2, completed) = collect n1 success [] in complete_shards n2 completed)
