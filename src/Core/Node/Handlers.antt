-- ===== src/Core/Node/Handlers.antt =====
-- core/node.go: what the node does with each message, and its event loop.
use goactor.Prelude.{
  Bool, true, false, not, ◌&&◌, none, some, ite, ◌==◌, if◌then◌else◌, ℤ, ℤ_discrete, Str,
  Str_discrete, Run, ok, panic, ◌>>=◌,
}
use goactor.Structs.Map
use goactor.Structs.Set
use goactor.Structs.BoolValue
use goactor.Message.{
  Message, memory, timer, network, other, Payload, actor_snapshot, actor_idle, actor_alive,
  actor_ready, actor_stopped, ActorSnapshot, cmd_actor_snapshot, cmd_actor_idle, cmd_actor_alive,
  cmd_actor_ready, cmd_actor_stopped,
}
use goactor.Message.Shard.{actor_shard_id}
use goactor.Core.Inflight
use goactor.Core.Node.{
  Env, Node, seek_message, stop_end_timer, shard_of, actor_of, modify_shard, modify_actor,
  record_call, stop_actor, handle_ending, before_stop,
}
use goactor.Core.Node.Saving.{call, snapshot, snapshot_batch}
use goactor.Core.Node.Routing.{dispatcher}

-- receiveSnapshot
unfoldable pub receive_snapshot : Node → Str → ActorSnapshot → Node
receive_snapshot n actor_id message =
    modify_actor n actor_id
      (λ a. record a { snapshot = BoolValue.update_enable a.snapshot message })

-- receiveAlive
unfoldable pub receive_alive : Node → Str → ℤ → Node
receive_alive n actor_id time = modify_actor n actor_id (λ a. record a { keep_alive = time })

-- The part of receiveStopped that forgets the actor, and its shard if that is the last one of a
-- shard that the node no longer owns.
unfoldable pub forget_actor : Node → Str → Node
forget_actor n actor_id =
    let shard_id = actor_shard_id actor_id in
    let n1 = record n {
      disable_actors = Set.del Str_discrete n.disable_actors actor_id;
      actors = Map.del Str_discrete n.actors actor_id;
    } in
    elim (shard_of n1 shard_id) [
      | none ↦ n1
      | some shard ↦
          let actors = Set.del Str_discrete shard.actors actor_id in
          let n2 = modify_shard n1 shard_id (λ s. record s { actors = actors }) in
          if Set.len actors == 0 && not (Set.has ℤ_discrete n2.register_shards shard_id)
          then record n2 { shards = Map.del ℤ_discrete n2.shards shard_id }
          else n2
    ]

module _ (env : Env) where
  -- recycleActor: `slices.Min` and a nil shard may panic.
  unfoldable pub recycle_actor : Node → Str → Run Node
  recycle_actor n actor_id = elim (actor_of n actor_id) [
    | none ↦ ok n
    | some actor ↦
        let shard_id = actor_shard_id actor_id in
        elim (shard_of n shard_id) [
          | none ↦ panic
          | some shard ↦ Inflight.get_min_offset shard.inflight actor_id >>= λ found. elim found [
            | some offset ↦ ok (call env n (seek_message shard_id offset)).0
            | none ↦
                let (offset, paused) = BoolValue.get actor.pause in
                if paused
                then ok (call env n (seek_message shard_id offset)).0
                else ok (
                    stop_actor (if actor.snapshot.enabled then snapshot_batch env n else n)
                      actor_id)
          ]
        ]
  ]

  -- receiveReady
  unfoldable pub receive_ready : Node → Str → Node
  receive_ready n actor_id = elim (actor_of n actor_id) [
    | none ↦ n
    | some actor ↦
        let (offset, enabled) = BoolValue.get actor.pause in
        if not enabled
        then n
        else (call env
            (modify_actor n actor_id (λ a. record a { pause = BoolValue.disable a.pause }))
            (seek_message (actor_shard_id actor_id) offset)).0
  ]

  -- receiveStopped. The actor's `pending` is read through the pointer taken before it is forgotten.
  unfoldable pub receive_stopped : Node → Str → Node
  receive_stopped n actor_id = elim (actor_of n actor_id) [
    | none ↦ n
    | some actor ↦
        let n1 = forget_actor (snapshot env n actor_id) actor_id in
        let (offset, pending) = BoolValue.get actor.pending in
        if n1.stopping
        then handle_ending n1
        else if not pending
        then n1
        else (call env n1 (seek_message (actor_shard_id actor_id) offset)).0
  ]

  -- The commands of handle, each with the type assertion on its payload.
  unfoldable pub handle_idle : Node → Str → Payload → Run Node
  handle_idle n actor_id actor_idle = recycle_actor n actor_id
  handle_idle n actor_id _ = panic

  unfoldable pub handle_snapshot : Node → Str → Payload → Run Node
  handle_snapshot n actor_id (actor_snapshot message) = ok (receive_snapshot n actor_id message)
  handle_snapshot n actor_id _ = panic

  unfoldable pub handle_alive : Node → Str → Payload → Run Node
  handle_alive n actor_id (actor_alive time) = ok (receive_alive n actor_id time)
  handle_alive n actor_id _ = panic

  unfoldable pub handle_ready : Node → Str → Payload → Run Node
  handle_ready n actor_id actor_ready = ok (receive_ready n actor_id)
  handle_ready n actor_id _ = panic

  unfoldable pub handle_stopped : Node → Str → Payload → Run Node
  handle_stopped n actor_id actor_stopped = ok (receive_stopped n actor_id)
  handle_stopped n actor_id _ = panic

  unfoldable pub handle_memory : Node → Str → Str → Payload → Run Node
  handle_memory n actor_id command payload =
      ite (Str_discrete command cmd_actor_idle) (handle_idle n actor_id payload) (
        ite (Str_discrete command cmd_actor_snapshot) (handle_snapshot n actor_id payload) (
          ite (Str_discrete command cmd_actor_alive) (handle_alive n actor_id payload) (
            ite (Str_discrete command cmd_actor_ready) (handle_ready n actor_id payload) (
              ite (Str_discrete command cmd_actor_stopped) (handle_stopped n actor_id payload)
                (ok n)))))

  -- handle(message)
  unfoldable pub handle : Node → Message → Run Node
  handle n message = elim message.message_type [
    | memory ↦ handle_memory n message.sender.id message.command message.payload
    | network ↦ dispatcher env n message
    | timer ↦ ok n
    | other k ↦ ok n
  ]

  -- afterStop
  unfoldable pub after_stop : Node → Node
  after_stop n = snapshot_batch env (record_call n stop_end_timer)

-- What the loop of Start selects.
pub data Event : Type 0 where
  mail : Message → Event
  snapshot_due stop_requested ended : Event

-- One round of the loop: the node, and whether the loop returns.
unfoldable pub round : Env → Node → Event → Run (Node × Bool)
round env n (mail message) = handle env n message >>= λ n'. ok (n', false)
round env n snapshot_due = ok (snapshot_batch env n, false)
round env n stop_requested = ok (before_stop n, false)
round env n ended = ok (after_stop env n, true)
