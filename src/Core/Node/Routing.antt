-- ===== src/Core/Node/Routing.antt =====
-- core/node.go:Dispatcher and startActor: how a message of the queue reaches its actor.

use goactor.Prelude.{
  false, not, [], ◌∷◌, Option, none, some, ltb, if◌then◌else◌, ℤ, ℤ_discrete, Str_discrete, bytes,
  Run, ok, panic, ◌>>=◌,
}
use goactor.Prelude.Assoc.{length, ◌∷ʳ◌}
use goactor.Structs.Map
use goactor.Structs.Map.{Map}
use goactor.Structs.Set
use goactor.Structs.Set.{Set}
use goactor.Structs.BoolValue
use goactor.Structs.BoolValue.{BoolValue}
use goactor.Message.{Message, MessageRef}
use goactor.Message.Shard.{actor_shard_id}
use goactor.Core.Inflight
use goactor.Core.Inflight.{Inflight, InflightComplete, inflight_window_limit}
use goactor.Core.Node.{
  Env, Node, NodeActor, NodeShard, Endpoint, pause_partition, dlq, shard_of, actor_of, modify_shard,
  modify_actor, record_call, actor_channel_cap, new_node_actor,
}
use goactor.Core.Node.Saving.{call, complete_offset}

-- The end of Dispatcher, once the actor is there.
unfoldable pub deliver : Node → ℤ → Message → NodeActor → Node
deliver n shard_id message actor =
    let actor_id = message.receiver.id in
    let offset = message.offset in
    let n1 =
      modify_shard n shard_id
        (λ s. record s { inflight = Inflight.add s.inflight offset actor_id }) in
    if actor.stopping
    then modify_actor n1 actor_id (λ a. record a { pending = BoolValue.enable a.pending offset })
    else if actor.pause.enabled
    then n1
    else if ltb (length actor.actor.mailbox) actor.actor.channel_cap
    then modify_actor n1 actor_id
        (λ a. record a { actor = record (a.actor) { mailbox = a.actor.mailbox ∷ʳ message } })
    else modify_actor n1 actor_id (λ a. record a { pause = BoolValue.enable a.pause offset })

module _ (env : Env) where
  -- startActor: the new actor, or none if it is not made or does not start. A shard that is not
  -- there is a nil pointer.
  unfoldable pub start_actor : Node → MessageRef → Run (Node × Option NodeActor)
  start_actor n ref =
      if not (env.starts n.log ref)
      then ok (n, none)
      else (let endpoint : Endpoint = record {
        id = ref.id;
        typ = ref.typ;
        mailbox = [];
        channel_cap = actor_channel_cap;
        stop = false;
      } in
          let new_actor = new_node_actor endpoint (env.now n.log) in
          let n' = record n { actors = Map.add_or_update Str_discrete n.actors ref.id new_actor } in
          elim (shard_of n' (actor_shard_id ref.id)) [
            | none ↦ panic
            | some shard ↦ ok (
              modify_shard n' (actor_shard_id ref.id)
                  (λ s. record s { actors = Set.add Str_discrete s.actors ref.id }),
              some new_actor,
            )
          ])

  -- The branch of Dispatcher for a disabled actor.
  unfoldable pub divert : Node → ℤ → Message → Node
  divert n shard_id message =
      let actor_id = message.receiver.id in
      let n1 = record_call n (dlq message (bytes "disable")) in
      let n2 =
        modify_shard n1 shard_id
          (λ s. record s { inflight = Inflight.add s.inflight message.offset actor_id }) in
      (complete_offset env n2 shard_id
        (record { actor_id = actor_id; max_offset = message.offset } ∷ [])).0

  -- Dispatcher, on a shard that the node owns
  unfoldable pub dispatch_to : Node → ℤ → NodeShard → Message → Run Node
  dispatch_to n shard_id shard message =
      if shard.pause.enabled
      then ok n
      else if Inflight.full shard.inflight message.offset
      then ok (
          (call env
            (modify_shard n shard_id
              (λ s. record s { pause = BoolValue.enable s.pause message.offset }))
            (pause_partition shard_id)).0)
      else if Set.has Str_discrete n.disable_actors message.receiver.id
      then ok (divert n shard_id message)
      else elim (actor_of n message.receiver.id) [
        | some actor ↦ ok (deliver n shard_id message actor)
        | none ↦ start_actor n message.receiver >>= λ (n', started). elim started [
          | none ↦ ok n'
          | some actor ↦ ok (deliver n' shard_id message actor)
        ]
      ]

  -- Dispatcher(message)
  unfoldable pub dispatcher : Node → Message → Run Node
  dispatcher n message =
      let shard_id = actor_shard_id message.receiver.id in
      if not (Set.has ℤ_discrete n.register_shards shard_id)
      then ok n
      else elim (shard_of n shard_id) [
        | none ↦ ok n
        | some shard ↦ dispatch_to n shard_id shard message
      ]
