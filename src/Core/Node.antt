-- ===== src/Core/Node.antt =====
-- core/node.go, core/node_actor.go, core/node_shard.go: the node, its shards and its actors.
-- Calls of the message queue and of the store are entries of `log`, newest first; how they end is
-- told by an `Env`, which sees the calls made before. A nil pointer panics.
pub mod Saving
pub mod Routing
pub mod Handlers
pub mod Progress
pub mod Commit
pub mod Snapshots
pub mod Stop
pub mod Rounds
pub mod Dispatch
pub mod Loop
pub mod Reach
pub mod Delivery
mod Tests
use mathlib.Core.List.{lookup}
use goactor.Prelude.{
  ℕ, suc, ◌+◌, Bool, true, false, not, ◌&&◌, ◌||◌, List, [], ◌∷◌, ◌++◌, Option, none, some, ite,
  ltb, ◌==◌, if◌then◌else◌, ℤ, pos, ℤ_discrete, Str, Str_discrete, bytes, Run, ok, panic, ◌>>=◌,
}
use goactor.Prelude.Assoc.{length, contains, insert, ◌∷ʳ◌}
use goactor.Structs.Map
use goactor.Structs.Map.{Map}
use goactor.Structs.Set
use goactor.Structs.Set.{Set}
use goactor.Structs.BoolValue
use goactor.Structs.BoolValue.{BoolValue}
use goactor.Message.{
  Message, MessageRef, MessageType, memory, timer, network, other, Payload, actor_snapshot,
  actor_idle, actor_alive, actor_ready, actor_stopped, raw, ActorSnapshot, cmd_actor_snapshot,
  cmd_actor_idle, cmd_actor_alive, cmd_actor_ready, cmd_actor_stopped,
}
use goactor.Message.Shard.{actor_shard_id}
use goactor.Core.Inflight
use goactor.Core.Inflight.{Inflight, InflightComplete, inflight_window_limit}

-- What the node sees of an actor behind `IActor`: its mailbox, a channel of some capacity, and
-- whether its stop channel holds a token.
pub record Endpoint : Type 0 where
  pub id : Str
  pub typ : Str
  pub mailbox : List Message
  pub channel_cap : ℕ
  pub stop : Bool

pub record NodeActor : Type 0 where
  pub actor : Endpoint
  pub keep_alive : ℤ
  pub stopping : Bool
  pub snapshot : BoolValue ActorSnapshot
  pub pause : BoolValue ℤ
  pub pending : BoolValue ℤ

pub record NodeShard : Type 0 where
  pub actors : Set Str
  pub inflight : Inflight
  pub pause : BoolValue ℤ

-- The calls that a node makes of its queue, its store, its actors' poll and its own end.
pub data Effect : Type 0 where
  pause_partition resume_partition : ℤ → Effect
  seek_message commit_offset : ℤ → ℤ → Effect
  dlq : Message → Str → Effect
  save : List ActorSnapshot → Effect
  stop_poll close_mq signal_end start_end_timer stop_end_timer : Effect

-- How the calls end: `mq_ok` is `err == nil`; the store returns the saved ids, and `err == nil`.
-- `now` is the clock, and `starts` says whether the factory makes
-- the actor and its Start returns no error.
pub record Env : Type 0 where
  pub mq_ok : List Effect → Effect → Bool
  pub store_save : List Effect → List ActorSnapshot → List Str × Bool
  pub now : List Effect → ℤ
  pub starts : List Effect → MessageRef → Bool

pub record Node : Type 0 where
  pub register_shards : Set ℤ
  pub shards : Map ℤ NodeShard
  pub actors : Map Str NodeActor
  pub disable_actors : Set Str
  pub stopping : Bool
  pub polling : Bool
  pub log : List Effect

abbrev pub actor_channel_cap : ℕ
actor_channel_cap = 1024

abbrev no_snapshot : ActorSnapshot
no_snapshot = record {
  actor_id = [];
  actor_type = [];
  version = pos 0;
  offset = pos 0;
  state = [];
  dedup = [];
}

unfoldable pub new_node : Node
new_node = record {
  register_shards = Set.new_set 0;
  shards = Map.new_map 0;
  actors = Map.new_map 0;
  disable_actors = Set.new_set 0;
  stopping = false;
  polling = true;
  log = [];
}

-- NewNodeShard
unfoldable pub new_node_shard : NodeShard
new_node_shard = record {
  actors = Set.new_set 0;
  inflight = Inflight.new_inflight inflight_window_limit;
  pause = BoolValue.new_bool_value (pos 0);
}

-- NewNodeActor
unfoldable pub new_node_actor : Endpoint → ℤ → NodeActor
new_node_actor actor now = record {
  actor = actor;
  keep_alive = now;
  stopping = false;
  snapshot = BoolValue.new_bool_value no_snapshot;
  pause = BoolValue.new_bool_value (pos 0);
  pending = BoolValue.new_bool_value (pos 0);
}

abbrev pub shard_of : Node → ℤ → Option NodeShard
shard_of n shard_id = Map.get ℤ_discrete n.shards shard_id

abbrev pub actor_of : Node → Str → Option NodeActor
actor_of n actor_id = Map.get Str_discrete n.actors actor_id

-- A write through the pointer that a map holds.
unfoldable pub modify_shard : Node → ℤ → (NodeShard → NodeShard) → Node
modify_shard n shard_id f = elim (shard_of n shard_id) [
  | none ↦ n
  | some shard ↦ record n { shards = Map.add_or_update ℤ_discrete n.shards shard_id (f shard) }
]

unfoldable pub modify_actor : Node → Str → (NodeActor → NodeActor) → Node
modify_actor n actor_id f = elim (actor_of n actor_id) [
  | none ↦ n
  | some actor ↦ record n { actors = Map.add_or_update Str_discrete n.actors actor_id (f actor) }
]

unfoldable pub record_call : Node → Effect → Node
record_call n e = record n { log = e ∷ n.log }

-- A call followed by the rest, which runs if the call returned no error.
unfoldable pub and_then : Node × Bool → (Node → Node × Bool) → Node × Bool
and_then (n, done) rest = if done then rest n else (n, false)

-- startShard
unfoldable pub start_shard : Node → ℤ → Node
start_shard n shard_id =
    let n' = record n { register_shards = Set.add ℤ_discrete n.register_shards shard_id } in
    if Map.exist ℤ_discrete n'.shards shard_id
    then n'
    else record n' { shards = Map.add_or_update ℤ_discrete n'.shards shard_id new_node_shard }

-- stopActor; Stop puts a token into the stop channel unless one is there.
unfoldable pub stop_actor : Node → Str → Node
stop_actor n actor_id =
    modify_actor n actor_id
      (λ a. record a { stopping = true; actor = record (a.actor) { stop = true } })

unfoldable pub stop_actors : Node → List Str → Node
stop_actors n [] = n
stop_actors n (actor_id ∷ rest) = stop_actors (stop_actor n actor_id) rest

-- stopShard
unfoldable pub stop_shard : Node → ℤ → Node
stop_shard n shard_id = elim (shard_of n shard_id) [
  | none ↦ n
  | some shard ↦ stop_actors n (Set.all shard.actors)
]

unfoldable pub stop_shards : Node → List ℤ → Node
stop_shards n [] = n
stop_shards n (shard_id ∷ rest) = stop_shards (stop_shard n shard_id) rest

-- handleEnding
unfoldable pub handle_ending : Node → Node
handle_ending n = if Map.get_length n.actors == 0 then record_call n signal_end else n

-- stopPoll
unfoldable pub end_poll : Node → Node
end_poll n = if n.polling then record_call (record n { polling = false }) stop_poll else n

-- beforeStop
unfoldable pub before_stop : Node → Node
before_stop n =
    if n.stopping
    then n
    else (let n1 = record_call (end_poll (record n { stopping = true })) close_mq in
        let n2 = record n1 { register_shards = Set.clear n1.register_shards } in
        record_call (handle_ending (stop_shards n2 (Map.get_keys n2.shards))) start_end_timer)
