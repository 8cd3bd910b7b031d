-- ===== src/Core/Node/Tests.antt =====
-- core/node.go: a message comes in, its actor is snapshotted, and the offset is committed.
use mathlib.Core.List.{lookup}
use goactor.Prelude.{
  ◌≡◌, refl, Bool, true, false, List, [], ◌∷◌, Option, none, some, arith, ℤ, pos, ℤ_discrete, ◌+ℤ◌,
  ◌-ℤ◌, wrap64, Str, Str_discrete, bytes, Run, ok, panic,
}
use goactor.Prelude.Assoc.{contains, insert, delete}
use goactor.Structs.Map
use goactor.Structs.Set
use goactor.Structs.BoolValue
use goactor.Message.{
  Message, MessageRef, memory, network, actor_snapshot, absent, ActorSnapshot, cmd_actor_snapshot,
}
use goactor.Message.Shard.{fnv1a, actor_shard_id}
use goactor.Core.Inflight
use goactor.Core.Inflight.Remove.{owner}
use goactor.Core.Node.{
  Env, Node, NodeActor, NodeShard, save, commit_offset, new_node, new_node_shard, new_node_actor,
  shard_of, modify_shard, modify_actor, record_call, and_then, start_shard,
}
use goactor.Core.Node.Saving.{
  call, complete_offset, resume_offset, save_snapshot, complete_and_resume, snapshot, waiting,
  append_completed, collect, complete_shards, snapshot_batch,
}
use goactor.Core.Node.Routing.{start_actor, deliver, divert, dispatch_to, dispatcher}
use goactor.Core.Node.Handlers.{
  receive_snapshot, handle_snapshot, handle_memory, handle, mail, snapshot_due, round,
}
use goactor.Core.Node.Progress.{AllValid}
use goactor.Core.Node.Delivery.{Tracks, deliver-Tracks}
use goactor.Core.Node.Dispatch.{Fits, Advance}
use goactor.Core.Node.Reach.{round-Advance, Reachable, fresh, assigned, rounded, Reachable-AllValid}

program : Unit {0}
unfolding Map.new_map Map.get_map Map.get_length Map.get Map.exist Map.get_default Map.add_or_update
    Map.add_if_not_exist Map.del Map.get_keys lookup insert delete contains ℤ_discrete Str_discrete
    ◌+ℤ◌ ◌-ℤ◌ wrap64 Set.new_set Set.has Set.add Set.del Set.all BoolValue.new_bool_value
    BoolValue.get BoolValue.enable BoolValue.disable BoolValue.update_enable Inflight.new_inflight
    Inflight.reset Inflight.full Inflight.add_bounds Inflight.ensure_list Inflight.add_offset
    Inflight.add Inflight.scan Inflight.remove_offsets Inflight.remove Inflight.remove_all
    Inflight.least Inflight.reset_min_offset Inflight.settle Inflight.complete fnv1a actor_shard_id
    new_node new_node_shard new_node_actor modify_shard modify_actor record_call and_then
    start_shard call complete_offset resume_offset save_snapshot complete_and_resume snapshot
    waiting append_completed collect complete_shards snapshot_batch start_actor deliver divert
    dispatch_to dispatcher receive_snapshot handle_snapshot handle_memory handle round
program = tt

abbrev all_saved : List ActorSnapshot → List Str
all_saved [] = []
all_saved (s ∷ rest) = s.actor_id ∷ all_saved rest

-- A queue and a store that always succeed.
abbrev env : Env
env = record {
  mq_ok = λ calls e. true;
  store_save = λ calls snapshots. (all_saved snapshots, true);
  now = λ calls. pos 0;
  starts = λ calls ref. true;
}

abbrev actor_1 : MessageRef
actor_1 = record { typ = bytes "counter"; id = bytes "actor-1" }

abbrev request : Message
request = record {
  meta = record {
    sender = actor_1;
    receiver = actor_1;
    trace_id = [];
    message_id = bytes "m1";
    offset = pos 9;
    message_type = network;
  };
  command = bytes "inc";
  payload = absent;
  headers = [];
}

abbrev taken : ActorSnapshot
taken = record {
  actor_id = bytes "actor-1";
  actor_type = bytes "counter";
  version = pos 1;
  offset = pos 9;
  state = [];
  dedup = [];
}

abbrev report : Message
report = record {
  meta = record {
    sender = actor_1;
    receiver = actor_1;
    trace_id = [];
    message_id = [];
    offset = pos 0;
    message_type = memory;
  };
  command = cmd_actor_snapshot;
  payload = actor_snapshot taken;
  headers = [];
}

-- The shard of "actor-1" is 460.
abbrev ready : Node
ready = start_shard new_node (pos 460)

abbrev node_of : Run (Node × Bool) → Node
node_of (ok (n, _)) = n
node_of panic = new_node

abbrev received : Node
received = node_of (round env ready (mail request))

abbrev reported : Node
reported = node_of (round env received (mail report))

abbrev committed : Node
committed = node_of (round env reported snapshot_due)

rounds :
    (round env ready (mail request) ≡ ok (received, false))
    × (round env received (mail report) ≡ ok (reported, false))
    × (round env reported snapshot_due ≡ ok (committed, false))
unfolding program
rounds = (refl, refl, refl)

commits : committed.log ≡ commit_offset (pos 460) (pos 10) ∷ save (taken ∷ []) ∷ []
unfolding program
commits = refl

abbrev owners : Option NodeShard → ℤ → Option Str
owners none q = none
owners (some sh) q = owner sh.inflight q

nothing_in_flight : owners (shard_of ready (actor_shard_id (bytes "actor-1"))) (pos 9) ≡ none
unfolding program
nothing_in_flight = refl

request-Fits : Fits ready request
request-Fits = record {
  offset = omega arith;
  same = λ sh b e o. absurd (ground (arith, nothing_in_flight, o, e));
}

ready_reached : Reachable env ready
ready_reached = assigned (pos 460) fresh

received_reached : Reachable env received
received_reached =
    rounded {n' = received} {over = false} (mail request) ready_reached (λ _. request-Fits) rounds.0

round-Advance_example : Advance ready received
round-Advance_example =
    round-Advance env ready received false (mail request)
      (Reachable-AllValid env ready ready_reached) (λ _. request-Fits) rounds.0

Reachable-AllValid_example : AllValid received
Reachable-AllValid_example = Reachable-AllValid env received received_reached

abbrev shard_or_new : Option NodeShard → NodeShard
shard_or_new none = new_node_shard
shard_or_new (some sh) = sh

ready_shard : shard_of ready (pos 460) ≡ some (shard_or_new (shard_of ready (pos 460)))
unfolding program
ready_shard = refl

-- An actor that is being stopped.
abbrev stopping_actor : NodeActor
stopping_actor =
    record (new_node_actor
      (record {
        id = bytes "actor-1";
        typ = bytes "counter";
        mailbox = [];
        channel_cap = 1;
        stop = true;
      })
      (pos 0)) { stopping = true }

deliver-Tracks_example :
    Tracks (deliver ready (pos 460) request stopping_actor) (pos 460) (pos 9) (bytes "actor-1")
deliver-Tracks_example =
    deliver-Tracks ready (pos 460) request stopping_actor (shard_or_new (shard_of ready (pos 460)))
      ready_shard
