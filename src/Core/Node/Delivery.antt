-- ===== src/Core/Node/Delivery.antt =====
-- core/node.go:Dispatcher: the message that reaches its actor, whatever state the actor is in.
use goactor.Prelude.{
  ◌≡◌, ◌∙◌, ap, Bool, true, false, some, arith, ltb, if◌then◌else◌, ℤ, ℤ_discrete, Str,
}
use goactor.Prelude.Assoc.{length}
use goactor.Structs.Map
use goactor.Message.{Message}
use goactor.Core.Inflight
use goactor.Core.Inflight.Remove.{owner}
use goactor.Core.Inflight.Invariant.{owner-add}
use goactor.Core.Node.{Node, NodeActor, NodeShard, shard_of, modify_shard, modify_actor}
use goactor.Core.Node.Routing.{deliver}
use goactor.Core.Node.Progress.{shard_of-modify_shard, shards-modify_actor}

-- The shard has the offset in flight for the actor.
pub record Tracks (n : Node) (shard_id : ℤ) (offset : ℤ) (actor_id : Str) : Type 0 where
  pub shard : NodeShard
  pub there : shard_of n shard_id ≡ some shard
  pub held : owner shard.inflight offset ≡ some actor_id

modify_actor-Tracks :
    {n : Node} {k o : ℤ} {a : Str} (b : Str) (f : NodeActor → NodeActor)
    → Tracks n k o a
    → Tracks (modify_actor n b f) k o a
modify_actor-Tracks {n} {k} b f t = record {
  shard = t.shard;
  there = ap (λ m. Map.get ℤ_discrete m k) (shards-modify_actor n b f).0 ∙ t.there;
  held = t.held;
}

either :
    {k o : ℤ} {a : Str} (b : Bool) {n n' : Node}
    → Tracks n k o a
    → Tracks n' k o a
    → Tracks (if b then n else n') k o a
either true p q = p
either false p q = q

-- A message that Dispatcher hands to an actor of a shard that is there is afterwards in flight for its
-- receiver, whether the actor is stopping, is paused, has a full mailbox or takes it.
pub deliver-Tracks :
    (n : Node) (shard_id : ℤ) (message : Message) (actor : NodeActor) (shard : NodeShard)
    → shard_of n shard_id ≡ some shard
    → Tracks (deliver n shard_id message actor) shard_id message.offset message.receiver.id
unfolding deliver
deliver-Tracks n k message actor shard at =
    either actor.stopping (modify_actor-Tracks _ _ tracked) (
      either actor.pause.enabled tracked (
        either (ltb (length actor.actor.mailbox) actor.actor.channel_cap)
          (modify_actor-Tracks _ _ tracked) (modify_actor-Tracks _ _ tracked)))
  where
    track : NodeShard → NodeShard
    track s = record s { inflight = Inflight.add s.inflight message.offset message.receiver.id }

    tracked : Tracks (modify_shard n k track) k message.offset message.receiver.id
    tracked = record {
      shard = track shard;
      there = ground (arith, shard_of-modify_shard n k k track shard at);
      held =
          ground
            (arith, owner-add shard.inflight message.offset message.receiver.id message.offset);
    }
