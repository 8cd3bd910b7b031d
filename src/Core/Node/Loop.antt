-- ===== src/Core/Node/Loop.antt =====
-- core/node.go:Dispatcher and handle: the windows and the commits of a node across a message.
use mathlib.Core.Path.{subst}
use goactor.Prelude.{
  ◌≡◌, ◌≢◌, refl, sym, ◌∙◌, Bool, true, false, not, [], none, some, arith, if◌then◌else◌,
  ℤ_discrete, Str_discrete, Bool-cases, Option-cases, inl, inr, Run, ok, panic, ◌>>=◌,
}
use goactor.Structs.Map
use goactor.Structs.Set
use goactor.Structs.BoolValue
use goactor.Message.{Message, MessageType, memory, timer, network, other}
use goactor.Core.Inflight
use goactor.Core.Node.{
  Env, Node, NodeShard, Endpoint, pause_partition, shard_of, actor_of, modify_shard, new_node_actor,
  actor_channel_cap,
}
use goactor.Core.Node.Routing.{start_actor, deliver, dispatch_to, dispatcher}
use goactor.Core.Node.Handlers.{handle}
use goactor.Core.Node.Progress.{
  AllValid, Progress, Progress-refl, Progress-trans, quiet, same_of_eq, modify_shard-log,
  modify_shard-Progress,
}
use goactor.Core.Node.Commit.{call-Progress}
use goactor.Core.Node.Rounds.{handle-Safely}
use goactor.Core.Node.Dispatch.{
  Fits, Advance, of_Progress, from, home, deliver-Advance, divert-Advance, Fits-after,
}

pub record Advances (n : Node) (r : Run Node) : Type 0 where
  pub apply : (n' : Node) → r ≡ ok n' → Advance n n'

returns : {n n' : Node} → Advance n n' → Advances n (ok n')
returns {n} p = record { apply = λ m e. subst (Advance n) (ok-injective e) p }
  where
    ok-injective : {a b : Node} → ok a ≡ ok b → a ≡ b
    ok-injective e = ground arith

panics : {n : Node} → Advances n panic
panics = record { apply = λ m e. absurd (ground arith) }

either :
    {n : Node} (b : Bool) {r r' : Run Node}
    → Advances n r
    → Advances n r'
    → Advances n (if b then r else r')
either true p q = p
either false p q = q

module _ (env : Env) (n : Node) (message : Message) (v : AllValid n) (fits : Fits n message) where
  started : Advances n (
      start_actor env n message.receiver >>= λ (n', found). elim found [
        | none ↦ ok n'
        | some actor ↦ ok (deliver n' (home message) message actor)
      ])
  unfolding start_actor
  started = elim (Bool-cases (env.starts n.log message.receiver)) [
    | inr unknown ↦ rw (unknown, start_actor) (returns (of_Progress (Progress-refl v)))
    | inl known ↦
        let endpoint : Endpoint = record {
          id = message.receiver.id;
          typ = message.receiver.typ;
          mailbox = [];
          channel_cap = actor_channel_cap;
          stop = false;
        } in
        let new_actor = new_node_actor endpoint (env.now n.log) in
        let n1 : Node = record n {
          actors = Map.add_or_update Str_discrete n.actors message.receiver.id new_actor;
        } in
        let listed : Progress n n1 = quiet [] refl tt (same_of_eq n n1 refl) v in
        let join : NodeShard → NodeShard =
          λ s. record s { actors = Set.add Str_discrete s.actors message.receiver.id } in
        let joined = modify_shard-Progress n1 (home message) join (λ s. refl) listed.valid in
        elim (Option-cases (shard_of n1 (home message))) [
          | inl h ↦ rw (known, start_actor, h) panics
          | inr (sh, h) ↦
              rw (known, start_actor, h)
                (returns (
                  from (modify_shard-log n1 (home message) join) (
                    deliver-Advance (modify_shard n1 (home message) join) message joined.valid
                      (Fits-after (Progress-trans listed joined) fits) new_actor)))
        ]
  ]

  dispatch_to-Advances :
      (shard : NodeShard) → Advances n (dispatch_to env n (home message) shard message)
  unfolding dispatch_to
  dispatch_to-Advances shard =
      let paused =
        modify_shard-Progress n (home message)
          (λ s. record s { pause = BoolValue.enable s.pause message.offset }) (λ s. refl) v in
      either shard.pause.enabled (returns (of_Progress (Progress-refl v))) (
        either (Inflight.full shard.inflight message.offset)
          (returns (
            of_Progress (
              Progress-trans paused
                (call-Progress env _ (pause_partition (home message)) tt paused.valid))))
          (either (Set.has Str_discrete n.disable_actors message.receiver.id)
            (returns (divert-Advance env n message v fits)) found))
    where
      found : Advances n (elim (actor_of n message.receiver.id) [
        | some actor ↦ ok (deliver n (home message) message actor)
        | none ↦ start_actor env n message.receiver >>= λ (n', found). elim found [
          | none ↦ ok n'
          | some actor ↦ ok (deliver n' (home message) message actor)
        ]
      ])
      found = elim (Option-cases (actor_of n message.receiver.id)) [
        | inl e ↦ rw e started
        | inr (actor, e) ↦ rw e (returns (deliver-Advance n message v fits actor))
      ]

  dispatcher-Advances : Advances n (dispatcher env n message)
  unfolding dispatcher
  dispatcher-Advances =
      either (not (Set.has ℤ_discrete n.register_shards (home message)))
        (returns (of_Progress (Progress-refl v)))
        (elim (Option-cases (shard_of n (home message))) [
          | inl e ↦ rw e (returns (of_Progress (Progress-refl v)))
          | inr (shard, e) ↦ rw e (dispatch_to-Advances shard)
        ])

  local_of :
      (t : MessageType) → message.message_type ≡ t → t ≢ network → Advances n (handle env n message)
  local_of t e far = record {
    apply = λ n' r. of_Progress ((handle-Safely env n message v (λ h. far (sym e ∙ h))).apply n' r);
  }

  pub handle-Advances : Advances n (handle env n message)
  unfolding handle
  handle-Advances = go message.message_type refl
    where
      go : (t : MessageType) → message.message_type ≡ t → Advances n (handle env n message)
      go network e = rw (e, handle) dispatcher-Advances
      go memory e = local_of memory e (λ same. ground arith)
      go timer e = local_of timer e (λ same. ground arith)
      go (other k) e = local_of (other k) e (λ same. ground arith)
