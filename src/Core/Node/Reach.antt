-- ===== src/Core/Node/Reach.antt =====
-- core/node.go: the rounds of the loop of Start, and the nodes that they reach.
use mathlib.Core.Path.{subst}
use goactor.Prelude.{
  ◌≡◌, ◌≢◌, refl, sym, ◌∙◌, Bool, false, some, arith, ℤ, ℤ_discrete, Bool-cases, inl, inr, Run, ok,
  panic, ◌>>=◌,
}
use goactor.Structs.Map
use goactor.Structs.Map.Laws.{get-add_or_update, get-new_map}
use goactor.Message.{Message, MessageType, memory, timer, network, other}
use goactor.Core.Inflight.{inflight_window_limit}
use goactor.Core.Inflight.Invariant.{IsValid, new_inflight-IsValid}
use goactor.Core.Node.{Env, Node, NodeShard, new_node, new_node_shard, start_shard, stop_shard}
use goactor.Core.Node.Handlers.{handle, Event, mail, snapshot_due, stop_requested, ended, round}
use goactor.Core.Node.Progress.{AllValid}
use goactor.Core.Node.Snapshots.{snapshot_batch-Progress}
use goactor.Core.Node.Stop.{before_stop-Progress, stop_shard-Progress}
use goactor.Core.Node.Rounds.{handle-Safely, after_stop-Progress}
use goactor.Core.Node.Dispatch.{Fits, Advance, of_Progress}
use goactor.Core.Node.Loop.{handle-Advances}

-- What the queue promises of the message of a round.
abbrev pub Allowed : Node → Event → Type 0
Allowed n (mail message) = message.message_type ≡ network → Fits n message
Allowed n snapshot_due = Unit
Allowed n stop_requested = Unit
Allowed n ended = Unit

round_returns :
    (r : Run Node) (n' : Node) (over : Bool)
    → ◌>>=◌ {B = Node × Bool} r (λ m. ok (m, false)) ≡ ok (n', over)
    → r ≡ ok n'
round_returns (ok m) n' over e = ground arith
round_returns panic n' over e = ground arith

mail-Advance :
    (env : Env) (n n' : Node) (message : Message)
    → AllValid n
    → Allowed n (mail message)
    → handle env n message ≡ ok n'
    → Advance n n'
mail-Advance env n n' message v allowed r = go message.message_type refl
  where
    local : (t : MessageType) → message.message_type ≡ t → t ≢ network → Advance n n'
    local t e far = of_Progress ((handle-Safely env n message v (λ h. far (sym e ∙ h))).apply n' r)

    go : (t : MessageType) → message.message_type ≡ t → Advance n n'
    go network e = (handle-Advances env n message v (allowed e)).apply n' r
    go memory e = local memory e (λ same. ground arith)
    go timer e = local timer e (λ same. ground arith)
    go (other k) e = local (other k) e (λ same. ground arith)

-- A round that returns, from a node with well-formed windows, on an event whose network message has
-- an offset that is not negative and that no other actor's message has in flight, leaves the windows
-- well-formed, and each offset it commits lies at or below all that is then in flight in its shard.
pub round-Advance :
    (env : Env) (n n' : Node) (over : Bool) (event : Event)
    → AllValid n
    → Allowed n event
    → round env n event ≡ ok (n', over)
    → Advance n n'
unfolding round
round-Advance env n n' over snapshot_due v allowed r =
    subst (Advance n) (ground arith) (of_Progress (snapshot_batch-Progress env n v))
round-Advance env n n' over stop_requested v allowed r =
    subst (Advance n) (ground arith) (of_Progress (before_stop-Progress n v))
round-Advance env n n' over ended v allowed r =
    subst (Advance n) (ground arith) (of_Progress (after_stop-Progress env n v))
round-Advance env n n' over (mail message) v allowed r =
    mail-Advance env n n' message v allowed (round_returns (handle env n message) n' over r)

new_node-AllValid : AllValid new_node
unfolding new_node
new_node-AllValid = record {
  apply = λ s sh e. absurd (ground (arith, get-new_map {V = NodeShard} ℤ_discrete 0 s));
}

start_shard-AllValid : (n : Node) (k : ℤ) → AllValid n → AllValid (start_shard n k)
unfolding start_shard new_node_shard
start_shard-AllValid n k v = elim (Bool-cases (Map.exist ℤ_discrete n.shards k)) [
  | inl e ↦ rw (e, start_shard) (record { apply = v.apply })
  | inr e ↦ rw (e, start_shard) (record { apply = λ s sh h. go s sh (ℤ_discrete s k) h })
]
  where
    go :
        (s : ℤ) (sh : NodeShard) (d : Dec (s ≡ k))
        → Map.get ℤ_discrete (Map.add_or_update ℤ_discrete n.shards k new_node_shard) s ≡ some sh
        → IsValid sh.inflight
    go s sh (yes p) h =
        let written : new_node_shard ≡ sh =
          ground (arith, get-add_or_update ℤ_discrete n.shards k s new_node_shard) in
        subst (λ (x : NodeShard). IsValid x.inflight) written
          (new_inflight-IsValid inflight_window_limit)
    go s sh (no p) h =
        v.apply s sh (ground (arith, get-add_or_update ℤ_discrete n.shards k s new_node_shard))

-- The nodes that are reached from the new one: shards are assigned and revoked between rounds.
pub data Reachable (env : Env) : Node → Type 0 where
  fresh : Reachable env new_node
  assigned : {n : Node} (shard_id : ℤ) → Reachable env n → Reachable env (start_shard n shard_id)
  revoked : {n : Node} (shard_id : ℤ) → Reachable env n → Reachable env (stop_shard n shard_id)
  rounded :
      {n n' : Node} {over : Bool} (event : Event)
      → Reachable env n
      → Allowed n event
      → round env n event ≡ ok (n', over)
      → Reachable env n'

-- In every node reached from the new one by assigning shards, revoking shards and rounds that return,
-- whose network messages have offsets that are not negative and in flight for no other actor, the
-- windows of all shards are well-formed.
pub Reachable-AllValid : (env : Env) (n : Node) → Reachable env n → AllValid n
Reachable-AllValid env n fresh = new_node-AllValid
Reachable-AllValid env n (assigned k r) = start_shard-AllValid _ k (Reachable-AllValid env _ r)
Reachable-AllValid env n (revoked k r) =
    (stop_shard-Progress _ k (Reachable-AllValid env _ r)).valid
Reachable-AllValid env n (rounded {n = m} event r allowed e) =
    (round-Advance env m n _ event (Reachable-AllValid env m r) allowed e).valid
