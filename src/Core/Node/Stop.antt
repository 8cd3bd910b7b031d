-- ===== src/Core/Node/Stop.antt =====
-- core/node.go: the windows and the commits of a node that stops or forgets actors and shards.
use goactor.Prelude.{
  ◌≡◌, refl, Bool, true, false, not, ◌&&◌, ◌==◌, List, [], ◌∷◌, arith, if◌then◌else◌, ℤ, ℤ_discrete,
  Str, Str_discrete, Bool-cases, Option-cases, inl, inr,
}
use goactor.Structs.Map
use goactor.Structs.Map.Laws.{get-del}
use goactor.Structs.Set
use goactor.Message.Shard.{actor_shard_id}
use goactor.Core.Node.{
  Node, start_end_timer, signal_end, stop_poll, close_mq, shard_of, modify_shard, record_call,
  stop_actor, stop_actors, stop_shard, stop_shards, handle_ending, end_poll, before_stop,
}
use goactor.Core.Node.Handlers.{forget_actor}
use goactor.Core.Node.Progress.{
  AllValid, Progress, Progress-refl, Progress-trans, quiet, same_of_eq, modify_actor-Progress,
  modify_shard-Progress, record_call-Progress,
}

-- Both branches of a test.
pub either :
    {n m m' : Node} (b : Bool) → Progress n m → Progress n m' → Progress n (if b then m else m')
either true p q = p
either false p q = q

pub stop_actor-Progress : (n : Node) (id : Str) → AllValid n → Progress n (stop_actor n id)
unfolding stop_actor
stop_actor-Progress n id v = modify_actor-Progress n id _ v

stop_actors-Progress : (n : Node) (ids : List Str) → AllValid n → Progress n (stop_actors n ids)
unfolding stop_actors
stop_actors-Progress n [] v = Progress-refl v
stop_actors-Progress n (id ∷ ids) v =
    let first = stop_actor-Progress n id v in
    Progress-trans first (stop_actors-Progress (stop_actor n id) ids first.valid)

pub stop_shard-Progress : (n : Node) (k : ℤ) → AllValid n → Progress n (stop_shard n k)
unfolding stop_shard
stop_shard-Progress n k v = elim (Option-cases (shard_of n k)) [
  | inl e ↦ rw (e, stop_shard) (Progress-refl v)
  | inr (sh, e) ↦ rw (e, stop_shard) (stop_actors-Progress n (Set.all sh.actors) v)
]

stop_shards-Progress : (n : Node) (ks : List ℤ) → AllValid n → Progress n (stop_shards n ks)
unfolding stop_shards
stop_shards-Progress n [] v = Progress-refl v
stop_shards-Progress n (k ∷ ks) v =
    let first = stop_shard-Progress n k v in
    Progress-trans first (stop_shards-Progress (stop_shard n k) ks first.valid)

pub handle_ending-Progress : (n : Node) → AllValid n → Progress n (handle_ending n)
unfolding handle_ending
handle_ending-Progress n v =
    either (Map.get_length n.actors == 0) (record_call-Progress n signal_end tt v) (Progress-refl v)

-- Fields that hold neither the shards nor the log.
keeps : (n n' : Node) → n'.shards ≡ n.shards → n'.log ≡ n.log → AllValid n → Progress n n'
keeps n n' shards log v = quiet [] log tt (same_of_eq n n' shards) v

end_poll-Progress : (n : Node) → AllValid n → Progress n (end_poll n)
unfolding end_poll
end_poll-Progress n v =
    let first = keeps n (record n { polling = false }) refl refl v in
    either n.polling
      (Progress-trans first
        (record_call-Progress (record n { polling = false }) stop_poll tt first.valid))
      (Progress-refl v)

-- beforeStop commits nothing.
pub before_stop-Progress : (n : Node) → AllValid n → Progress n (before_stop n)
unfolding before_stop
before_stop-Progress n v =
    let s0 = keeps n (record n { stopping = true }) refl refl v in
    let s1 = end_poll-Progress (record n { stopping = true }) s0.valid in
    let m = record_call (end_poll (record n { stopping = true })) close_mq in
    let s2 = record_call-Progress _ close_mq tt s1.valid in
    let s3 =
      keeps m (record m { register_shards = Set.clear m.register_shards }) refl refl s2.valid in
    let s4 = stop_shards-Progress _ (Map.get_keys m.shards) s3.valid in
    let s5 = handle_ending-Progress _ s4.valid in
    let s6 = record_call-Progress _ start_end_timer tt s5.valid in
    either n.stopping (Progress-refl v) (
      Progress-trans s0 (
        Progress-trans s1
          (Progress-trans s2 (Progress-trans s3 (Progress-trans s4 (Progress-trans s5 s6))))))

delete_shard-Progress :
    (n : Node) (k : ℤ)
    → AllValid n
    → Progress n (record n { shards = Map.del ℤ_discrete n.shards k })
delete_shard-Progress n k v =
    quiet [] refl tt
      (λ s sh' e. elim (ℤ_discrete s k) [
        | yes p ↦ ground (arith, get-del ℤ_discrete n.shards k s)
        | no p ↦ (sh', ground (arith, get-del ℤ_discrete n.shards k s), refl)
      ])
      v

pub forget_actor-Progress : (n : Node) (id : Str) → AllValid n → Progress n (forget_actor n id)
unfolding forget_actor
forget_actor-Progress n id v =
    let n1 : Node = record n {
      disable_actors = Set.del Str_discrete n.disable_actors id;
      actors = Map.del Str_discrete n.actors id;
    } in
    let first = keeps n n1 refl refl v in
    elim (Option-cases (shard_of n1 (actor_shard_id id))) [
      | inl e ↦ rw (e, forget_actor) first
      | inr (sh, e) ↦
          let actors = Set.del Str_discrete sh.actors id in
          let n2 = modify_shard n1 (actor_shard_id id) (λ s. record s { actors = actors }) in
          let second =
            modify_shard-Progress n1 (actor_shard_id id) (λ s. record s { actors = actors })
              (λ s. refl) first.valid in
          elim (Bool-cases (
            Set.len actors == 0
            && not (Set.has ℤ_discrete n2.register_shards (actor_shard_id id)))) [
              | inl last ↦
                  rw (e, last, forget_actor)
                    (Progress-trans first (
                      Progress-trans second
                        (delete_shard-Progress n2 (actor_shard_id id) second.valid)))
              | inr more ↦ rw (e, more, forget_actor) (Progress-trans first second)
            ]
    ]
