-- ===== src/Core/Node/Rounds.antt =====
-- core/node.go: the windows and the commits of a node across its actors' messages.
use goactor.Prelude.{
  ◌≡◌, ◌≢◌, refl, Bool, true, false, not, Option, none, some, arith, ite, if◌then◌else◌, ℤ, Str,
  Str_discrete, Option-cases, inl, inr, Run, ok, panic, ◌>>=◌,
}
use goactor.Structs.BoolValue
use goactor.Message.{
  Message, MessageType, memory, timer, network, other, Payload, actor_snapshot, actor_idle,
  actor_alive, actor_ready, actor_stopped, absent, any_other, raw, cmd_actor_snapshot,
  cmd_actor_idle, cmd_actor_alive, cmd_actor_ready, cmd_actor_stopped,
}
use goactor.Message.Shard.{actor_shard_id}
use goactor.Core.Inflight
use goactor.Core.Node.{Env, Node, seek_message, stop_end_timer, shard_of, actor_of, record_call}
use goactor.Core.Node.Saving.{call, snapshot, snapshot_batch}
use goactor.Core.Node.Handlers.{
  receive_snapshot, receive_alive, forget_actor, recycle_actor, receive_ready, receive_stopped,
  handle_idle, handle_snapshot, handle_alive, handle_ready, handle_stopped, handle_memory, handle,
  after_stop,
}
use goactor.Core.Node.Progress.{
  AllValid, Progress, Progress-refl, Progress-trans, modify_actor-Progress, record_call-Progress,
}
use goactor.Core.Node.Commit.{call-Progress}
use goactor.Core.Node.Snapshots.{snapshot-Progress, snapshot_batch-Progress}
use goactor.Core.Node.Stop.{
  either, stop_actor-Progress, handle_ending-Progress, forget_actor-Progress,
}
use mathlib.Core.Path.{subst}

-- A step that may panic; a node it returns is progress.
pub record Safely (n : Node) (r : Run Node) : Type 0 where
  pub apply : (n' : Node) → r ≡ ok n' → Progress n n'

returns : {n n' : Node} → Progress n n' → Safely n (ok n')
returns {n} p = record { apply = λ m e. subst (Progress n) (ok-injective e) p }
  where
    ok-injective : {a b : Node} → ok a ≡ ok b → a ≡ b
    ok-injective e = ground arith

panics : {n : Node} → Safely n panic
panics = record { apply = λ m e. absurd (ground arith) }

bind-Safely {ℓ} :
    {n : Node} {A : Type ℓ} (r : Run A) {f : A → Run Node}
    → ((a : A) → Safely n (f a))
    → Safely n (r >>= f)
bind-Safely (ok a) h = h a
bind-Safely panic h = panics

if-Safely :
    {n : Node} (b : Bool) {r r' : Run Node}
    → Safely n r
    → Safely n r'
    → Safely n (if b then r else r')
if-Safely true p q = p
if-Safely false p q = q

ite-Safely {ℓ} :
    {n : Node} {P : Type ℓ} (d : Dec P) {r r' : Run Node}
    → Safely n r
    → Safely n r'
    → Safely n (ite d r r')
ite-Safely (yes _) p q = p
ite-Safely (no _) p q = q

module _ (env : Env) where
  receive_ready-Progress : (n : Node) (id : Str) → AllValid n → Progress n (receive_ready env n id)
  unfolding receive_ready
  receive_ready-Progress n id v = elim (Option-cases (actor_of n id)) [
    | inl e ↦ rw (e, receive_ready) (Progress-refl v)
    | inr (actor, e) ↦
        let first =
          modify_actor-Progress n id (λ a. record a { pause = BoolValue.disable a.pause }) v in
        rw (e, receive_ready)
          (either (not (BoolValue.get actor.pause).1) (Progress-refl v) (
            Progress-trans first (
              call-Progress env _ (seek_message (actor_shard_id id) (BoolValue.get actor.pause).0)
                tt first.valid)))
  ]

  receive_stopped-Progress :
      (n : Node) (id : Str) → AllValid n → Progress n (receive_stopped env n id)
  unfolding receive_stopped
  receive_stopped-Progress n id v = elim (Option-cases (actor_of n id)) [
    | inl e ↦ rw (e, receive_stopped) (Progress-refl v)
    | inr (actor, e) ↦
        let saved = snapshot-Progress env n id v in
        let gone = Progress-trans saved (forget_actor-Progress _ id saved.valid) in
        let m = forget_actor (snapshot env n id) id in
        rw (e, receive_stopped)
          (either m.stopping (Progress-trans gone (handle_ending-Progress m gone.valid)) (
            either (not (BoolValue.get actor.pending).1) gone (
              Progress-trans gone (
                call-Progress env m
                  (seek_message (actor_shard_id id) (BoolValue.get actor.pending).0) tt
                  gone.valid))))
  ]

  recycle_actor-Safely : (n : Node) (id : Str) → AllValid n → Safely n (recycle_actor env n id)
  unfolding recycle_actor
  recycle_actor-Safely n id v = elim (Option-cases (actor_of n id)) [
    | inl e ↦ rw (e, recycle_actor) (returns (Progress-refl v))
    | inr (actor, e) ↦ elim (Option-cases (shard_of n (actor_shard_id id))) [
      | inl h ↦ rw (e, h, recycle_actor) panics
      | inr (shard, h) ↦
          let seek : (offset : ℤ)
              → Safely n (ok (call env n (seek_message (actor_shard_id id) offset)).0) =
            λ offset.
              returns (call-Progress env n (seek_message (actor_shard_id id) offset) tt v) in
          let taken : Progress n (if actor.snapshot.enabled then snapshot_batch env n else n) =
            either actor.snapshot.enabled (snapshot_batch-Progress env n v) (Progress-refl v) in
          rw (e, h, recycle_actor)
            (bind-Safely (Inflight.get_min_offset shard.inflight id) (
              recycled seek (
                if-Safely (BoolValue.get actor.pause).1 (seek (BoolValue.get actor.pause).0)
                  (returns (Progress-trans taken (stop_actor-Progress _ id taken.valid))))))
    ]
  ]
    where
      recycled :
          {n : Node} {f : ℤ → Run Node} {r : Run Node}
          → ((offset : ℤ) → Safely n (f offset))
          → Safely n r
          → (found : Option ℤ) → Safely n (elim found [ some offset ↦ f offset | none ↦ r ])
      recycled p q (some offset) = p offset
      recycled p q none = q

  -- The commands, whatever their payload.
  handle_idle-Safely :
      (n : Node) (id : Str) (p : Payload) → AllValid n → Safely n (handle_idle env n id p)
  unfolding handle_idle
  handle_idle-Safely n id actor_idle v = recycle_actor-Safely n id v
  handle_idle-Safely n id (actor_snapshot m) v = panics
  handle_idle-Safely n id (actor_alive t) v = panics
  handle_idle-Safely n id actor_ready v = panics
  handle_idle-Safely n id actor_stopped v = panics
  handle_idle-Safely n id (raw b) v = panics
  handle_idle-Safely n id absent v = panics
  handle_idle-Safely n id (any_other x) v = panics

  handle_snapshot-Safely :
      (n : Node) (id : Str) (p : Payload) → AllValid n → Safely n (handle_snapshot env n id p)
  unfolding handle_snapshot receive_snapshot
  handle_snapshot-Safely n id actor_idle v = panics
  handle_snapshot-Safely n id (actor_snapshot m) v = returns (modify_actor-Progress n id _ v)
  handle_snapshot-Safely n id (actor_alive t) v = panics
  handle_snapshot-Safely n id actor_ready v = panics
  handle_snapshot-Safely n id actor_stopped v = panics
  handle_snapshot-Safely n id (raw b) v = panics
  handle_snapshot-Safely n id absent v = panics
  handle_snapshot-Safely n id (any_other x) v = panics

  handle_alive-Safely :
      (n : Node) (id : Str) (p : Payload) → AllValid n → Safely n (handle_alive env n id p)
  unfolding handle_alive receive_alive
  handle_alive-Safely n id actor_idle v = panics
  handle_alive-Safely n id (actor_snapshot m) v = panics
  handle_alive-Safely n id (actor_alive t) v = returns (modify_actor-Progress n id _ v)
  handle_alive-Safely n id actor_ready v = panics
  handle_alive-Safely n id actor_stopped v = panics
  handle_alive-Safely n id (raw b) v = panics
  handle_alive-Safely n id absent v = panics
  handle_alive-Safely n id (any_other x) v = panics

  handle_ready-Safely :
      (n : Node) (id : Str) (p : Payload) → AllValid n → Safely n (handle_ready env n id p)
  unfolding handle_ready
  handle_ready-Safely n id actor_idle v = panics
  handle_ready-Safely n id (actor_snapshot m) v = panics
  handle_ready-Safely n id (actor_alive t) v = panics
  handle_ready-Safely n id actor_ready v = returns (receive_ready-Progress n id v)
  handle_ready-Safely n id actor_stopped v = panics
  handle_ready-Safely n id (raw b) v = panics
  handle_ready-Safely n id absent v = panics
  handle_ready-Safely n id (any_other x) v = panics

  handle_stopped-Safely :
      (n : Node) (id : Str) (p : Payload) → AllValid n → Safely n (handle_stopped env n id p)
  unfolding handle_stopped
  handle_stopped-Safely n id actor_idle v = panics
  handle_stopped-Safely n id (actor_snapshot m) v = panics
  handle_stopped-Safely n id (actor_alive t) v = panics
  handle_stopped-Safely n id actor_ready v = panics
  handle_stopped-Safely n id actor_stopped v = returns (receive_stopped-Progress n id v)
  handle_stopped-Safely n id (raw b) v = panics
  handle_stopped-Safely n id absent v = panics
  handle_stopped-Safely n id (any_other x) v = panics

  handle_memory-Safely :
      (n : Node) (id command : Str) (payload : Payload)
      → AllValid n
      → Safely n (handle_memory env n id command payload)
  unfolding handle_memory
  handle_memory-Safely n id command payload v =
      ite-Safely (Str_discrete command cmd_actor_idle) (handle_idle-Safely n id payload v) (
        ite-Safely (Str_discrete command cmd_actor_snapshot) (handle_snapshot-Safely n id payload v)
          (ite-Safely (Str_discrete command cmd_actor_alive) (handle_alive-Safely n id payload v) (
            ite-Safely (Str_discrete command cmd_actor_ready) (handle_ready-Safely n id payload v) (
              ite-Safely (Str_discrete command cmd_actor_stopped)
                (handle_stopped-Safely n id payload v) (returns (Progress-refl v))))))

  pub handle-Safely :
      (n : Node) (message : Message)
      → AllValid n
      → message.message_type ≢ network
      → Safely n (handle env n message)
  unfolding handle
  handle-Safely n message v local = go message.message_type refl
    where
      go : (t : MessageType) → message.message_type ≡ t → Safely n (handle env n message)
      go memory e =
          rw (e, handle)
            (handle_memory-Safely n message.sender.id message.command message.payload v)
      go network e = absurd (local e)
      go timer e = rw (e, handle) (returns (Progress-refl v))
      go (other k) e = rw (e, handle) (returns (Progress-refl v))

  pub after_stop-Progress : (n : Node) → AllValid n → Progress n (after_stop env n)
  unfolding after_stop
  after_stop-Progress n v =
      let first = record_call-Progress n stop_end_timer tt v in
      Progress-trans first (snapshot_batch-Progress env (record_call n stop_end_timer) first.valid)
