-- ===== src/Core/Node/Dispatch.antt =====
-- core/node.go:Dispatcher: the windows and the commits of a node across it.
use mathlib.Core.Path.{subst}
use mathlib.Core.List.{append_assoc}
use goactor.Prelude.{
  ◌≡◌, ◌⊎◌, sym, ◌∙◌, ap, Bool, true, false, ltb, List, [], ◌∷◌, ◌++◌, none, some, arith,
  if◌then◌else◌, ℤ, ℤ_discrete, Str, bytes, Option-cases, inl, inr,
}
use goactor.Prelude.Assoc.{length}
use goactor.Message.{Message}
use goactor.Message.Shard.{actor_shard_id}
use goactor.Core.Inflight
use goactor.Core.Inflight.Remove.{owner}
use goactor.Core.Inflight.Invariant.{IsOffset, IsValid, add-IsValid}
use goactor.Core.Node.{
  Env, Node, NodeActor, NodeShard, Effect, dlq, shard_of, modify_actor, modify_shard, record_call,
}
use goactor.Core.Node.Routing.{deliver, divert}
use goactor.Core.Node.Progress.{
  SafeLog, AllValid, Progress, Progress-refl, shard_of-modify_shard, modify_shard-log,
  modify_absent, modify_actor-Progress, record_call-Progress, SafeLog-append,
}
use goactor.Core.Node.Commit.{complete_offset-Progress}

-- The queue gives a message a valid offset, and no other actor's message has that offset in flight.
pub record Fits (n : Node) (message : Message) : Type 0 where
  pub offset : IsOffset message.offset
  pub same :
      (sh : NodeShard) (b : Str)
      → shard_of n (actor_shard_id message.receiver.id) ≡ some sh
      → owner sh.inflight message.offset ≡ some b
      → b ≡ message.receiver.id

-- `n'` comes from `n` by calls whose commits are safe in `n'`.
pub record Advance (n n' : Node) : Type 0 where
  pub added : List Effect
  pub logged : n'.log ≡ added ++ n.log
  pub safe : SafeLog n' added
  pub valid : AllValid n'

pub of_Progress : {n m : Node} → Progress n m → Advance n m
of_Progress p = record { added = p.added; logged = p.logged; safe = p.safe; valid = p.valid }

-- A first step that makes no call may put offsets into flight.
pub from : {n m k : Node} → m.log ≡ n.log → Advance m k → Advance n k
from e a = record {
  added = a.added;
  logged = a.logged ∙ ap (λ l. a.added ++ l) e;
  safe = a.safe;
  valid = a.valid;
}

either : {n m m' : Node} (b : Bool) → Advance n m → Advance n m' → Advance n (if b then m else m')
either true p q = p
either false p q = q

abbrev pub home : Message → ℤ
home message = actor_shard_id message.receiver.id

abbrev track : Message → NodeShard → NodeShard
track message s = record s { inflight = Inflight.add s.inflight message.offset message.receiver.id }

module _ (n : Node) (message : Message) (v : AllValid n) (fits : Fits n message) where
  track-AllValid : AllValid (modify_shard n (home message) (track message))
  track-AllValid = record {
    apply = λ s sh' e. go s sh' (Option-cases (shard_of n (home message))) e;
  }
    where
      go :
          (s : ℤ) (sh' : NodeShard)
          → (shard_of n (home message) ≡ none)
            ⊎ ((sh : NodeShard) × (shard_of n (home message) ≡ some sh))
          → shard_of (modify_shard n (home message) (track message)) s ≡ some sh'
          → IsValid sh'.inflight
      go s sh' (inl h) e =
          v.apply s sh' (rw (modify_absent n (home message) (track message) h) at e)
      go s sh' (inr (sh, h)) e = elim (ℤ_discrete s (home message)) [
        | yes p ↦
            let written : (track message) sh ≡ sh' =
              ground (arith, shard_of-modify_shard n (home message) s (track message) sh h) in
            subst (λ (x : NodeShard). IsValid x.inflight) written
              (add-IsValid message.offset message.receiver.id (v.apply (home message) sh h)
                fits.offset (λ b o. fits.same sh b h o))
        | no p ↦
            v.apply s sh'
              (ground (arith, shard_of-modify_shard n (home message) s (track message) sh h))
      ]

  -- A message that is there is tracked, and goes to its actor's mailbox or is asked for again.
  pub deliver-Advance : (actor : NodeActor) → Advance n (deliver n (home message) message actor)
  unfolding deliver
  deliver-Advance actor =
      let n1 = modify_shard n (home message) (track message) in
      let write : (f : NodeActor → NodeActor) → Advance n1 (modify_actor n1 message.receiver.id f) =
        λ f. of_Progress (modify_actor-Progress n1 message.receiver.id f track-AllValid) in
      from (modify_shard-log n (home message) (track message)) (
        either actor.stopping (write _) (
          either actor.pause.enabled (of_Progress (Progress-refl track-AllValid)) (
            either (ltb (length actor.actor.mailbox) actor.actor.channel_cap) (write _) (write _))))

-- The part of a step that calls the queue or the store before it tracks a message.
after_call :
    {n m k : Node} (e : Effect) → m.log ≡ e ∷ n.log → SafeLog k (e ∷ []) → Advance m k → Advance n k
after_call {n} {m} {k} e l s a = record {
  added = a.added ++ (e ∷ []);
  logged = a.logged ∙ ap (λ t. a.added ++ t) l ∙ sym (append_assoc a.added (e ∷ []) n.log);
  safe = SafeLog-append k a.added (e ∷ []) a.safe s;
  valid = a.valid;
}

pub Fits-after : {n m : Node} {message : Message} → Progress n m → Fits n message → Fits m message
Fits-after p f = record {
  offset = f.offset;
  same = λ sh' b e o. let (sh, e', sub) = p.shrinks _ sh' e in f.same sh b e' (sub b _ o);
}

-- A message of a disabled actor is tracked and completed at once.
pub divert-Advance :
    (env : Env) (n : Node) (message : Message)
    → AllValid n
    → Fits n message
    → Advance n (divert env n (home message) message)
unfolding divert record_call
divert-Advance env n message v fits =
    let told = record_call-Progress n (dlq message (bytes "disable")) tt v in
    let n1 = record_call n (dlq message (bytes "disable")) in
    let tracked = track-AllValid n1 message told.valid (Fits-after told fits) in
    let done =
      complete_offset-Progress env (modify_shard n1 (home message) (track message)) (home message)
        (record { actor_id = message.receiver.id; max_offset = message.offset } ∷ []) tracked in
    after_call {m = modify_shard n1 (home message) (track message)} (dlq message (bytes "disable"))
      (modify_shard-log n1 (home message) (track message)) (tt, tt) (of_Progress done)
