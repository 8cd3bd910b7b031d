-- ===== src/Core/Node/Progress.antt =====
-- Steps of core/node.go that put nothing into flight, and what it means that a commit is safe.
use mathlib.Core.List.{append_assoc}
use goactor.Prelude.{
  ◌≡◌, refl, sym, ◌∙◌, ap, List, [], ◌∷◌, ◌++◌, none, some, arith, ite, ℤ, ℤ_discrete, ◌≤ℤ◌, Str,
  Option-cases, inl, inr,
}
use goactor.Structs.Map
use goactor.Structs.Map.Laws.{get-add_or_update}
use goactor.Core.Inflight.{Inflight}
use goactor.Core.Inflight.Remove.{owner}
use goactor.Core.Inflight.Invariant.{IsValid}
use goactor.Core.Node.{
  Node, NodeActor, NodeShard, Effect, pause_partition, resume_partition, seek_message,
  commit_offset, dlq, save, stop_poll, close_mq, signal_end, start_end_timer, stop_end_timer,
  shard_of, modify_shard, modify_actor, record_call,
}

-- Every offset in flight is at or past `next`.
abbrev pub IsFloor : Inflight → ℤ → Type 0
IsFloor f next = (a : Str) (q : ℤ) → owner f q ≡ some a → next ≤ℤ q

-- A commit is safe in a node if nothing in flight in its shard lies below it.
abbrev pub SafeEntry : Node → Effect → Type 0
SafeEntry n (commit_offset s next) =
    (sh : NodeShard) → shard_of n s ≡ some sh → IsFloor sh.inflight next
SafeEntry n _ = Unit

abbrev pub SafeLog : Node → List Effect → Type 0
SafeLog n [] = Unit
SafeLog n (e ∷ es) = SafeEntry n e × SafeLog n es

-- The windows of all shards are well-formed.
pub record AllValid (n : Node) : Type 0 where
  pub apply : (s : ℤ) (sh : NodeShard) → shard_of n s ≡ some sh → IsValid sh.inflight

-- No shard appears, and nothing comes into flight.
abbrev pub Shrinks : Node → Node → Type 0
Shrinks n n' =
    (s : ℤ) (sh' : NodeShard)
    → shard_of n' s ≡ some sh'
    → (sh : NodeShard) × (shard_of n s ≡ some sh)
      × ((a : Str) (q : ℤ) → owner sh'.inflight q ≡ some a → owner sh.inflight q ≡ some a)

-- `n'` comes from `n` by calls whose commits are safe in `n'`, with nothing put into flight.
pub record Progress (n n' : Node) : Type 0 where
  pub added : List Effect
  pub logged : n'.log ≡ added ++ n.log
  pub safe : SafeLog n' added
  pub shrinks : Shrinks n n'
  pub valid : AllValid n'

pub safe_of_Shrinks : (n n' : Node) (es : List Effect) → Shrinks n n' → SafeLog n es → SafeLog n' es
safe_of_Shrinks n n' [] h s = tt
safe_of_Shrinks n n' (commit_offset k next ∷ es) h s = (
  λ sh' e a q o. let (sh, e', sub) = h k sh' e in s.0 sh e' a q (sub a q o),
  safe_of_Shrinks n n' es h s.1,
)
safe_of_Shrinks n n' (pause_partition _ ∷ es) h s = (tt, safe_of_Shrinks n n' es h s.1)
safe_of_Shrinks n n' (resume_partition _ ∷ es) h s = (tt, safe_of_Shrinks n n' es h s.1)
safe_of_Shrinks n n' (seek_message _ _ ∷ es) h s = (tt, safe_of_Shrinks n n' es h s.1)
safe_of_Shrinks n n' (dlq _ _ ∷ es) h s = (tt, safe_of_Shrinks n n' es h s.1)
safe_of_Shrinks n n' (save _ ∷ es) h s = (tt, safe_of_Shrinks n n' es h s.1)
safe_of_Shrinks n n' (stop_poll ∷ es) h s = (tt, safe_of_Shrinks n n' es h s.1)
safe_of_Shrinks n n' (close_mq ∷ es) h s = (tt, safe_of_Shrinks n n' es h s.1)
safe_of_Shrinks n n' (signal_end ∷ es) h s = (tt, safe_of_Shrinks n n' es h s.1)
safe_of_Shrinks n n' (start_end_timer ∷ es) h s = (tt, safe_of_Shrinks n n' es h s.1)
safe_of_Shrinks n n' (stop_end_timer ∷ es) h s = (tt, safe_of_Shrinks n n' es h s.1)

pub SafeLog-append :
    (n : Node) (es fs : List Effect) → SafeLog n es → SafeLog n fs → SafeLog n (es ++ fs)
SafeLog-append n [] fs s t = t
SafeLog-append n (e ∷ es) fs s t = (s.0, SafeLog-append n es fs s.1 t)

pub Progress-refl : {n : Node} → AllValid n → Progress n n
Progress-refl v = record {
  added = [];
  logged = refl;
  safe = tt;
  shrinks = λ s sh e. (sh, e, λ a q o. o);
  valid = v;
}

pub Progress-trans : {n m k : Node} → Progress n m → Progress m k → Progress n k
Progress-trans {n} {m} {k} p q = record {
  added = q.added ++ p.added;
  logged = q.logged ∙ ap (λ l. q.added ++ l) p.logged ∙ sym (append_assoc q.added p.added _);
  safe = SafeLog-append k q.added p.added q.safe (safe_of_Shrinks m k p.added q.shrinks p.safe);
  shrinks = λ s sh e.
      let (sh1, e1, sub1) = q.shrinks s sh e in
      let (sh2, e2, sub2) = p.shrinks s sh1 e1 in (sh2, e2, λ a o h. sub2 a o (sub1 a o h));
  valid = q.valid;
}

-- The shards of `n'` are shards of `n` with the same windows.
abbrev pub SameWindows : Node → Node → Type 0
SameWindows n n' =
    (s : ℤ) (sh' : NodeShard)
    → shard_of n' s ≡ some sh'
    → (sh : NodeShard) × (shard_of n s ≡ some sh) × (sh'.inflight ≡ sh.inflight)

-- A step that leaves the windows alone and commits nothing.
pub quiet :
    {n n' : Node} (added : List Effect)
    → n'.log ≡ added ++ n.log
    → SafeLog n' added
    → SameWindows n n'
    → AllValid n
    → Progress n n'
quiet added logged safe same v = record {
  added = added;
  logged = logged;
  safe = safe;
  shrinks = λ s sh' e. let (sh, e', i) = same s sh' e in (sh, e', λ a q o. rw i at o);
  valid = record { apply = λ s sh' e. let (sh, e', i) = same s sh' e in rw i (v.apply s sh e') };
}

pub same_of_eq : (n n' : Node) → n'.shards ≡ n.shards → SameWindows n n'
same_of_eq n n' e s sh' h = (sh', ap (λ m. Map.get ℤ_discrete m s) (sym e) ∙ h, refl)

pub shard_of-modify_shard :
    (n : Node) (k s : ℤ) (f : NodeShard → NodeShard) (sh : NodeShard)
    → shard_of n k ≡ some sh
    → shard_of (modify_shard n k f) s ≡ ite (ℤ_discrete s k) (some (f sh)) (shard_of n s)
unfolding modify_shard
shard_of-modify_shard n k s f sh e =
    rw (e, modify_shard) (get-add_or_update ℤ_discrete n.shards k s (f sh))

pub modify_shard-log :
    (n : Node) (k : ℤ) (f : NodeShard → NodeShard) → (modify_shard n k f).log ≡ n.log
unfolding modify_shard
modify_shard-log n k f = ground arith

pub modify_absent :
    (n : Node) (k : ℤ) (f : NodeShard → NodeShard) → shard_of n k ≡ none → modify_shard n k f ≡ n
unfolding modify_shard
modify_absent n k f e = ground arith

-- A write to a shard that leaves its window alone.
pub modify_shard-SameWindows :
    (n : Node) (k : ℤ) (f : NodeShard → NodeShard)
    → ((sh : NodeShard) → (f sh).inflight ≡ sh.inflight)
    → SameWindows n (modify_shard n k f)
modify_shard-SameWindows n k f keep s sh' h = elim (Option-cases (shard_of n k)) [
  | inl e ↦ (sh', rw (modify_absent n k f e) at h, refl)
  | inr (sh, e) ↦ elim (ℤ_discrete s k) [
    | yes p ↦
        let written : f sh ≡ sh' = ground (arith, shard_of-modify_shard n k s f sh e) in
        (sh, rw p e, ap (λ (x : NodeShard). x.inflight) (sym written) ∙ keep sh)
    | no p ↦ (sh', ground (arith, shard_of-modify_shard n k s f sh e), refl)
  ]
]

pub shards-modify_actor :
    (n : Node) (a : Str) (f : NodeActor → NodeActor)
    → ((modify_actor n a f).shards ≡ n.shards) × ((modify_actor n a f).log ≡ n.log)
unfolding modify_actor
shards-modify_actor n a f = (ground arith, ground arith)

pub modify_actor-Progress :
    (n : Node) (a : Str) (f : NodeActor → NodeActor) → AllValid n → Progress n (modify_actor n a f)
modify_actor-Progress n a f v =
    let (shards, log) = shards-modify_actor n a f in
    quiet [] log tt (same_of_eq n (modify_actor n a f) shards) v

pub modify_shard-Progress :
    (n : Node) (k : ℤ) (f : NodeShard → NodeShard)
    → ((sh : NodeShard) → (f sh).inflight ≡ sh.inflight)
    → AllValid n
    → Progress n (modify_shard n k f)
modify_shard-Progress n k f keep v =
    quiet [] (modify_shard-log n k f) tt (modify_shard-SameWindows n k f keep) v

-- A call that is no commit.
pub record_call-Progress :
    (n : Node) (e : Effect)
    → SafeEntry (record_call n e) e
    → AllValid n
    → Progress n (record_call n e)
unfolding record_call
record_call-Progress n e s v =
    quiet (e ∷ []) refl (s, tt) (same_of_eq n (record n { log = e ∷ n.log }) refl) v
