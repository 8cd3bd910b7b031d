-- ===== src/Core/Node/Commit.antt =====
-- core/node.go:completeOffset and resumeOffset: the windows and the commits of a node across them.
use goactor.Prelude.{
  ◌≡◌, refl, ap, Bool, true, false, List, [], some, arith, ite, ℤ, ℤ_discrete, Bool-cases,
  Option-cases, inl, inr,
}
use goactor.Structs.BoolValue
use goactor.Core.Inflight
use goactor.Core.Inflight.{Inflight, InflightComplete}
use goactor.Core.Inflight.Complete.{complete-IsValid, complete-IsSafeCommit, owner-complete_sub}
use goactor.Core.Node.{
  Env, Node, NodeShard, Effect, resume_partition, seek_message, commit_offset, shard_of,
  modify_shard, record_call, and_then,
}
use goactor.Core.Node.Saving.{call, complete_offset, resume_offset, complete_and_resume}
use goactor.Core.Node.Progress.{
  IsFloor, SafeEntry, AllValid, Shrinks, Progress, Progress-refl, Progress-trans,
  shard_of-modify_shard, modify_shard-log, modify_shard-Progress, record_call-Progress,
}

module _ (n : Node) (k : ℤ) (sh : NodeShard) (items : List InflightComplete) (v : AllValid n)
    (at : shard_of n k ≡ some sh) where
  abbrev completed : Inflight × ℤ × Bool
  completed = Inflight.complete sh.inflight items

  abbrev after : Node
  after = modify_shard n k (λ s. record s { inflight = completed.0 })

  reads :
      (s : ℤ)
      → shard_of after s
        ≡ ite (ℤ_discrete s k) (some (record sh { inflight = completed.0 })) (shard_of n s)
  reads s = shard_of-modify_shard n k s (λ s. record s { inflight = completed.0 }) sh at

  window_at : (sh' : NodeShard) → shard_of after k ≡ some sh' → completed.0 ≡ sh'.inflight
  window_at sh' e = ap (λ (x : NodeShard). x.inflight) (written sh' (ground (arith, reads k)))
    where
      written :
          (sh' : NodeShard)
          → record sh { inflight = completed.0 } ≡ sh'
          → record sh { inflight = completed.0 } ≡ sh'
      written sh' e = e

  after-Shrinks : Shrinks n after
  after-Shrinks s sh' e = elim (ℤ_discrete s k) [
    | yes p ↦ (
      sh,
      rw p at',
      λ a q o. owner-complete_sub sh.inflight items a q (rw (window_at sh' (rw p at e)) o),
    )
    | no p ↦ (sh', ground (arith, reads s), λ a q o. o)
  ]
    where
      at' : shard_of n k ≡ some sh
      at' = at

  after-AllValid : AllValid after
  after-AllValid = record {
    apply = λ s sh' e. elim (ℤ_discrete s k) [
      | yes p ↦ rw (window_at sh' (rw p at e)) at (complete-IsValid items (v.apply k sh at))
      | no p ↦ v.apply s sh' (ground (arith, reads s))
    ];
  }

  after-Progress : Progress n after
  after-Progress = record {
    added = [];
    logged = modify_shard-log n k (λ s. record s { inflight = completed.0 });
    safe = tt;
    shrinks = after-Shrinks;
    valid = after-AllValid;
  }

  -- The commit that follows is safe.
  after-IsFloor :
      completed.2 ≡ true
      → (sh' : NodeShard) → shard_of after k ≡ some sh'
      → IsFloor sh'.inflight completed.1
  after-IsFloor advanced sh' e a q o =
      (complete-IsSafeCommit items (v.apply k sh at) advanced).below a q (rw (window_at sh' e) o)

module _ (env : Env) where
  -- Completing handled messages commits nothing unsafe.
  pub complete_offset-Progress :
      (n : Node) (k : ℤ) (items : List InflightComplete)
      → AllValid n
      → Progress n (complete_offset env n k items).0
  unfolding complete_offset call record_call
  complete_offset-Progress n k items v = elim (Option-cases (shard_of n k)) [
    | inl e ↦ rw (e, complete_offset) (Progress-refl v)
    | inr (sh, e) ↦ elim (Bool-cases (Inflight.complete sh.inflight items).2) [
      | inl advanced ↦
          rw (e, advanced, complete_offset, call, record_call)
            (Progress-trans (after-Progress n k sh items v e) (
              record_call-Progress (after n k sh items v e)
                (commit_offset k (Inflight.complete sh.inflight items).1)
                (after-IsFloor n k sh items v e advanced) (after-AllValid n k sh items v e)))
      | inr stays ↦ rw (e, stays, complete_offset) (after-Progress n k sh items v e)
    ]
  ]

  -- Calls of the queue that are no commits.
  pub call-Progress :
      (n : Node) (e : Effect)
      → SafeEntry (record_call n e) e
      → AllValid n
      → Progress n (call env n e).0
  unfolding call
  call-Progress n e s v = record_call-Progress n e s v

  pub and_then-Progress :
      (n : Node) (r : Node × Bool) (rest : Node → Node × Bool)
      → Progress n r.0
      → ((m : Node) → AllValid m → Progress m (rest m).0)
      → Progress n (and_then r rest).0
  unfolding and_then
  and_then-Progress n (m, true) rest p q = Progress-trans p (q m p.valid)
  and_then-Progress n (m, false) rest p q = p

  -- Resuming a paused shard commits nothing.
  pub resume_offset-Progress :
      (n : Node) (k : ℤ) → AllValid n → Progress n (resume_offset env n k).0
  unfolding resume_offset
  resume_offset-Progress n k v = elim (Option-cases (shard_of n k)) [
    | inl e ↦ rw (e, resume_offset) (Progress-refl v)
    | inr (sh, e) ↦ elim (Bool-cases (BoolValue.get sh.pause).1) [
      | inl enabled ↦
          rw (e, enabled, resume_offset)
            (and_then-Progress n _ _
              (call-Progress n (seek_message k (BoolValue.get sh.pause).0) tt v)
              (λ n1 v1.
                and_then-Progress n1 _ _ (call-Progress n1 (resume_partition k) tt v1) (λ n2 v2.
                  modify_shard-Progress n2 k (λ s. record s { pause = BoolValue.disable s.pause })
                    (λ s. refl) v2)))
      | inr idle ↦ rw (e, idle, resume_offset) (Progress-refl v)
    ]
  ]

  pub complete_and_resume-Progress :
      (n : Node) (k : ℤ) (items : List InflightComplete)
      → AllValid n
      → Progress n (complete_and_resume env n k items)
  unfolding complete_and_resume
  complete_and_resume-Progress n k items v =
      and_then-Progress n _ _ (complete_offset-Progress n k items v)
        (λ m w. resume_offset-Progress m k w)
