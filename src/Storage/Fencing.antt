-- ===== src/Storage/Fencing.antt =====
-- storage/storage.go:IStore: whoever loads a snapshot last is the only one whose saves are stored.
use goactor.Prelude.{
  ◌≡◌, inl, inr, true, false, List, [], ◌∷◌, Option, none, some, ℤ, ◌≤ℤ◌, ◌<ℤ◌, Str, Str_discrete,
  arith, Bool-cases, refl, sym, ◌∙◌, if_pos, if_neg,
}
use mathlib.Core.Path.{subst}
use goactor.Prelude.Assoc.{contains}
use goactor.Message.{ActorSnapshot}
use goactor.Storage.{Saved, Result, returned}
use goactor.Storage.Table.{accepts, accepted, chosen, contains-perm}
use goactor.Storage.Checks.{actor_key, actor_version}
use goactor.Storage.Contract.{Promise, Loaded, NextOf, settled, version_after}

-- Any store that keeps the contract of Contract.antt, as the theorems of Agree.antt say of both databases.
pub record Store : Type 1 where
  pub State : Type 0
  pub held : State → Str → Option ℤ
  pub save : State → List ActorSnapshot → State × Saved
  pub load : State → Str → State × Result ActorSnapshot
  pub save_promise :
      (w : State) (inputs : List ActorSnapshot)
      → Promise (held w) (held (save w inputs).0) inputs (save w inputs).1
  pub load_promise : (w : State) (id : Str) → Loaded (held w) (held (load w id).0) id (load w id).1

-- Calls of Save and Load, by whichever owners.
pub data Calls (store : Store) (w : store.State) : store.State → Type 0 where
  here : Calls store w w
  then_save :
      {w' : store.State} (inputs : List ActorSnapshot)
      → Calls store w w'
      → Calls store w (store.save w' inputs).0
  then_load : {w' : store.State} (id : Str) → Calls store w w' → Calls store w (store.load w' id).0

-- Versions that are below a bound, of the snapshots of one actor.
abbrev pub AllBelow : Str → ℤ → List ActorSnapshot → Type 0
AllBelow id v [] = Unit
AllBelow id v (x ∷ rest) = (x.actor_id ≡ id → x.version <ℤ v) × AllBelow id v rest

-- At least a version is held.
abbrev pub AtLeast : ℤ → Option ℤ → Type 0
AtLeast v none = ⊥
AtLeast v (some u) = v ≤ℤ u

accepts-AtLeast : (v u : ℤ) (o : Option ℤ) → AtLeast v o → accepts o u ≡ true → v ≤ℤ u
accepts-AtLeast v u none h a = absurd h
accepts-AtLeast v u (some t) h a = ground arith

below-accepts : (v u : ℤ) (o : Option ℤ) → AtLeast v o → u <ℤ v → accepts o u ≡ false
below-accepts v u none h a = absurd h
below-accepts v u (some t) h a = ground arith

-- No save lowers the version that is held.
chosen-AtLeast :
    (held : Str → Option ℤ) (inputs : List ActorSnapshot) (id : Str) (v : ℤ)
    → AtLeast v (held id)
    → AtLeast v (version_after (held id) (chosen actor_key actor_version held inputs id))
unfolding chosen
chosen-AtLeast held [] id v h = h
chosen-AtLeast held (x ∷ rest) id v h = elim (Str_discrete x.actor_id id) [
  | yes p ↦ elim (Bool-cases (accepts (held x.actor_id) x.version)) [
    | inl taken ↦
        rw (if_pos _ p, taken)
          (accepts-AtLeast v x.version (held x.actor_id) (subst (λ q. AtLeast v (held q)) (sym p) h)
            taken)
    | inr left ↦ rw (if_pos _ p, left) h
  ]
  | no p ↦ rw (if_neg _ p) (chosen-AtLeast held rest id v h)
]

pub chosen-AllBelow :
    (held : Str → Option ℤ) (inputs : List ActorSnapshot) (id : Str) (v : ℤ)
    → AtLeast v (held id)
    → AllBelow id v inputs
    → (chosen actor_key actor_version held inputs id ≡ none)
      × (contains Str_discrete (accepted actor_key actor_version held inputs) id ≡ false)
unfolding chosen accepted contains
chosen-AllBelow held [] id v h below = (refl, refl)
chosen-AllBelow held (x ∷ rest) id v h below =
    let others = chosen-AllBelow held rest id v h below.1 in
    elim (Str_discrete x.actor_id id) [
      | yes p ↦
          let left =
            below-accepts v x.version (held x.actor_id) (subst (λ q. AtLeast v (held q)) (sym p) h)
              (below.0 p) in
          (rw (if_pos _ p, left) refl, rw left others.1)
      | no p ↦ (rw (if_neg _ p) others.0, ground (arith, others.1))
    ]

NextOf-AtLeast : (v : ℤ) (o o' : Option ℤ) → AtLeast v o → NextOf o o' → AtLeast v o'
NextOf-AtLeast v none o' h next = absurd h
NextOf-AtLeast v (some u) o' h next = rw (next.0) (omega (arith, next.1))

module _ (store : Store) where
  save-AtLeast :
      (w : store.State) (inputs : List ActorSnapshot) (id : Str) (v : ℤ)
      → AtLeast v (store.held w id)
      → AtLeast v (store.held (store.save w inputs).0 id)
  save-AtLeast w inputs id v h = elim ((store.save_promise w inputs).effect id) [
    | inl written ↦ rw written (chosen-AtLeast (store.held w) inputs id v h)
    | inr kept ↦ rw kept h
  ]

  load-AtLeast :
      (w : store.State) (id q : Str) (v : ℤ)
      → AtLeast v (store.held w q)
      → AtLeast v (store.held (store.load w id).0 q)
  load-AtLeast w id q v h = elim ((store.load_promise w id).effect q) [
    | inl kept ↦ rw kept h
    | inr next ↦ NextOf-AtLeast v (store.held w q) (store.held (store.load w id).0 q) h next
  ]

  -- The version that is held for an actor never falls, whatever Save and Load are called on and however
  -- these calls end.
  pub Calls-AtLeast :
      {w w' : store.State} (id : Str) (v : ℤ)
      → Calls store w w'
      → AtLeast v (store.held w id)
      → AtLeast v (store.held w' id)
  Calls-AtLeast id v here h = h
  Calls-AtLeast id v (then_save {w'} inputs calls) h =
      save-AtLeast w' inputs id v (Calls-AtLeast id v calls h)
  Calls-AtLeast id v (then_load {w'} q calls) h =
      load-AtLeast w' q id v (Calls-AtLeast id v calls h)

  -- What a Save of versions below the one that was loaded leads to.
  pub record Fenced (w : store.State) (inputs : List ActorSnapshot) (id : Str) : Type 0 where
    pub unchanged : store.held (store.save w inputs).0 id ≡ store.held w id
    pub left_out :
        settled (store.save w inputs).1.err ≡ true
        → contains Str_discrete (store.save w inputs).1.success id ≡ false

  save-Fenced :
      (w : store.State) (inputs : List ActorSnapshot) (id : Str) (v : ℤ)
      → AtLeast v (store.held w id)
      → AllBelow id v inputs
      → Fenced w inputs id
  save-Fenced w inputs id v h below =
      let (none_chosen, absent) = chosen-AllBelow (store.held w) inputs id v h below in
      record {
        unchanged = elim ((store.save_promise w inputs).effect id) [
          | inl written ↦ rw (written, none_chosen) refl
          | inr kept ↦ kept
        ];
        left_out = λ t.
            contains-perm Str_discrete id (((store.save_promise w inputs).answer t).success)
            ∙ absent;
      }

  -- After a Load from a store that keeps its promise, which returned a snapshot, and any calls of Save
  -- and Load since, however they end, a Save whose snapshots of the actor all have versions below the
  -- one that was loaded leaves the version that is held for the actor as it is; and if it ends without
  -- an error, or with one that says that versions are stale and nothing else, the actor is not among
  -- the ids that it returns.
  pub Calls-Fenced :
      (w : store.State) {w' : store.State} (id : Str) (x : ActorSnapshot)
      (inputs : List ActorSnapshot)
      → (store.load w id).1 ≡ returned x
      → Calls store (store.load w id).0 w'
      → AllBelow id x.version inputs
      → Fenced w' inputs id
  Calls-Fenced w {w'} id x inputs loaded calls below =
      let at : AtLeast x.version (store.held (store.load w id).0 id) =
        rw (((store.load_promise w id).answer x loaded).1) (omega arith) in
      save-Fenced w' inputs id x.version (Calls-AtLeast id x.version calls at) below
