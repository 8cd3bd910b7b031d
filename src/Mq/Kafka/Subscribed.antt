-- ===== src/Mq/Kafka/Subscribed.antt =====
-- mq/kafka.go: what Subscribe does with what the admin client finds.
use goactor.Prelude.{
  ◌≡◌, ◌≢◌, refl, sym, ◌∙◌, ap, ◌⊎◌, inl, inr, Bool, true, false, ◌&&◌, List, [], ◌∷◌, map, Option,
  none, some, if◌then◌else◌, ℤ, ℤ_discrete, arith, Bool-cases, Option-cases,
}
use mathlib.Core.List.{lookup}
use goactor.Prelude.Assoc.{insert, contains, lookup-insert}
use goactor.Mq.Kafka.{
  Kafka, Reply, returned, context_error, invalid, client_error, missing_result, convert_error, call,
  add_consume_partitions, validated, none_negative,
}
use goactor.Mq.Kafka.Connect.{
  Checkpoint, start_of, find_offsets, shard_offset, add_found, subscribe_some, subscribe,
}

-- Where a partition starts, if something is saved for it.
abbrev pub saved_start : Option Checkpoint → Option ℤ
saved_start none = none
saved_start (some c) = some (start_of c)

abbrev pub AllFound : (ℤ → Option Checkpoint) → List ℤ → Type 0
AllFound saved [] = Unit
AllFound saved (shard ∷ rest) =
    ((c : Checkpoint) × (saved shard ≡ some c) × (c.failed ≡ false)) × AllFound saved rest

-- Each shard starts where its checkpoint says, and no other one.
abbrev pub StartsAt : (ℤ → Option Checkpoint) → List ℤ → List (ℤ × ℤ) → List (ℤ × ℤ) → Type 0
StartsAt saved shards before found =
    (id : ℤ)
    → lookup ℤ_discrete id found ≡ (
        if contains ℤ_discrete shards id
        then saved_start (saved id)
        else lookup ℤ_discrete id before)

found_step :
    (saved : ℤ → Option Checkpoint) (shard : ℤ) (rest : List ℤ) (c : Checkpoint)
    (before found : List (ℤ × ℤ))
    → saved shard ≡ some c
    → StartsAt saved rest (insert ℤ_discrete shard (start_of c) before) found
    → StartsAt saved (shard ∷ rest) before found
unfolding contains
found_step saved shard rest c before found is starts id = elim (ℤ_discrete shard id) [
  | yes p ↦
      let at : saved id ≡ some c = ap saved (sym p) ∙ is in
      ground (arith, starts id, lookup-insert ℤ_discrete shard id (start_of c) before)
  | no p ↦ ground (arith, starts id, lookup-insert ℤ_discrete shard id (start_of c) before)
]

find_offsets-StartsAt :
    (saved : ℤ → Option Checkpoint) (before : List (ℤ × ℤ)) (shards : List ℤ) (found : List (ℤ × ℤ))
    → find_offsets saved before shards ≡ returned found
    → StartsAt saved shards before found
unfolding find_offsets contains
find_offsets-StartsAt saved before [] found h = λ id. ground arith
find_offsets-StartsAt saved before (shard ∷ rest) found h = elim (Option-cases (saved shard)) [
  | inl missing ↦ absurd (ground arith)
  | inr (c, is) ↦ elim (Bool-cases c.failed) [
    | inl bad ↦ absurd (ground arith)
    | inr good ↦ found_step saved shard rest c before found is (
        find_offsets-StartsAt saved (insert ℤ_discrete shard (start_of c) before) rest found
          (ground arith))
  ]
]

find_offsets-AllFound :
    (saved : ℤ → Option Checkpoint) (before : List (ℤ × ℤ)) (shards : List ℤ)
    → AllFound saved shards
    → (found : List (ℤ × ℤ)) × (find_offsets saved before shards ≡ returned found)
unfolding find_offsets
find_offsets-AllFound saved before [] h = (before, refl)
find_offsets-AllFound saved before (shard ∷ rest) ((c, is, good), h) =
    let (found, e) =
      find_offsets-AllFound saved (insert ℤ_discrete shard (start_of c) before) rest h in
    (found, ground arith)

find_offsets-returned :
    (saved : ℤ → Option Checkpoint) (before : List (ℤ × ℤ)) (shards : List ℤ) (found : List (ℤ × ℤ))
    → find_offsets saved before shards ≡ returned found
    → AllFound saved shards
unfolding find_offsets
find_offsets-returned saved before [] found h = tt
find_offsets-returned saved before (shard ∷ rest) found h = elim (Option-cases (saved shard)) [
  | inl missing ↦ absurd (ground arith)
  | inr (c, is) ↦ elim (Bool-cases c.failed) [
    | inl bad ↦ absurd (ground arith)
    | inr good ↦ (
      (c, is, good),
      find_offsets-returned saved (insert ℤ_discrete shard (start_of c) before) rest found
          (ground arith),
    )
  ]
]

-- The topic, and the call by which shards are subscribed.
abbrev pub added : Kafka → List (ℤ × ℤ) → Kafka
added k found = call k (add_consume_partitions k.config.topic (map shard_offset found))

-- What keeps Subscribe from its work: the context, a negative shard, the client, a missing checkpoint.
abbrev pub Hindered : Bool → Option (ℤ → Option Checkpoint) → List ℤ → Type 0
Hindered fine saved shards =
    (fine ≡ false)
    ⊎ ((saved ≡ none) ⊎ ((s : ℤ → Option Checkpoint) × (saved ≡ some s) × (¬ AllFound s shards)))

-- What Subscribe does: everything, or nothing. `entered` says that the first look at the context and
-- the shards found no error, and `live` is the second look at the context.
abbrev pub Subscribed :
    Bool → Bool → Option (ℤ → Option Checkpoint) → Kafka → List ℤ → Kafka × Reply Unit → Type 0
Subscribed entered live saved k shards r =
    (r ≡ (k, returned tt)) × (shards ≡ []) × (entered ≡ true)
    ⊎ ((r.0 ≡ k) × (r.1 ≢ returned tt) × Hindered (entered && live) saved shards
        ⊎ ((entered ≡ true)
            × (live ≡ true)
            × (s : ℤ → Option Checkpoint) × (saved ≡ some s)
            × AllFound s shards
            × (found : List (ℤ × ℤ)) × (r ≡ (added k found, returned tt))
            × StartsAt s shards [] found))

not-AllFound :
    (s : ℤ → Option Checkpoint) (shards : List ℤ) (reply : Reply (List (ℤ × ℤ)))
    → find_offsets s [] shards ≡ reply
    → ((found : List (ℤ × ℤ)) → reply ≢ returned found)
    → ¬ AllFound s shards
not-AllFound s shards reply is no_offsets all =
    let (found, e) = find_offsets-AllFound s [] shards all in no_offsets found (sym is ∙ e)

module _ (s : ℤ → Option Checkpoint) (k : Kafka) (shards : List ℤ) where
  missed :
      (live : Bool) (reply : Reply (List (ℤ × ℤ))) (error : Reply Unit)
      → find_offsets s [] shards ≡ reply
      → ((found : List (ℤ × ℤ)) → reply ≢ returned found)
      → error ≢ returned tt
      → Subscribed true live (some s) k shards (k, error)
  missed live reply error is no_offsets bad =
      inr (inl (refl, bad, inr (inr (s, refl, not-AllFound s shards reply is no_offsets))))

  add_found-Subscribed :
      (live : Bool) (reply : Reply (List (ℤ × ℤ)))
      → find_offsets s [] shards ≡ reply
      → Subscribed true live (some s) k shards (add_found live k reply)
  unfolding add_found
  add_found-Subscribed true (returned found) is = inr (
      inr (
        refl,
        refl,
        s,
        refl,
        find_offsets-returned s [] shards found is,
        found,
        refl,
        find_offsets-StartsAt s [] shards found is,
      ))
  add_found-Subscribed false (returned found) is = inr (inl (refl, (λ e. ground arith), inl refl))
  add_found-Subscribed live context_error is =
      missed live context_error context_error is (λ found e. ground arith) (λ e. ground arith)
  add_found-Subscribed live invalid is =
      missed live invalid invalid is (λ found e. ground arith) (λ e. ground arith)
  add_found-Subscribed live client_error is =
      missed live client_error client_error is (λ found e. ground arith) (λ e. ground arith)
  add_found-Subscribed live missing_result is =
      missed live missing_result missing_result is (λ found e. ground arith) (λ e. ground arith)
  add_found-Subscribed live (convert_error c) is =
      missed live (convert_error c) (convert_error c) is (λ found e. ground arith)
        (λ e. ground arith)

subscribe_some-Subscribed :
    (live : Bool) (saved : Option (ℤ → Option Checkpoint)) (k : Kafka) (shards : List ℤ)
    → Subscribed true live saved k shards (subscribe_some live saved k shards)
unfolding subscribe_some
subscribe_some-Subscribed live saved k [] = inl (refl, refl, refl)
subscribe_some-Subscribed live none k (shard ∷ rest) =
    inr (inl (refl, (λ e. ground arith), inr (inl refl)))
subscribe_some-Subscribed live (some s) k (shard ∷ rest) =
    add_found-Subscribed s k (shard ∷ rest) live (find_offsets s [] (shard ∷ rest)) refl

-- Subscribe does one of three things. For no shards, and a context without an error, it returns without
-- a call of the client. It makes no call and returns an error; then the context has an error at one of
-- the two looks, a shard is negative, the client gives no checkpoints, or a shard's checkpoint is missing
-- or failed. Or neither look finds an error, no shard is negative and every shard's checkpoint is found
-- and did not fail; then it makes one call, which adds each of the shards and no other, each to start at
-- its checkpoint, or at the beginning if none was saved.
pub subscribe-Subscribed :
    (live live' : Bool) (saved : Option (ℤ → Option Checkpoint)) (k : Kafka) (shards : List ℤ)
    → Subscribed
        (live && none_negative shards)
        live'
        saved
        k
        shards
        (subscribe live live' saved k shards)
unfolding subscribe validated
subscribe-Subscribed false live' saved k shards = inr (inl (refl, (λ e. ground arith), inl refl))
subscribe-Subscribed true live' saved k shards = elim (Bool-cases (none_negative shards)) [
  | inl fine ↦ rw fine (subscribe_some-Subscribed live' saved k shards)
  | inr bad ↦ rw bad (inr (inl (refl, (λ e. ground arith), inl refl)))
]
