-- ===== src/Storage/Mongo/Refine.antt =====
-- storage/mongo.go: the updates of a batch, and what saveBatch says of the indices that fail.
use goactor.Prelude.{
  ℕ, ◌+◌, ◌≡◌, ◌≢◌, refl, sym, ◌∙◌, ap, inl, inr, true, false, not, List, [], ◌∷◌, Option, none,
  some, ◌≤◌, ◌<◌, ℤ, ℤ_discrete, pos, Str, arith, Option-cases, Bool-cases,
}
use mathlib.Core.Path.{subst}
use goactor.Prelude.Assoc.{contains, length, ◌∷ʳ◌}
use goactor.Message.{ActorSnapshot}
use goactor.Storage.{
  BulkCause, write_failed, concern_failed, stale_among, snapshot_from_message, returned,
}
use goactor.Storage.Table.{accepts, accepted, rejected, chosen, Encodes, chosen-Encodes}
use goactor.Storage.Checks.{actor_key, actor_version, document_of, AllSound}
use goactor.Storage.Contract.{version_after, only_stale, all_stale}
use goactor.Storage.Mongo.{WriteError, bulk_exception}
use goactor.Storage.Mongo.Save.{
  snapshot_or_empty, others_from, classify, with_concern, with_stale, join, classify_bulk_error,
  actor_ids, id_at,
}
use goactor.Storage.Mongo.Behaviour.{Document, all_duplicates}
use goactor.Storage.Mongo.Meaning.{
  update_id, update_bound, updated, stale_positions, held, Guarded, guarded_of, guarded_models,
}

abbrev pub sound_update : ActorSnapshot → Option Guarded
sound_update x = some (guarded_of (document_of x))

pub models-Encodes :
    (inputs : List ActorSnapshot)
    → AllSound inputs
    → Encodes sound_update inputs (guarded_models inputs)
unfolding guarded_models snapshot_or_empty
models-Encodes [] h = tt
models-Encodes (x ∷ rest) h = (rw (h.0) refl, models-Encodes rest h.1)

pub sound_update-keeps :
    (x : ActorSnapshot) (u : Guarded)
    → sound_update x ≡ some u
    → (u.id ≡ x.actor_id) × (u.bound ≡ x.version)
unfolding guarded_of
sound_update-keeps x u h = (ground arith, ground arith)

module _ {S : Type 0} (view : S → Str → Option Document) (w w' : S) (inputs : List ActorSnapshot)
    (us : List Guarded) (encodes : Encodes sound_update inputs us) where
  -- What a document's version becomes.
  pub one_written :
      (id : Str)
      → view w' id ≡ updated (view w id) (chosen update_id update_bound (held view w) us id)
      → held view w' id
        ≡ version_after (held view w id) (chosen actor_key actor_version (held view w) inputs id)
  unfolding guarded_of
  one_written id h =
      let same =
        chosen-Encodes sound_update actor_key actor_version update_id update_bound
          sound_update-keeps (held view w) inputs us id encodes in
      elim (Option-cases (chosen actor_key actor_version (held view w) inputs id)) [
        | inl nothing ↦ ground arith
        | inr (x, is) ↦ ground arith
      ]

-- Of updates that are sound, the positions and the ids that are stale.
module _ (held : Str → Option ℤ) where
  pub length-stale_positions :
      (index : ℕ) (inputs : List ActorSnapshot)
      → AllSound inputs
      → length (stale_positions held index (guarded_models inputs))
        ≡ length (rejected actor_key actor_version held inputs)
  unfolding stale_positions rejected guarded_models snapshot_or_empty guarded_of
  length-stale_positions index [] h = refl
  length-stale_positions index (x ∷ rest) h =
      rw (h.0) (ground (arith, length-stale_positions (index + 1) rest h.1))

  positions-above :
      (i index : ℕ) (us : List Guarded)
      → i < index
      → contains ℤ_discrete (stale_positions held index us) (pos i) ≡ false
  unfolding stale_positions contains ℤ_discrete
  positions-above i index [] h = refl
  positions-above i index (u ∷ rest) h = ground (arith, positions-above i (index + 1) rest)

  positions-here :
      (index : ℕ) (x : ActorSnapshot) (rest : List ActorSnapshot)
      → snapshot_from_message x ≡ returned (document_of x)
      → contains ℤ_discrete (stale_positions held index (guarded_models (x ∷ rest))) (pos index)
        ≡ not (accepts (held x.actor_id) x.version)
  unfolding stale_positions guarded_models snapshot_or_empty guarded_of contains ℤ_discrete
  positions-here index x rest sound =
      rw sound (elim (Bool-cases (accepts (held x.actor_id) x.version)) [
        | inl taken ↦
            rw taken (positions-above index (index + 1) (guarded_models rest) (omega arith))
        | inr left ↦ rw left (ground arith)
      ])

  positions-later :
      (index i : ℕ) (x : ActorSnapshot) (rest : List ActorSnapshot)
      → snapshot_from_message x ≡ returned (document_of x)
      → index < i
      → contains ℤ_discrete (stale_positions held index (guarded_models (x ∷ rest))) (pos i)
        ≡ contains ℤ_discrete (stale_positions held (index + 1) (guarded_models rest)) (pos i)
  unfolding stale_positions guarded_models snapshot_or_empty guarded_of contains ℤ_discrete
  positions-later index i x rest sound h =
      rw sound (elim (Bool-cases (accepts (held x.actor_id) x.version)) [
        | inl taken ↦ rw taken refl
        | inr left ↦ rw left (ground arith)
      ])

  pub others_from-accepted :
      (wrong : List ℤ) (index : ℕ) (inputs : List ActorSnapshot)
      → AllSound inputs
      → ((i : ℕ)
          → index ≤ i
          → contains ℤ_discrete wrong (pos i)
            ≡ contains ℤ_discrete (stale_positions held index (guarded_models inputs)) (pos i))
      → others_from wrong index inputs ≡ accepted actor_key actor_version held inputs
  unfolding others_from accepted
  others_from-accepted wrong index [] sound h = refl
  others_from-accepted wrong index (x ∷ rest) sound h =
      let here = h index (omega arith) ∙ positions-here index x rest sound.0 in
      let others =
        others_from-accepted wrong (index + 1) rest sound.1
          (λ i above. h i (omega arith) ∙ positions-later index i x rest sound.0 (omega arith)) in
      ground arith

pub accepted-all :
    (held : Str → Option ℤ) (inputs : List ActorSnapshot)
    → rejected actor_key actor_version held inputs ≡ []
    → accepted actor_key actor_version held inputs ≡ actor_ids inputs
unfolding accepted rejected actor_ids
accepted-all held [] h = refl
accepted-all held (x ∷ rest) h = ground (arith, accepted-all held rest)

all_stale-snoc_failed :
    (causes : List BulkCause) (id text : Str) → all_stale (causes ∷ʳ write_failed id text) ≡ false
unfolding all_stale
all_stale-snoc_failed [] id text = refl
all_stale-snoc_failed (write_failed i t ∷ causes) id text = refl
all_stale-snoc_failed (concern_failed t ∷ causes) id text = refl
all_stale-snoc_failed (stale_among ids ∷ causes) id text = all_stale-snoc_failed causes id text

all_stale-snoc_concern :
    (causes : List BulkCause) (text : Str) → all_stale (causes ∷ʳ concern_failed text) ≡ false
unfolding all_stale
all_stale-snoc_concern [] text = refl
all_stale-snoc_concern (write_failed i t ∷ causes) text = refl
all_stale-snoc_concern (concern_failed t ∷ causes) text = refl
all_stale-snoc_concern (stale_among ids ∷ causes) text = all_stale-snoc_concern causes text

all_stale-snoc_stale :
    (causes : List BulkCause) (ids : List Str)
    → all_stale (causes ∷ʳ stale_among ids) ≡ all_stale causes
unfolding all_stale
all_stale-snoc_stale [] ids = refl
all_stale-snoc_stale (write_failed i t ∷ causes) ids = refl
all_stale-snoc_stale (concern_failed t ∷ causes) ids = refl
all_stale-snoc_stale (stale_among others ∷ causes) ids = all_stale-snoc_stale causes ids

classify-duplicates :
    (inputs : List ActorSnapshot) (errors : List WriteError) (ids : List Str)
    (causes : List BulkCause)
    → all_stale (classify inputs errors (ids, causes)).1 ≡ true
    → (all_duplicates errors ≡ true) × (all_stale causes ≡ true)
unfolding classify all_duplicates
classify-duplicates inputs [] ids causes h = (refl, h)
classify-duplicates inputs (item ∷ rest) ids causes h = elim (Bool-cases item.is_duplicate) [
  | inl dup ↦
      let step : classify inputs (item ∷ rest) (ids, causes)
          ≡ classify inputs rest (ids ∷ʳ id_at inputs item.index, causes) =
        rw (classify, dup) refl in
      let (dups, was) =
        classify-duplicates inputs rest (ids ∷ʳ id_at inputs item.index) causes
          (ap (λ r. all_stale (r.1)) (sym step) ∙ h) in
      (rw dup dups, was)
  | inr other ↦
      let step : classify inputs (item ∷ rest) (ids, causes)
          ≡ classify inputs rest (ids, causes ∷ʳ write_failed (id_at inputs item.index) item.text) =
        rw (classify, other) refl in
      let (dups, was) =
        classify-duplicates inputs rest ids
          (causes ∷ʳ write_failed (id_at inputs item.index) item.text)
          (ap (λ r. all_stale (r.1)) (sym step) ∙ h) in
      absurd (ground (arith, all_stale-snoc_failed causes (id_at inputs item.index) item.text))
]

join-all_stale :
    (causes : List BulkCause) → only_stale (join causes) ≡ true → all_stale causes ≡ true
unfolding join only_stale
join-all_stale [] h = refl
join-all_stale (cause ∷ rest) h = ground arith

with_stale-all_stale :
    (ids : List Str) (causes : List BulkCause)
    → all_stale (with_stale ids causes) ≡ true
    → all_stale causes ≡ true
unfolding with_stale
with_stale-all_stale [] causes h = h
with_stale-all_stale (id ∷ ids) causes h = sym (all_stale-snoc_stale causes (id ∷ ids)) ∙ h

with_concern-all_stale :
    (concern : Option Str) (causes : List BulkCause)
    → all_stale (with_concern concern causes) ≡ true
    → (concern ≡ none) × (all_stale causes ≡ true)
unfolding with_concern
with_concern-all_stale none causes h = (refl, h)
with_concern-all_stale (some e) causes h = absurd (ground (arith, all_stale-snoc_concern causes e))

classify_bulk_error-some :
    (inputs : List ActorSnapshot) (errors : List WriteError)
    → only_stale (classify_bulk_error inputs (bulk_exception errors none)) ≡ true
    → errors ≢ []
unfolding classify_bulk_error classify with_concern with_stale join only_stale
classify_bulk_error-some inputs [] h = absurd (ground arith)
classify_bulk_error-some inputs (item ∷ rest) h = λ e. absurd (ground arith)

-- A bulk error that is about stale versions alone has no write concern, and its writes, of which there
-- is one at least, all failed for a duplicate key.
pub classify_bulk_error-stale :
    (inputs : List ActorSnapshot) (errors : List WriteError) (concern : Option Str)
    → only_stale (classify_bulk_error inputs (bulk_exception errors concern)) ≡ true
    → (concern ≡ none) × (all_duplicates errors ≡ true) × (errors ≢ [])
unfolding classify_bulk_error
classify_bulk_error-stale inputs errors concern h =
    let whole =
      join-all_stale
        (with_stale (classify inputs errors ([], [])).0
          (with_concern concern (classify inputs errors ([], [])).1))
        h in
    let (no_concern, rest) = with_concern-all_stale concern (classify inputs errors ([], [])).1 (
      with_stale-all_stale (classify inputs errors ([], [])).0
        (with_concern concern (classify inputs errors ([], [])).1) whole) in
    let (dups, _) = classify-duplicates inputs errors [] [] rest in
    (
      no_concern,
      dups,
      classify_bulk_error-some inputs errors (
          subst (λ c. only_stale (classify_bulk_error inputs (bulk_exception errors c)) ≡ true)
            no_concern h),
    )
