-- ===== src/Storage/Postgres/Refine.antt =====
-- storage/postgres.go: the rows of a batch, and what saveBatchPostgres says of the ids it reads.
use goactor.Prelude.{
  ◌≡◌, refl, ap, ◌⊎◌, inl, inr, true, false, List, [], ◌∷◌, map, Option, none, some, ℤ, Str,
  Str_discrete, arith, Option-cases, Bool-cases,
}
use mathlib.Core.List.{Perm}
use goactor.Prelude.Assoc.{contains, length}
use goactor.Message.{ActorSnapshot}
use goactor.Storage.{snapshot_from_message, Snapshot, Result, returned, failed}
use goactor.Storage.Table.{
  accepted, rejected, chosen, IsDistinct, Encodes, accepted-Encodes, chosen-Encodes, encode-chosen,
  length-accepted, length-perm, contains-accepted,
}
use goactor.Storage.Checks.{actor_key, actor_version, document_of, snapshot_from_message-returned}
use goactor.Storage.Contract.{Promise, Answer, only_stale, settled, version_after, VersionsWritten}
use goactor.Storage.Postgres.{Codec, Rows, opened, refused, Columns, encode_postgres_snapshot}
use goactor.Storage.Postgres.Save.{read_ids, all_saved, scan_ids, missing_ids}
use goactor.Storage.Postgres.Behaviour.{row_id}
use goactor.Storage.Postgres.Meaning.{
  InsertedIds, Wrote, Kept, held, version_at, row_version, written_ids,
}
use goactor.Storage.Postgres.Encoding.{row_of, columns_of, and_then-returned, if_returned}

pub encode_postgres_snapshot-returned :
    (codec : Codec) (x : ActorSnapshot) (e : Snapshot × Str × Str)
    → encode_postgres_snapshot codec x ≡ returned e
    → e.0 ≡ document_of x
unfolding encode_postgres_snapshot
encode_postgres_snapshot-returned codec x e h =
    let (doc, made, h1) = and_then-returned (snapshot_from_message x) _ e h in
    let (state, _, h2) = and_then-returned _ _ e h1 in
    let (dedup, _, h3) = and_then-returned _ _ e h2 in
    let same = snapshot_from_message-returned x doc made in ground arith

if_returned-some :
    (r : Result (Snapshot × Str × Str)) (c : Columns)
    → if_returned r ≡ some c
    → (e : Snapshot × Str × Str) × (r ≡ returned e) × (columns_of e ≡ c)
if_returned-some (returned e) c h = (e, refl, ground arith)
if_returned-some (failed e) c h = absurd (ground arith)

-- A row keeps the id and the version of its snapshot.
pub row_of-keeps :
    (codec : Codec) (x : ActorSnapshot) (c : Columns)
    → row_of codec x ≡ some c
    → (c.actor_id ≡ x.actor_id) × (c.version ≡ x.version)
row_of-keeps codec x c h =
    let ((doc, state, dedup), made, is) = if_returned-some (encode_postgres_snapshot codec x) c h in
    let same = encode_postgres_snapshot-returned codec x (doc, state, dedup) made in
    (ground arith, ground arith)

module _ (codec : Codec) {S : Type 0} (view : S → Str → Option Columns) (normal : Str → Str)
    (w w' : S) (inputs : List ActorSnapshot) (rows : List Columns)
    (encodes : Encodes (row_of codec) inputs rows) where
  pub versions_written :
      Wrote view normal w w' rows
      → VersionsWritten (held view normal w) (held view normal w') inputs
  versions_written h id =
      let old = held view normal w in
      let same =
        chosen-Encodes (row_of codec) actor_key actor_version row_id row_version
          (row_of-keeps codec) old inputs rows id encodes in
      elim (Option-cases (chosen actor_key actor_version old inputs id)) [
        | inl none_chosen ↦ ground (arith, h id)
        | inr (x, is) ↦
            let (c, coded) =
              encode-chosen (row_of codec) actor_key actor_version row_id row_version
                (row_of-keeps codec) old inputs rows id x encodes is in
            let kept = row_of-keeps codec x c coded in ground (arith, h id)
      ]

-- The inputs that are not among the ids that were written.
missing_ids-accepted :
    (held : Str → Option ℤ) (success : List Str) (inputs : List ActorSnapshot)
    → IsDistinct (map actor_key inputs)
    → ((id : Str)
        → contains Str_discrete (map actor_key inputs) id ≡ true
        → contains Str_discrete success id
          ≡ contains Str_discrete (accepted actor_key actor_version held inputs) id)
    → missing_ids success inputs ≡ rejected actor_key actor_version held inputs
unfolding missing_ids rejected accepted contains
missing_ids-accepted held success [] d h = refl
missing_ids-accepted held success (x ∷ rest) d h = ground (
  arith,
  h x.actor_id,
  contains-accepted actor_key actor_version held rest x.actor_id d.0,
  missing_ids-accepted held success rest d.1 (λ id m. elim (Str_discrete x.actor_id id) [
    | yes p ↦ absurd (ground (arith, d.0))
    | no p ↦ ground (arith, h id)
  ]),
)

scan_ids-clean :
    (ids : List (Option Str)) → (scan_ids ids).1 ≡ false → ids ≡ map some (scan_ids ids).0
unfolding scan_ids
scan_ids-clean [] h = refl
scan_ids-clean (none ∷ rest) h = absurd (ground arith)
scan_ids-clean (some id ∷ rest) h = ap (λ l. some id ∷ l) (scan_ids-clean rest h)

all_saved-success :
    (inputs : List ActorSnapshot) (success : List Str)
    → (all_saved inputs success).success ≡ success
unfolding all_saved
all_saved-success inputs success = ground arith

nil_of_length : (l : List Str) → length l ≡ 0 → l ≡ []
nil_of_length [] h = refl
nil_of_length (x ∷ l) h = absurd (omega arith)

all_saved-Answer :
    (held held' : Str → Option ℤ) (inputs : List ActorSnapshot) (success : List Str)
    → VersionsWritten held held' inputs
    → Perm success (accepted actor_key actor_version held inputs)
    → Answer held held' inputs (all_saved inputs success)
unfolding all_saved
all_saved-Answer held held' inputs success written perm =
    let n = length-perm perm in
    let m = length-accepted actor_key actor_version held inputs in
    record {
      written = written;
      success = rw (all_saved-success inputs success) perm;
      all_of_none =
          λ e. nil_of_length (rejected actor_key actor_version held inputs) (ground arith);
      none_of_all = λ e. let z = ap length e in ground arith;
    }

-- What the end of saveBatchPostgres says, of an insertion of the rows of the inputs.
module _ (codec : Codec) {S : Type 0} (view : S → Str → Option Columns) (normal : Str → Str)
    (w w' : S) (inputs : List ActorSnapshot) (rows : List Columns)
    (encodes : Encodes (row_of codec) inputs rows) where
  pub effect-versions :
      Wrote view normal w w' rows ⊎ Kept view normal w w'
      → (id : Str)
      → (held view normal w' id
          ≡ version_after
              (held view normal w id)
              (chosen actor_key actor_version (held view normal w) inputs id))
        ⊎ (held view normal w' id ≡ held view normal w id)
  effect-versions (inl wrote) id =
      inl (versions_written codec view normal w w' inputs rows encodes wrote id)
  effect-versions (inr kept) id = inr (ap version_at (kept id))

  pub written_ids-accepted :
      written_ids view normal w rows ≡ accepted actor_key actor_version (held view normal w) inputs
  written_ids-accepted =
      accepted-Encodes (row_of codec) actor_key actor_version row_id row_version
        (row_of-keeps codec) (held view normal w) inputs rows encodes

  opened-Answer :
      (ids : List (Option Str)) (err : Option Str)
      → InsertedIds view normal w w' rows (opened ids err)
      → settled (read_ids inputs (opened ids err)).err ≡ true
      → Answer (held view normal w) (held view normal w') inputs (read_ids inputs (opened ids err))
  unfolding read_ids only_stale
  opened-Answer ids err inserted h = elim (Bool-cases (scan_ids ids).1) [
    | inl broken ↦ absurd (ground arith)
    | inr whole ↦ elim (Option-cases err) [
      | inr (e, is) ↦ absurd (ground arith)
      | inl clean ↦
          let (wrote, perm) =
            inserted.clean (scan_ids ids).0 (ground (arith, scan_ids-clean ids)) in
          rw (read_ids, whole, clean)
            (all_saved-Answer (held view normal w) (held view normal w') inputs (scan_ids ids).0
              (versions_written codec view normal w w' inputs rows encodes wrote)
              (rw (← written_ids-accepted) perm))
    ]
  ]

  pub read_ids-Promise :
      (reply : Rows)
      → InsertedIds view normal w w' rows reply
      → Promise (held view normal w) (held view normal w') inputs (read_ids inputs reply)
  unfolding read_ids only_stale
  read_ids-Promise (refused e) inserted = record {
    effect = effect-versions inserted.effect;
    answer = λ h. absurd (ground arith);
  }
  read_ids-Promise (opened ids err) inserted = record {
    effect = effect-versions inserted.effect;
    answer = opened-Answer ids err inserted;
  }
