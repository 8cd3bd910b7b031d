-- ===== src/Storage/Mongo/Bulk.antt =====
-- storage/mongo.go: what saveBatch says of an answer of BulkWrite keeps the promise of a store.
use goactor.Prelude.{
  suc, ◌≡◌, refl, sym, ◌∙◌, ap, ◌⊎◌, inl, inr, true, List, [], ◌∷◌, Option, none, some, ℤ_discrete,
  pos, Str, arith, Bool-cases,
}
use mathlib.Core.List.Perm
use goactor.Prelude.Assoc.{length}
use goactor.Message.{ActorSnapshot}
use goactor.Storage.Table.{accepted, rejected, contains-perm, length-perm}
use goactor.Storage.Checks.{actor_key, actor_version, AllSound}
use goactor.Storage.Contract.{Promise, Answer, settled, VersionsWritten, only_stale}
use goactor.Storage.Mongo.{MongoStore, ready, BulkError, bulk_exception, other_error, WriteError}
use goactor.Storage.Mongo.Save.{
  bulk_saved, successful_actor_ids, classify_bulk_error, indices, actor_ids,
}
use goactor.Storage.Mongo.Behaviour.{Document, document_version}
use goactor.Storage.Mongo.Meaning.{BulkWritten, held, Wrote, EachWritten, guarded_models}
use goactor.Storage.Mongo.Refine.{
  models-Encodes, one_written, length-stale_positions, others_from-accepted, accepted-all,
  classify_bulk_error-stale,
}

pub ready-cases : (s : MongoStore) → (ready (some s) ≡ none) ⊎ (ready (some s) ≡ some s)
unfolding ready
ready-cases s = elim (Bool-cases s.has_client) [
  | inr missing ↦ inl (ground arith)
  | inl there ↦ elim (Bool-cases s.has_coll) [
    | inr missing ↦ inl (ground arith)
    | inl found ↦ inr (ground arith)
  ]
]

nil_of_length : {A : Type 0} (l : List A) → length l ≡ 0 → l ≡ []
nil_of_length [] h = refl
nil_of_length (x ∷ l) h = absurd (omega arith)

length-indices : (errors : List WriteError) → length (indices errors) ≡ length errors
unfolding indices
length-indices [] = refl
length-indices (e ∷ rest) = ap suc (length-indices rest)

-- What saveBatch says of an answer of BulkWrite.
module _ {S : Type 0} (view : S → Str → Option Document) (w w' : S) (inputs : List ActorSnapshot)
    (sound : AllSound inputs) where
  versions_written :
      Wrote view w w' (guarded_models inputs) → VersionsWritten (held view w) (held view w') inputs
  versions_written h id =
      one_written view w w' inputs (guarded_models inputs) (models-Encodes inputs sound) id (h id)

  each-versions :
      EachWritten view w w' (guarded_models inputs)
      → (reply : Option BulkError)
      → (settled (bulk_saved inputs reply).err ≡ true
          → Answer (held view w) (held view w') inputs (bulk_saved inputs reply))
      → Promise (held view w) (held view w') inputs (bulk_saved inputs reply)
  each-versions each reply answer = record {
    effect = λ id. elim (each id) [
      | inl h ↦
          inl (
            one_written view w w' inputs (guarded_models inputs) (models-Encodes inputs sound) id h)
      | inr kept ↦ inr (ap document_version kept)
    ];
    answer = answer;
  }

  written-Answer :
      BulkWritten view w w' (guarded_models inputs) none
      → Answer (held view w) (held view w') inputs (bulk_saved inputs none)
  unfolding bulk_saved
  written-Answer law =
      let (wrote, no_stale) = law.written refl in
      let no_rejected =
        nil_of_length (rejected actor_key actor_version (held view w) inputs)
          (sym (length-stale_positions (held view w) 0 inputs sound) ∙ ap length no_stale) in
      record {
        written = versions_written wrote;
        success = rw (accepted-all (held view w) inputs no_rejected) (Perm.refl (actor_ids inputs));
        all_of_none = λ e. no_rejected;
        none_of_all = λ e. refl;
      }

  stale-ones-Answer :
      (errors : List WriteError) (concern : Option Str)
      → BulkWritten view w w' (guarded_models inputs) (some (bulk_exception errors concern))
      → only_stale (classify_bulk_error inputs (bulk_exception errors concern)) ≡ true
      → Answer
          (held view w)
          (held view w')
          inputs
          (bulk_saved inputs (some (bulk_exception errors concern)))
  unfolding bulk_saved successful_actor_ids
  stale-ones-Answer errors (some e) law h =
      let (bad, _, _) = classify_bulk_error-stale inputs errors (some e) h in absurd (ground arith)
  stale-ones-Answer errors none law h =
      let (_, dups, not_empty) = classify_bulk_error-stale inputs errors none h in
      let (wrote, perm) = law.stale_ones errors refl dups in
      record {
        written = versions_written wrote;
        success =
            rw
              (others_from-accepted (held view w) (indices errors) 0 inputs sound
                (λ i above. contains-perm ℤ_discrete (pos i) perm))
              (Perm.refl (accepted actor_key actor_version (held view w) inputs));
        all_of_none = λ e. absurd (ground arith);
        none_of_all = λ e. absurd (
            not_empty (
              nil_of_length errors (
                sym (length-indices errors)
                ∙ length-perm perm
                ∙ length-stale_positions (held view w) 0 inputs sound
                ∙ ap length e)));
      }

  pub bulk_saved-Promise :
      (reply : Option BulkError)
      → BulkWritten view w w' (guarded_models inputs) reply
      → Promise (held view w) (held view w') inputs (bulk_saved inputs reply)
  unfolding bulk_saved classify_bulk_error only_stale
  bulk_saved-Promise none law = each-versions law.effect none (λ t. written-Answer law)
  bulk_saved-Promise (some (bulk_exception errors concern)) law =
      each-versions law.effect (some (bulk_exception errors concern))
        (stale-ones-Answer errors concern law)
  bulk_saved-Promise (some (other_error e)) law =
      each-versions law.effect (some (other_error e)) (λ t. absurd (ground arith))
