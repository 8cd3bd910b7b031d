-- ===== src/Storage/Mongo/Meets.antt =====
-- storage/mongo.go: a collection that does what MongoDB documents does what Meaning.antt says.
use goactor.Prelude.{
  ℕ, ◌+◌, ◌≡◌, ◌⊎◌, refl, sym, ◌∙◌, ap, inl, inr, true, not, if_pos, if_neg, ◌+ℤ◌, ◌<ℤ◌,
  Str_discrete, arith, Bool-cases, Option-cases, List, [], ◌∷◌, map, Option, none, some,
  if◌then◌else◌, ℤ, pos, Str,
}
use mathlib.Core.List.{Perm}
use mathlib.Core.Path.{subst}
use goactor.Message.{ActorSnapshot}
use goactor.Storage.{Snapshot, snapshot_from_message}
use goactor.Storage.Table.{accepts, accepted, chosen, IsDistinct}
use goactor.Storage.Contract.{NextOf, Below}
use goactor.Storage.Mongo.{Update, Updated, BulkError, Found, Client, Increment}
use goactor.Storage.Mongo.Save.{indices, snapshot_or_empty, models, update_of}
use goactor.Storage.Mongo.Behaviour.{
  Document, document_version, Documented, any_holds, holds, compare_by, set_fields, set_field,
  is_written, is_duplicate_key, after_update, update_named, failing_positions, after_increment,
  snapshot_at, Applied, EachApplied, UpdateDone, BulkDone, HasRoom, Raised, IncrementDone,
}
use goactor.Storage.Mongo.Meaning.{
  Guarded, guarded_of, update_from, guarded_models, update_id, update_bound, updated,
  stale_positions, Storing, held, Wrote, EachWritten, UpdatedOne, BulkWritten, Counted,
}

pub models-guarded :
    (inputs : List ActorSnapshot) → models inputs ≡ map update_from (guarded_models inputs)
unfolding models guarded_models update_of update_from guarded_of
models-guarded [] = refl
models-guarded (x ∷ rest) =
    ap (λ l. update_of (snapshot_or_empty (snapshot_from_message x)) ∷ l) (models-guarded rest)

ids-guarded :
    (us : List Guarded) → map (λ (u : Update). u.id) (map update_from us) ≡ map update_id us
unfolding update_from
ids-guarded [] = refl
ids-guarded (u ∷ rest) = ap (λ l. u.id ∷ l) (ids-guarded rest)

is_written-accepts :
    (u : Guarded) (old : Option Document)
    → is_written (update_from u) old ≡ accepts (document_version old) u.bound
unfolding is_written any_holds holds compare_by update_from
is_written-accepts u none = refl
is_written-accepts u (some d) = elim (Option-cases d.version) [
  | inl missing ↦ rw missing refl
  | inr (v, is) ↦ rw is (ground arith)
]

is_duplicate_key-accepts :
    (u : Guarded) (old : Option Document)
    → is_duplicate_key (update_from u) old ≡ not (accepts (document_version old) u.bound)
unfolding is_duplicate_key is_written update_from
is_duplicate_key-accepts u none = refl
is_duplicate_key-accepts u (some d) = ap not (is_written-accepts u (some d))

-- What one update leaves of a document.
after_one :
    (u : Guarded) (old : Option Document)
    → after_update (some (update_from u)) old
      ≡ updated old (if accepts (document_version old) u.bound then some u else none)
unfolding after_update set_fields set_field update_from
after_one u old = elim (Bool-cases (accepts (document_version old) u.bound)) [
  | inl taken ↦ rw (after_update, is_written-accepts u old, taken) refl
  | inr left ↦ rw (after_update, is_written-accepts u old, left) refl
]

after_update-chosen :
    (versions : Str → Option ℤ) (id : Str) (old : Option Document)
    → versions id ≡ document_version old
    → (us : List Guarded)
    → after_update (update_named (map update_from us) id) old
      ≡ updated old (chosen update_id update_bound versions us id)
unfolding after_update update_named chosen update_from
after_update-chosen versions id old h [] = refl
after_update-chosen versions id old h (u ∷ rest) = elim (Str_discrete u.id id) [
  | yes p ↦
      let same : versions u.id ≡ document_version old = ap versions p ∙ h in
      rw
        (
          update_named,
          chosen,
          if_pos (Str_discrete u.id id) p,
          if_pos (Str_discrete u.id id) p,
          same,
        )
        (after_one u old)
  | no p ↦
      rw (update_named, chosen, if_neg (Str_discrete u.id id) p, if_neg (Str_discrete u.id id) p)
        (after_update-chosen versions id old h rest)
]

failing_positions-stale :
    (collection : Str → Option Document) (index : ℕ) (us : List Guarded)
    → failing_positions collection index (map update_from us)
      ≡ stale_positions (λ id. document_version (collection id)) index us
unfolding failing_positions stale_positions update_from
failing_positions-stale collection index [] = refl
failing_positions-stale collection index (u ∷ rest) = ground (
  arith,
  is_duplicate_key-accepts u (collection u.id),
  failing_positions-stale collection (index + 1) rest,
)

module _ {S : Type 0} (view : S → Str → Option Document) (w w' : S) where
  Applied-Wrote : (us : List Guarded) → Applied view w w' (map update_from us) → Wrote view w w' us
  Applied-Wrote us h id = h id ∙ after_update-chosen (held view w) id (view w id) refl us

  EachApplied-EachWritten :
      (us : List Guarded) → EachApplied view w w' (map update_from us) → EachWritten view w w' us
  EachApplied-EachWritten us h id = elim (h id) [
    | inl done ↦ inl (done ∙ after_update-chosen (held view w) id (view w id) refl us)
    | inr kept ↦ inr kept
  ]

  pub UpdateDone-UpdatedOne :
      (u : Guarded) (reply : Updated)
      → UpdateDone view w w' (update_from u) reply
      → UpdatedOne view w w' u reply
  unfolding accepted update_from
  UpdateDone-UpdatedOne u reply law = record {
    effect = EachApplied-EachWritten (u ∷ []) law.effect;
    some_counts = λ m n h.
        let (applied, is) = law.some_counts m n h in
        (Applied-Wrote (u ∷ []) applied, ground (arith, is_written-accepts u (view w u.id)));
    duplicate = λ t h.
        let (applied, is) = law.duplicate t h in
        (Applied-Wrote (u ∷ []) applied, ground (arith, is_duplicate_key-accepts u (view w u.id)));
  }

  pub BulkDone-BulkWritten :
      (us : List Guarded) (reply : Option BulkError)
      → BulkDone view w w' (map update_from us) reply
      → BulkWritten view w w' us reply
  BulkDone-BulkWritten us reply law = record {
    effect = EachApplied-EachWritten us law.effect;
    written = λ h.
        let (applied, none_failed) = law.written h in
        (Applied-Wrote us applied, sym (failing_positions-stale (view w) 0 us) ∙ none_failed);
    stale_ones = λ errors h d.
        let (applied, perm) = law.duplicates errors h d in
        (
          Applied-Wrote us applied,
          subst (λ l. Perm (indices errors) l) (failing_positions-stale (view w) 0 us) perm,
        );
  }

  abbrev one_more : Str → Increment
  one_more id = record { id = id; by = pos 1; after = true }

  risen :
      (old : Option Document) (o : Option Document)
      → o ≡ after_increment (one_more []) old
      → ((v : ℤ) → document_version old ≡ some v → v <ℤ v +ℤ pos 1)
      → NextOf (document_version old) (document_version o)
  unfolding after_increment
  risen none o is room = tt
  risen (some d) o is room = elim (Option-cases d.version) [
    | inl missing ↦ rw missing tt
    | inr (v, there) ↦ rw there (ground arith, room v there)
  ]

  found_above :
      (id : Str) (old : Option Document) (d : Document) (doc : Snapshot)
      → some d ≡ after_increment (one_more []) old
      → doc ≡ snapshot_at id d
      → ((v : ℤ) → document_version old ≡ some v → v <ℤ v +ℤ pos 1)
      → (d.version ≡ some doc.version) × Below (document_version old) doc.version
  unfolding after_increment
  found_above id none d doc is same room = absurd (ground arith)
  found_above id (some o) d doc is same room = elim (Option-cases o.version) [
    | inl missing ↦ (ground arith, rw missing tt)
    | inr (v, there) ↦
        let next : v +ℤ pos 1 ≡ doc.version = ground arith in
        (ground arith, rw there (subst (λ u. v <ℤ u) next (room v there)))
  ]

  pub IncrementDone-Counted :
      (id : Str) (reply : Found)
      → IncrementDone view w w' (one_more id) reply
      → Counted view w w' id reply
  unfolding after_increment
  IncrementDone-Counted id reply law = record {
    effect = either law.effect;
    found = λ doc h.
        let (raised, room, d, there, same) = law.found doc h in
        let (is, below) =
          found_above id (view w id) d doc (sym there ∙ at id refl raised) same
            (rises id refl room) in
        (ap (λ (x : Snapshot). x.actor_id) same, ap document_version there ∙ is, below);
  }
    where
      at :
          (q : Str)
          → id ≡ q
          → Raised view w w' (one_more id)
          → view w' q ≡ after_increment (one_more []) (view w q)
      at q p raised = raised q ∙ if_pos (Str_discrete id q) p _ _

      rises :
          (q : Str)
          → id ≡ q
          → HasRoom view w (one_more id)
          → (v : ℤ) → document_version (view w q) ≡ some v
          → v <ℤ v +ℤ pos 1
      rises q p room v there =
          room v (ap (λ r. document_version (view w r)) p ∙ there) (omega arith)

      either :
          (Raised view w w' (one_more id) × HasRoom view w (one_more id))
            ⊎ ((q : Str) → view w' q ≡ view w q)
          → (q : Str) → (held view w' q ≡ held view w q) ⊎ NextOf (held view w q) (held view w' q)
      either (inr same) q = inl (ap document_version (same q))
      either (inl (raised, room)) q = elim (Str_discrete id q) [
        | yes p ↦ inr (risen (view w q) (view w' q) (at q p raised) (rises q p room))
        | no p ↦ inl (ap document_version (raised q ∙ if_neg (Str_discrete id q) p _ _))
      ]

pub storing :
    {S : Type 0} {client : Client S} {collection : Str} (laws : Documented client collection)
    → Storing client collection laws.view
storing {S} {client} {collection} laws = record {
  updates = λ w u. UpdateDone-UpdatedOne laws.view w _ u _ (laws.updates w (update_from u));
  writes = λ w us distinct. BulkDone-BulkWritten laws.view w _ us _ (
      laws.writes w (map update_from us)
        (subst (λ l. IsDistinct l) (sym (ids-guarded us)) distinct));
  increments = λ w id. IncrementDone-Counted laws.view w _ id _ (laws.increments w _);
}
