-- ===== src/Storage/Contract.antt =====
-- What Save promises, whichever the database: what is stored before and after, and what it returns.
use goactor.Prelude.{
  ◌≡◌, ◌≢◌, ◌⊎◌, refl, Bool, true, false, ◌&&◌, List, [], ◌∷◌, arith, Bool-cases, inl, inr, Option,
  none, some, ℤ, pos, ◌+ℤ◌, ◌<ℤ◌, Str,
}
use mathlib.Core.List.{Perm}
use mathlib.Core.List.Perm
use goactor.Message.{ActorSnapshot}
use goactor.Storage.{
  StoreError, BulkCause, write_failed, concern_failed, stale_among, not_found, stale, uninitialized,
  invalid, driver_error, codec_error, saving, loading, batch_item, stale_actors, joined, Saved,
  Result, returned, failed, is_stale,
}
use goactor.Storage.Table.{accepted, accepts, rejected, chosen}
use goactor.Storage.Checks.{actor_key, actor_version}

unfoldable pub all_stale : List BulkCause → Bool
all_stale [] = true
all_stale (write_failed id text ∷ rest) = false
all_stale (concern_failed text ∷ rest) = false
all_stale (stale_among ids ∷ rest) = all_stale rest

-- An error that is about stale versions and about nothing else.
unfoldable pub only_stale : StoreError → Bool
unfolding all_stale is_stale
only_stale (joined causes) = is_stale (joined causes) && all_stale causes
only_stale not_found = false
only_stale stale = true
only_stale uninitialized = false
only_stale (invalid why) = false
only_stale (driver_error text) = false
only_stale (codec_error text) = false
only_stale (saving id e) = only_stale e
only_stale (loading id e) = only_stale e
only_stale (batch_item i e) = only_stale e
only_stale (stale_actors ids) = true

pub only_stale-is_stale : (e : StoreError) → is_stale e ≡ false → only_stale e ≡ false
unfolding only_stale is_stale
only_stale-is_stale (joined causes) h = ground arith
only_stale-is_stale not_found h = refl
only_stale-is_stale stale h = absurd (ground arith)
only_stale-is_stale uninitialized h = refl
only_stale-is_stale (invalid why) h = refl
only_stale-is_stale (driver_error text) h = refl
only_stale-is_stale (codec_error text) h = refl
only_stale-is_stale (saving id e) h = only_stale-is_stale e h
only_stale-is_stale (loading id e) h = only_stale-is_stale e h
only_stale-is_stale (batch_item i e) h = only_stale-is_stale e h
only_stale-is_stale (stale_actors ids) h = absurd (ground arith)

-- Whether Save says for each snapshot if it is stored: no error, or stale versions.
abbrev pub settled : Option StoreError → Bool
settled none = true
settled (some e) = only_stale e

-- The version held after a snapshot was chosen to be written, or none was.
abbrev pub version_after : Option ℤ → Option ActorSnapshot → Option ℤ
version_after old none = old
version_after old (some x) = some x.version

module _ (held held' : Str → Option ℤ) (inputs : List ActorSnapshot) where
  abbrev pub VersionsWritten : Type 0
  VersionsWritten =
      (id : Str)
      → held' id ≡ version_after (held id) (chosen actor_key actor_version held inputs id)

  pub record Answer (saved : Saved) : Type 0 where
    pub written : VersionsWritten
    pub success : Perm saved.success (accepted actor_key actor_version held inputs)
    pub all_of_none : saved.err ≡ none → rejected actor_key actor_version held inputs ≡ []
    pub none_of_all : rejected actor_key actor_version held inputs ≡ [] → saved.err ≡ none

  pub record Promise (saved : Saved) : Type 0 where
    pub effect :
        (id : Str)
        → (held' id ≡ version_after (held id) (chosen actor_key actor_version held inputs id))
          ⊎ (held' id ≡ held id)
    pub answer : settled saved.err ≡ true → Answer saved

-- A version above the one that is held, and the next one; nothing is said where none is held.
abbrev pub Below : Option ℤ → ℤ → Type 0
Below none u = Unit
Below (some v) u = v <ℤ u

abbrev pub NextOf : Option ℤ → Option ℤ → Type 0
NextOf none o = Unit
NextOf (some v) o = (o ≡ some (v +ℤ pos 1)) × (v <ℤ v +ℤ pos 1)

-- What Load promises: a version stays, or it is the next one.
pub record Loaded (held held' : Str → Option ℤ) (id : Str) (result : Result ActorSnapshot)
    : Type 0 where
  pub effect : (q : Str) → (held' q ≡ held q) ⊎ NextOf (held q) (held' q)
  pub answer :
      (x : ActorSnapshot)
      → result ≡ returned x
      → (x.actor_id ≡ id) × (held' id ≡ some x.version) × Below (held id) x.version

accepts-of_some :
    (held : Str → Option ℤ) (x : ActorSnapshot)
    → accepted actor_key actor_version held (x ∷ []) ≢ []
    → (accepted actor_key actor_version held (x ∷ []) ≡ x.actor_id ∷ [])
      × (rejected actor_key actor_version held (x ∷ []) ≡ [])
unfolding accepted rejected
accepts-of_some held x h = elim (Bool-cases (accepts (held x.actor_id) x.version)) [
  | inl taken ↦ (ground arith, ground arith)
  | inr left ↦ absurd (h (ground arith))
]

rejects-of_none :
    (held : Str → Option ℤ) (x : ActorSnapshot)
    → accepted actor_key actor_version held (x ∷ []) ≡ []
    → rejected actor_key actor_version held (x ∷ []) ≡ x.actor_id ∷ []
unfolding accepted rejected
rejects-of_none held x h = ground arith

-- One snapshot that is stored, and one that is stale.
module _ (held held' : Str → Option ℤ) (x : ActorSnapshot)
    (written : VersionsWritten held held' (x ∷ [])) where
  pub stored-Answer :
      accepted actor_key actor_version held (x ∷ []) ≢ []
      → Answer held held' (x ∷ []) (record { success = x.actor_id ∷ []; err = none })
  stored-Answer some_id =
      let (is, no_others) = accepts-of_some held x some_id in
      record {
        written = written;
        success = rw is (Perm.refl (x.actor_id ∷ []));
        all_of_none = λ e. no_others;
        none_of_all = λ e. refl;
      }

  pub stale-Answer :
      (e : StoreError)
      → accepted actor_key actor_version held (x ∷ []) ≡ []
      → Answer held held' (x ∷ []) (record { success = []; err = some e })
  stale-Answer e no_id =
      let is = rejects-of_none held x no_id in
      record {
        written = written;
        success = rw no_id (Perm.refl []);
        all_of_none = λ h. absurd (ground arith);
        none_of_all = λ h. absurd (ground arith);
      }

-- An error that is not about stale versions, where nothing is stored.
pub refused-Promise :
    (held : Str → Option ℤ) (inputs : List ActorSnapshot) (e : StoreError)
    → is_stale e ≡ false
    → Promise held held inputs (record { success = []; err = some e })
refused-Promise held inputs e h = record {
  effect = λ id. inr refl;
  answer = λ t. absurd (ground (arith, only_stale-is_stale e h));
}

-- A Load that is refused.
pub unmoved : (held : Str → Option ℤ) (id : Str) (e : StoreError) → Loaded held held id (failed e)
unmoved held id e = record { effect = λ q. inl refl; answer = λ x h. absurd (ground arith) }
