-- ===== src/Storage/Checks.antt =====
-- storage/storage.go: what a batch that passes validateBatch is like.
use goactor.Prelude.{
  ℕ, ◌+◌, ◌≡◌, refl, true, false, List, [], ◌∷◌, map, none, some, ℤ, Str, Str_discrete, arith, ◌⊎◌,
  inl, inr,
}
use goactor.Prelude.Assoc.{contains}
use goactor.Message.{ActorSnapshot}
use goactor.Storage.{
  Snapshot, StoreError, Result, returned, failed, is_stale, snapshot_from_message, validate_from,
  validate_batch,
}
use goactor.Storage.Table.{IsDistinct}

abbrev pub actor_key : ActorSnapshot → Str
actor_key x = x.actor_id

abbrev pub actor_version : ActorSnapshot → ℤ
actor_version x = x.version

abbrev pub document_of : ActorSnapshot → Snapshot
document_of x = record {
  actor_id = x.actor_id;
  actor_type = x.actor_type;
  version = x.version;
  offset = x.offset;
  state = x.state;
  dedup = x.dedup;
}

pub snapshot_from_message-returned :
    (x : ActorSnapshot) (s : Snapshot) → snapshot_from_message x ≡ returned s → s ≡ document_of x
unfolding snapshot_from_message
snapshot_from_message-returned x s h = ground arith

pub snapshot_from_message-failed :
    (x : ActorSnapshot) (e : StoreError) → snapshot_from_message x ≡ failed e → is_stale e ≡ false
unfolding snapshot_from_message is_stale
snapshot_from_message-failed x e h = ground arith

abbrev pub AllSound : List ActorSnapshot → Type 0
AllSound [] = Unit
AllSound (x ∷ rest) = (snapshot_from_message x ≡ returned (document_of x)) × AllSound rest

-- An item that passes.
record Passes (i : ℕ) (seen : List Str) (x : ActorSnapshot) (rest : List ActorSnapshot)
    : Type 0 where
  sound : snapshot_from_message x ≡ returned (document_of x)
  fresh : contains Str_discrete seen x.actor_id ≡ false
  others : validate_from (i + 1) (x.actor_id ∷ seen) rest ≡ none

validate_from-Passes :
    (i : ℕ) (seen : List Str) (x : ActorSnapshot) (rest : List ActorSnapshot) (r : Result Snapshot)
    → snapshot_from_message x ≡ r
    → validate_from i seen (x ∷ rest) ≡ none
    → Passes i seen x rest
unfolding validate_from
validate_from-Passes i seen x rest (failed e) is h = absurd (ground arith)
validate_from-Passes i seen x rest (returned s) is h =
    let same = snapshot_from_message-returned x s is in
    record { sound = ground arith; fresh = ground arith; others = ground arith }

-- An id that was seen is not among those that pass.
validate_from-apart :
    (i : ℕ) (seen : List Str) (inputs : List ActorSnapshot) (id : Str)
    → validate_from i seen inputs ≡ none
    → contains Str_discrete seen id ≡ true
    → contains Str_discrete (map actor_key inputs) id ≡ false
unfolding contains
validate_from-apart i seen [] id h before = refl
validate_from-apart i seen (x ∷ rest) id h before =
    let p = validate_from-Passes i seen x rest (snapshot_from_message x) refl h in
    let later : contains Str_discrete (x.actor_id ∷ seen) id ≡ true = ground arith in
    ground (arith, p.fresh, validate_from-apart (i + 1) (x.actor_id ∷ seen) rest id p.others later)

validate_from-IsDistinct :
    (i : ℕ) (seen : List Str) (inputs : List ActorSnapshot)
    → validate_from i seen inputs ≡ none
    → IsDistinct (map actor_key inputs) × AllSound inputs
validate_from-IsDistinct i seen [] h = (tt, tt)
validate_from-IsDistinct i seen (x ∷ rest) h =
    let p = validate_from-Passes i seen x rest (snapshot_from_message x) refl h in
    let (distinct, sound) = validate_from-IsDistinct (i + 1) (x.actor_id ∷ seen) rest p.others in
    (
      (
        validate_from-apart (i + 1) (x.actor_id ∷ seen) rest x.actor_id p.others
            (unfold contains in ground arith),
        distinct,
      ),
      (p.sound, sound),
    )

pub validate_batch-IsDistinct :
    (inputs : List ActorSnapshot)
    → validate_batch inputs ≡ none
    → IsDistinct (map actor_key inputs) × AllSound inputs
unfolding validate_batch
validate_batch-IsDistinct inputs h = validate_from-IsDistinct 0 [] inputs h

validate_from-stale :
    (i : ℕ) (seen : List Str) (inputs : List ActorSnapshot) (e : StoreError)
    → validate_from i seen inputs ≡ some e
    → is_stale e ≡ false
unfolding validate_from is_stale
validate_from-stale i seen [] e h = absurd (ground arith)
validate_from-stale i seen (x ∷ rest) e h =
    by_item (snapshot_from_message x) refl (validate_from-stale (i + 1) (x.actor_id ∷ seen) rest e)
  where
    by_item :
        (r : Result Snapshot)
        → snapshot_from_message x ≡ r
        → (validate_from (i + 1) (x.actor_id ∷ seen) rest ≡ some e → is_stale e ≡ false)
        → is_stale e ≡ false
    by_item (failed e') is later = ground (arith, snapshot_from_message-failed x e' is)
    by_item (returned s) is later = ground arith

-- What a batch is refused for is not a stale version.
pub validate_batch-stale :
    (inputs : List ActorSnapshot) (e : StoreError)
    → validate_batch inputs ≡ some e
    → is_stale e ≡ false
unfolding validate_batch
validate_batch-stale inputs e h = validate_from-stale 0 [] inputs e h

pub Result-cases :
    {A : Type 0} (r : Result A) → ((e : StoreError) × (r ≡ failed e)) ⊎ ((a : A) × (r ≡ returned a))
Result-cases (failed e) = inl (e, refl)
Result-cases (returned a) = inr (a, refl)
