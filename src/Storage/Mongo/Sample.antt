-- ===== src/Storage/Mongo/Sample.antt =====
-- A collection in memory that does what MongoDB documents, for the tests.
use goactor.Prelude.{
  ◌≡◌, refl, sym, ◌∙◌, ap, inl, inr, Bool, true, false, List, [], ◌∷◌, map, Option, none, some, ite,
  if◌then◌else◌, ℤ, pos, ◌+ℤ◌, lt_ℤ, Str, Str_discrete, arith,
}
use mathlib.Core.List.Perm
use mathlib.Core.List.{Perm}
use mathlib.Core.Path.{subst}
use goactor.Storage.{Snapshot}
use goactor.Storage.Mongo.{
  Update, Updated, counts, duplicate_key, WriteError, BulkError, bulk_exception, Found, document,
  no_documents, find_error, Client, Increment,
}
use goactor.Storage.Mongo.Save.{indices}
use goactor.Storage.Mongo.Behaviour.{
  Document, document_version, is_written, is_duplicate_key, after_update, update_named,
  failing_positions, after_increment, snapshot_at, UpdateDone, BulkDone, IncrementDone, Documented,
  HasRoom,
}

abbrev pub Collection : Type 0
Collection = Str → Option Document

abbrev view : Collection → Str → Option Document
view w id = w id

abbrev written : Collection → List Update → Collection
written w us id = after_update (update_named us id) (w id)

abbrev update_reply : Bool → Bool → Updated
update_reply wrote true = duplicate_key []
update_reply true false = counts (pos 1) (pos 0)
update_reply false false = counts (pos 0) (pos 0)

abbrev duplicate_at : ℤ → WriteError
duplicate_at index = record { index = index; is_duplicate = true; text = [] }

abbrev bulk_reply : List ℤ → Option BulkError
bulk_reply [] = none
bulk_reply (i ∷ positions) = some (bulk_exception (map duplicate_at (i ∷ positions)) none)

abbrev raised : Collection → Increment → Collection
raised w i q = ite (Str_discrete i.id q) (after_increment i (w q)) (w q)

abbrev seen_document : Str → Option Document → Found
seen_document id none = no_documents
seen_document id (some d) = document (snapshot_at id d)

abbrev rises : Option ℤ → ℤ → Bool
rises none by = true
rises (some v) by = lt_ℤ v (v +ℤ by)

-- A version that does not rise is out of range.
abbrev count_document : Collection → Increment → Bool → Collection × Found
count_document w i true =
    (raised w i, seen_document i.id ((if i.after then raised w i else w) i.id))
count_document w i false = (w, find_error [])

abbrev pub memory : Client Collection
memory = record {
  connect = λ w uri. (w, none);
  ping = λ w. (w, none);
  disconnect = λ w. (w, none);
  update_one = λ w name u.
      (written w (u ∷ []), update_reply (is_written u (w u.id)) (is_duplicate_key u (w u.id)));
  bulk_write = λ w name us. (written w us, bulk_reply (failing_positions (view w) 0 us));
  find_one_and_update = λ w name i. count_document w i (rises (document_version (w i.id)) i.by);
}

pub update_reply-UpdateDone :
    (w : Collection) (u : Update) (b c : Bool)
    → is_written u (w u.id) ≡ b
    → is_duplicate_key u (w u.id) ≡ c
    → UpdateDone view w (written w (u ∷ [])) u (update_reply b c)
update_reply-UpdateDone w u b true is dup = record {
  effect = λ id. inl refl;
  some_counts = λ m n h. absurd (ground arith);
  duplicate = λ t h. (λ id. refl, dup);
}
update_reply-UpdateDone w u true false is dup = record {
  effect = λ id. inl refl;
  some_counts = λ m n h. (λ id. refl, ground arith);
  duplicate = λ t h. absurd (ground arith);
}
update_reply-UpdateDone w u false false is dup = record {
  effect = λ id. inl refl;
  some_counts = λ m n h. (λ id. refl, ground arith);
  duplicate = λ t h. absurd (ground arith);
}

indices-duplicates : (positions : List ℤ) → indices (map duplicate_at positions) ≡ positions
unfolding indices
indices-duplicates [] = refl
indices-duplicates (i ∷ rest) = ap (λ l. i ∷ l) (indices-duplicates rest)

pub bulk_reply-BulkDone :
    (w : Collection) (us : List Update) (positions : List ℤ)
    → failing_positions (view w) 0 us ≡ positions
    → BulkDone view w (written w us) us (bulk_reply positions)
bulk_reply-BulkDone w us [] is = record {
  effect = λ id. inl refl;
  written = λ h. (λ id. refl, is);
  duplicates = λ errors h d. absurd (ground arith);
}
bulk_reply-BulkDone w us (i ∷ rest) is = record {
  effect = λ id. inl refl;
  written = λ h. absurd (ground arith);
  duplicates = λ errors h d.
      let these : map duplicate_at (i ∷ rest) ≡ errors = ground arith in
      let same : i ∷ rest ≡ indices errors =
        sym (indices-duplicates (i ∷ rest)) ∙ ap indices these in
      (
        λ id. refl,
        subst (λ l. Perm (indices errors) l) (sym is)
            (subst (λ l. Perm (indices errors) l) (sym same) (Perm.refl (indices errors))),
      );
}

seen_document-some :
    (id : Str) (o : Option Document) (doc : Snapshot)
    → seen_document id o ≡ document doc
    → (d : Document) × (o ≡ some d) × (doc ≡ snapshot_at id d)
seen_document-some id none doc h = absurd (ground arith)
seen_document-some id (some d) doc h = (d, refl, ground arith)

pub count_document-IncrementDone :
    (w : Collection) (i : Increment) (b : Bool)
    → rises (document_version (w i.id)) i.by ≡ b
    → IncrementDone view w (count_document w i b).0 i (count_document w i b).1
count_document-IncrementDone w i false is = record {
  effect = inr (λ q. refl);
  found = λ doc h. absurd (ground arith);
}
count_document-IncrementDone w i true is =
    let room : HasRoom view w i = λ v there positive. ground arith in
    record {
      effect = inl (λ q. refl, room);
      found = λ doc h.
          let (d, there, same) =
            seen_document-some i.id ((if i.after then raised w i else w) i.id) doc h in
          (λ q. refl, room, d, there, same);
    }

-- The collection does what MongoDB documents.
unfoldable pub memory-Documented : (name : Str) → Documented memory name
memory-Documented name = record {
  view = view;
  updates = λ w u.
      update_reply-UpdateDone w u (is_written u (w u.id)) (is_duplicate_key u (w u.id)) refl refl;
  writes = λ w us d. bulk_reply-BulkDone w us (failing_positions (view w) 0 us) refl;
  increments =
      λ w i. count_document-IncrementDone w i (rises (document_version (w i.id)) i.by) refl;
}
