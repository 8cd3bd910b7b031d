-- ===== src/Storage/Postgres/Quoted.antt =====
-- storage/postgres.go: the text of quoteQualifiedIdentifier is read by PostgreSQL as the names in it.
use goactor.Prelude.{
  ℕ, ◌≡◌, ◌≢◌, ◌≤◌, refl, sym, ap, ◌∙◌, Bool, true, false, ◌&&◌, Option, some, List, [], ◌∷◌, ◌++◌,
  ◌==◌, Str, runes, arith, Bool-cases, ◌⊎◌, inl, inr, bytes, ◌<◌,
}
use goactor.Prelude.Assoc.{length}
use goactor.Prelude.Utf8.Runes.{has, has-runes}
use goactor.Storage.{Result, returned, failed, invalid}
use goactor.Storage.Postgres.Name.{
  Unicode, is_letter, is_digit, all_name_runes, starts_name, valid_identifier_part, split_dot,
  quoted, quote_parts, quote_qualified_identifier,
}

-- A name that PostgreSQL takes between quotes as it is: not empty, no quote and no zero byte in it, and
-- not so long that it is cut.
pub record IsPlain (name : Str) : Type 0 where
  pub filled : name ≢ []
  pub no_quote : has 34 name ≡ false
  pub no_zero : has 0 name ≡ false
  pub short : length name ≤ 63

-- The names that PostgreSQL reads in a qualified name, and what it documents of quoted ones: a quoted
-- name stands for itself, and a dot comes between two names.
pub record NameReader : Type 0 where
  pub names_in : Str → Option (Str × List Str)
  pub one : (name : Str) → IsPlain name → names_in (quoted name) ≡ some (name, [])
  pub more :
      (name next s : Str) (names : List Str)
      → IsPlain name
      → names_in s ≡ some (next, names)
      → names_in (quoted name ++ 46 ∷ s) ≡ some (name, next ∷ names)

abbrev pub AllShort : Str → List Str → Type 0
AllShort name [] = length name ≤ 63
AllShort name (next ∷ names) = (length name ≤ 63) × AllShort next names

all_name_runes-free :
    (b : ℕ)
    → b < 48
    → (unicode : Unicode) (rs : List ℕ) → all_name_runes unicode rs ≡ true
    → has b rs ≡ false
unfolding all_name_runes is_letter is_digit has
all_name_runes-free b low unicode [] h = refl
all_name_runes-free b low unicode (r ∷ rs) h = ground (arith, all_name_runes-free b low unicode rs)

starts_name-free :
    (b : ℕ)
    → b < 48
    → (unicode : Unicode) (rs : List ℕ) → starts_name unicode rs ≡ true
    → has b rs ≡ false
unfolding starts_name is_letter has
starts_name-free b low unicode [] h = refl
starts_name-free b low unicode (r ∷ rs) h = ground (arith, all_name_runes-free b low unicode rs)

no_name : (unicode : Unicode) → valid_identifier_part unicode [] ≢ true
unfolding valid_identifier_part starts_name runes
no_name unicode e = ground arith

valid_identifier_part-IsPlain :
    (unicode : Unicode) (part : Str)
    → valid_identifier_part unicode part ≡ true
    → length part ≤ 63
    → IsPlain part
unfolding valid_identifier_part
valid_identifier_part-IsPlain unicode part h short = record {
  filled = λ e. no_name unicode (ap (valid_identifier_part unicode) (sym e) ∙ h);
  no_quote =
      has-runes 34 (omega arith) part (starts_name-free 34 (omega arith) unicode (runes part) h);
  no_zero =
      has-runes 0 (omega arith) part (starts_name-free 0 (omega arith) unicode (runes part) h);
  short = short;
}

unfoldable pub valid_names : Unicode → Str → List Str → Bool
valid_names unicode name [] = valid_identifier_part unicode name
valid_names unicode name (next ∷ names) =
    valid_identifier_part unicode name && valid_names unicode next names

-- If all names are valid, a text that PostgreSQL reads as them, and an error if not.
abbrev pub Quoted : NameReader → Unicode → Str → List Str → Result Str → Type 0
Quoted reader unicode name names r =
    ((valid_names unicode name names ≡ true)
      × (s : Str) × (r ≡ returned s)
      × (reader.names_in s ≡ some (name, names)))
    ⊎ ((valid_names unicode name names ≡ false)
        × (r ≡ failed (invalid (bytes "invalid postgres table name"))))

quote_parts-Quoted :
    (reader : NameReader) (unicode : Unicode) (part : Str) (others : List Str)
    → AllShort part others
    → Quoted reader unicode part others (quote_parts unicode part others)
unfolding quote_parts valid_names
quote_parts-Quoted reader unicode part [] short =
    elim (Bool-cases (valid_identifier_part unicode part)) [
      | inr bad ↦ inr (bad, rw bad refl)
      | inl good ↦ inl (
        good,
        quoted part,
        rw good refl,
        reader.one part (valid_identifier_part-IsPlain unicode part good short),
      )
    ]
quote_parts-Quoted reader unicode part (next ∷ others) (short, later) =
    elim (Bool-cases (valid_identifier_part unicode part)) [
      | inr bad ↦ inr (rw bad refl, rw bad refl)
      | inl good ↦ elim (quote_parts-Quoted reader unicode next others later) [
        | inr (wrong, failing) ↦ inr (rw (good, wrong) refl, rw (good, failing) refl)
        | inl (valid, s, made, reads) ↦ inl (
          rw (good, valid) refl,
          quoted part ++ 46 ∷ s,
          rw (good, made) refl,
          reader.more part next s others (valid_identifier_part-IsPlain unicode part good short)
              reads,
        )
      ]
    ]

-- The names with a dot between each two.
unfoldable pub joined : Str → List Str → Str
joined name [] = name
joined name (next ∷ names) = name ++ 46 ∷ joined next names

joined-cons :
    (b : ℕ) (name : Str) (names : List Str) → joined (b ∷ name) names ≡ b ∷ joined name names
unfolding joined
joined-cons b name [] = refl
joined-cons b name (next ∷ names) = refl

joined-split_dot : (s : Str) → joined (split_dot s).0 (split_dot s).1 ≡ s
unfolding joined split_dot
joined-split_dot [] = refl
joined-split_dot (b ∷ s) = elim (Bool-cases (b == 46)) [
  | inr other ↦ rw (other, joined-cons b (split_dot s).0 (split_dot s).1, joined-split_dot s) refl
  | inl dot ↦ let is : b ≡ 46 = ground arith in rw (dot, joined-split_dot s, is) refl
]

-- For the name of a table whose parts between dots have 63 bytes at most, quoteQualifiedIdentifier
-- returns a text if each part is a valid name, and the error `invalid` if not. A reader that does what
-- PostgreSQL documents of quoted names, which are not empty, hold no quote and no zero byte and are not
-- longer than that, reads in the text exactly these parts; and the parts with a dot between each two are
-- the name that was given.
pub quote_qualified_identifier_lem :
    (reader : NameReader) (unicode : Unicode) (value : Str)
    → AllShort (split_dot value).0 (split_dot value).1
    → Quoted reader unicode
        (split_dot value).0
        (split_dot value).1
        (quote_qualified_identifier unicode value)
      × (joined (split_dot value).0 (split_dot value).1 ≡ value)
unfolding quote_qualified_identifier
quote_qualified_identifier_lem reader unicode value short = (
  quote_parts-Quoted reader unicode (split_dot value).0 (split_dot value).1 short,
  joined-split_dot value,
)
