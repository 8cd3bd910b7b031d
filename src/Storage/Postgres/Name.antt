-- ===== src/Storage/Postgres/Name.antt =====
-- storage/postgres.go: the name of the table, quoted for a statement.
-- Which runes beyond ASCII are letters and digits is the parameter `Unicode`.
use goactor.Prelude.{
  ℕ, Bool, true, false, ◌&&◌, ◌||◌, List, [], ◌∷◌, ◌++◌, if◌then◌else◌, ltb, leb, ◌==◌, Str, bytes,
  runes,
}
use goactor.Storage.{Result, returned, failed, invalid}

pub record Unicode : Type 0 where
  pub letter : ℕ → Bool
  pub digit : ℕ → Bool

-- unicode.IsLetter and unicode.IsDigit
unfoldable pub is_letter : Unicode → ℕ → Bool
is_letter unicode r =
    if ltb r 128 then (leb 65 r && leb r 90) || (leb 97 r && leb r 122) else unicode.letter r

unfoldable pub is_digit : Unicode → ℕ → Bool
is_digit unicode r = if ltb r 128 then leb 48 r && leb r 57 else unicode.digit r

unfoldable pub all_name_runes : Unicode → List ℕ → Bool
all_name_runes unicode [] = true
all_name_runes unicode (r ∷ rest) =
    (r == 95 || is_letter unicode r || is_digit unicode r) && all_name_runes unicode rest

unfoldable pub starts_name : Unicode → List ℕ → Bool
starts_name unicode [] = false
starts_name unicode (r ∷ rest) = (r == 95 || is_letter unicode r) && all_name_runes unicode rest

-- validIdentifierPart
unfoldable pub valid_identifier_part : Unicode → Str → Bool
valid_identifier_part unicode value = starts_name unicode (runes value)

-- `strings.Split(s, ".")`; the first part is kept apart.
unfoldable pub split_dot : Str → Str × List Str
split_dot [] = ([], [])
split_dot (b ∷ s) =
    let (part, others) = split_dot s in if b == 46 then ([], part ∷ others) else (b ∷ part, others)

unfoldable pub quoted : Str → Str
quoted part = 34 ∷ (part ++ 34 ∷ [])

-- The loop over the parts, and `strings.Join(quoted, ".")`.
unfoldable pub quote_parts : Unicode → Str → List Str → Result Str
quote_parts unicode part [] =
    if valid_identifier_part unicode part
    then returned (quoted part)
    else failed (invalid (bytes "invalid postgres table name"))
quote_parts unicode part (next ∷ others) =
    let rest = quote_parts unicode next others in
    if valid_identifier_part unicode part
    then elim rest [ failed e ↦ failed e | returned s ↦ returned (quoted part ++ 46 ∷ s) ]
    else failed (invalid (bytes "invalid postgres table name"))

-- quoteQualifiedIdentifier
unfoldable pub quote_qualified_identifier : Unicode → Str → Result Str
quote_qualified_identifier unicode value =
    let (part, others) = split_dot value in quote_parts unicode part others
