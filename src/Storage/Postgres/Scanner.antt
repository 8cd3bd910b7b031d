-- ===== src/Storage/Postgres/Scanner.antt =====
-- A reader of quoted names that does what PostgreSQL documents, for the tests.
use goactor.Prelude.{
  ℕ, ◌≡◌, refl, false, Option, none, some, List, [], ◌∷◌, ◌++◌, if◌then◌else◌, ◌==◌, Str, arith,
}
use mathlib.Core.List.{append_assoc}
use goactor.Prelude.Utf8.Runes.{has, has-cons}
use goactor.Storage.Postgres.Name.{quoted}
use goactor.Storage.Postgres.Quoted.{NameReader}

-- Where the lexical scanner stands: before the quote that opens a name, in the name, and after a
-- quote that closes it if no other quote follows.
pub data Place : Type 0 where
  opening : Place
  inside : Place
  closed : Place

abbrev put_byte : ℕ → Option (Str × List Str) → Option (Str × List Str)
put_byte b none = none
put_byte b (some (name, names)) = some (b ∷ name, names)

abbrev next_name : Option (Str × List Str) → Option (Str × List Str)
next_name none = none
next_name (some (name, names)) = some ([], name ∷ names)

-- The names of a qualified, quoted identifier. Two quotes inside a name are a quote.
unfoldable pub scan : Place → Str → Option (Str × List Str)
scan opening [] = none
scan opening (b ∷ s) = let rest = scan inside s in if b == 34 then rest else none
scan inside [] = none
scan inside (b ∷ s) =
    let name = scan inside s in
    let after = scan closed s in if b == 34 then after else put_byte b name
scan closed [] = some ([], [])
scan closed (b ∷ s) =
    let name = scan inside s in
    let next = scan opening s in
    if b == 34 then put_byte 34 name else if b == 46 then next_name next else none

abbrev quote : ℕ
quote = 34

-- A name without quotes is read up to the quote that closes it.
scan-inside :
    (part rest : Str) (names : List Str)
    → has quote part ≡ false
    → scan closed rest ≡ some ([], names)
    → scan inside (part ++ 34 ∷ rest) ≡ some (part, names)
unfolding scan has
scan-inside [] rest names free h = h
scan-inside (b ∷ part) rest names free h =
    let (other, after) = has-cons quote (omega arith) b part free in
    let plain : (b == 34) ≡ false = ground arith in
    rw (plain, scan-inside part rest names after h) refl

scan-quoted :
    (part rest : Str) (names : List Str)
    → has quote part ≡ false
    → scan closed rest ≡ some ([], names)
    → scan opening (quoted part ++ rest) ≡ some (part, names)
unfolding scan quoted
scan-quoted part rest names free h =
    rw (append_assoc part (34 ∷ []) rest) (scan-inside part rest names free h)

pub scanner : NameReader
unfolding scan quoted
scanner = record {
  names_in = scan opening;
  one = λ name plain. scan-inside name [] [] plain.no_quote refl;
  more = λ name next s names plain reads.
      scan-quoted name (46 ∷ s) (next ∷ names) plain.no_quote (rw reads refl);
}
