-- ===== src/Storage/Postgres/Tests.antt =====
-- storage/postgres.go: names of tables.
use goactor.Storage.Postgres.Scanner.{scanner}
use goactor.Prelude.{arith, ◌≡◌, refl, false, [], ◌∷◌, Str, bytes, runes}
use goactor.Storage.{returned, failed, invalid}
use goactor.Storage.Postgres.Name.{
  Unicode, is_letter, is_digit, all_name_runes, starts_name, valid_identifier_part, split_dot,
  quoted, quote_parts, quote_qualified_identifier,
}
use goactor.Storage.Postgres.Quoted.{joined, Quoted, quote_qualified_identifier_lem}

program : Unit {0}
unfolding runes is_letter is_digit all_name_runes starts_name valid_identifier_part split_dot quoted
    quote_parts quote_qualified_identifier joined
program = tt

-- No letters and digits but those of ASCII.
abbrev ascii : Unicode
ascii = record { letter = λ r. false; digit = λ r. false }

abbrev table : Str
table = bytes "app.actors_2"

quoted_table : quote_qualified_identifier ascii table ≡ returned (bytes "\"app\".\"actors_2\"")
unfolding program
quoted_table = refl

-- A quote, a digit at the start, and an empty part are refused.
refused_table :
    quote_qualified_identifier ascii (bytes "a\"b")
    ≡ failed (invalid (bytes "invalid postgres table name"))
unfolding program
refused_table = refl

digit_first :
    quote_qualified_identifier ascii (bytes "app.2a")
    ≡ failed (invalid (bytes "invalid postgres table name"))
unfolding program
digit_first = refl

empty_part :
    quote_qualified_identifier ascii (bytes "app.")
    ≡ failed (invalid (bytes "invalid postgres table name"))
unfolding program
empty_part = refl

quote_qualified_identifier_lem_example :
    Quoted scanner ascii
      (bytes "app")
      (bytes "actors_2" ∷ [])
      (quote_qualified_identifier ascii table)
    × (joined (bytes "app") (bytes "actors_2" ∷ []) ≡ table)
unfolding program
quote_qualified_identifier_lem_example =
    quote_qualified_identifier_lem scanner ascii table (omega arith, omega arith)
