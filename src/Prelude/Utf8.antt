-- ===== src/Prelude/Utf8.antt =====
-- Go's strings as UTF-8: the runes that `range` visits, utf8.ValidString, and the white space of
-- strings.TrimSpace.
pub mod Runes
use Prim.Native.Nat.{ℕ, zero, suc, ◌+◌, ◌-◌, ◌*◌}
use mathlib.Core.Bool.{Bool, true, false, ◌&&◌, ◌||◌}
use mathlib.Core.List.{List, [], ◌∷◌, reverse}
use mathlib.Core.Option.{Option, none, some}
use mathlib.Core.Path.{◌≡◌, refl}
use goactor.Prelude.Tests.{leb, ◌==◌, if◌then◌else◌}
use goactor.Prelude.Text.{Str, bytes}

abbrev between : ℕ → ℕ → ℕ → Bool
between low x high = leb low x && leb x high

abbrev continues : ℕ → Bool
continues b = between 0x80 b 0xbf

-- The rune that two, three or four bytes encode, and how many bytes follow the first one.
unfoldable two : ℕ → Str → Option (ℕ × ℕ)
two b (c ∷ rest) = if continues c then some ((b - 0xc0) * 64 + (c - 0x80), 1) else none
two b [] = none

unfoldable three : ℕ → Str → Option (ℕ × ℕ)
three b (c ∷ d ∷ rest) =
    if between (if b == 0xe0 then 0xa0 else 0x80) c (if b == 0xed then 0x9f else 0xbf)
      && continues d
    then some ((b - 0xe0) * 4096 + (c - 0x80) * 64 + (d - 0x80), 2)
    else none
three b (c ∷ []) = none
three b [] = none

unfoldable four : ℕ → Str → Option (ℕ × ℕ)
four b (c ∷ d ∷ e ∷ rest) =
    if between (if b == 0xf0 then 0x90 else 0x80) c (if b == 0xf4 then 0x8f else 0xbf)
      && continues d
      && continues e
    then some ((b - 0xf0) * 262144 + (c - 0x80) * 4096 + (d - 0x80) * 64 + (e - 0x80), 3)
    else none
four b (c ∷ d ∷ []) = none
four b (c ∷ []) = none
four b [] = none

-- A byte and the bytes after it.
unfoldable decode_rune : ℕ → Str → Option (ℕ × ℕ)
unfolding two three four
decode_rune b rest =
    if leb b 0x7f
    then some (b, 0)
    else if between 0xc2 b 0xdf
    then two b rest
    else if between 0xe0 b 0xef
    then three b rest
    else if between 0xf0 b 0xf4
    then four b rest
    else none

-- After `skip` bytes. A byte that starts no rune counts as one, the replacement character.
unfoldable runes_from : ℕ → Str → List ℕ
unfolding decode_rune
runes_from skip [] = []
runes_from (suc skip) (b ∷ s) = runes_from skip s
runes_from zero (b ∷ s) = elim (decode_rune b s) [
  | none ↦ 0xfffd ∷ runes_from 0 s
  | some (r, n) ↦ r ∷ runes_from n s
]

unfoldable valid_from : ℕ → Str → Bool
unfolding decode_rune
valid_from skip [] = true
valid_from (suc skip) (b ∷ s) = valid_from skip s
valid_from zero (b ∷ s) = elim (decode_rune b s) [ none ↦ false | some (r, n) ↦ valid_from n s ]

unfoldable pub runes : Str → List ℕ
unfolding runes_from
runes s = runes_from 0 s

-- utf8.ValidString
unfoldable pub valid_string : Str → Bool
unfolding valid_from
valid_string s = valid_from 0 s

-- unicode.IsSpace
unfoldable is_space : ℕ → Bool
is_space r =
    between 9 r 13
    || r == 32
    || r == 0x85
    || r == 0xa0
    || r == 0x1680
    || between 0x2000 r 0x200a
    || r == 0x2028
    || r == 0x2029
    || r == 0x202f
    || r == 0x205f
    || r == 0x3000

unfoldable after_space : List ℕ → List ℕ
unfolding is_space
after_space [] = []
after_space (r ∷ rest) = let after = after_space rest in if is_space r then after else r ∷ rest

-- The runes of strings.TrimSpace.
unfoldable pub trimmed : Str → List ℕ
unfolding runes after_space
trimmed s = reverse (after_space (reverse (after_space (runes s))))

-- `strings.TrimSpace(s) == ""`
unfoldable pub is_blank : Str → Bool
unfolding trimmed
is_blank s = elim (trimmed s) [ [] ↦ true | r ∷ rest ↦ false ]

spaces : is_blank (bytes "  ") ≡ true
unfolding is_blank
spaces = refl

-- An ideographic space, and a word.
wide : is_blank (0xe3 ∷ 0x80 ∷ 0x80 ∷ []) ≡ true
unfolding is_blank
wide = refl

word : (valid_string (bytes "a1") ≡ true) × (is_blank (bytes " a1") ≡ false)
unfolding is_blank valid_string
word = (refl, refl)

-- A surrogate, and a byte cut short.
broken : (valid_string (0xed ∷ 0xa0 ∷ 0x80 ∷ []) ≡ false) × (valid_string (97 ∷ 0xc3 ∷ []) ≡ false)
unfolding valid_string
broken = (refl, refl)
