-- ===== src/Prelude/Utf8/Runes.antt =====
-- A byte below 128 of a string is one of its runes.
use mathlib.Core.Bool.{Bool, true, false, not, ◌&&◌, ◌||◌}
use mathlib.Core.Logic.{inl, inr}
use mathlib.Core.List.{List, [], ◌∷◌}
use mathlib.Core.Option.{none, some}
use mathlib.Core.Path.{◌≡◌, refl, sym, ap, ◌∙◌}
use Prim.Native.Nat.{ℕ, zero, suc, ◌<◌, ◌≤◌}
use native.Mathlib.Omega.{arith}
use goactor.Prelude.Text.{Str}
use goactor.Prelude.Tests.{◌==◌, Option-cases}
use goactor.Prelude.Utf8.{runes, runes_from, decode_rune}

unfoldable pub has : ℕ → List ℕ → Bool
has b [] = false
has b (c ∷ s) = b == c || has b s

module _ (b : ℕ) (ascii : b < 128) where
  -- Whether none of the first bytes is `b`.
  clear : ℕ → Str → Bool
  clear zero s = true
  clear (suc n) [] = true
  clear (suc n) (c ∷ s) = not (b == c) && clear n s

  decode_rune-clear : (c : ℕ) (s : Str) (r n : ℕ) → decode_rune c s ≡ some (r, n) → clear n s ≡ true
  unfolding decode_rune clear
  decode_rune-clear c s r n h = ground arith

  decode_rune-ascii : (c : ℕ) (s : Str) (r n : ℕ) → decode_rune c s ≡ some (r, n) → c < 128 → r ≡ c
  unfolding decode_rune
  decode_rune-ascii c s r n h low = ground arith

  decode_rune-none : (c : ℕ) (s : Str) → decode_rune c s ≡ none → 128 ≤ c
  unfolding decode_rune
  decode_rune-none c s h = ground arith

  runes_from-some :
      (c : ℕ) (s : Str) (r n : ℕ)
      → decode_rune c s ≡ some (r, n)
      → runes_from 0 (c ∷ s) ≡ r ∷ runes_from n s
  unfolding runes_from
  runes_from-some c s r n good = rw (runes_from, good) refl

  -- The rune of a byte that is not `b`.
  other_byte :
      (c : ℕ) (s : Str) (r n : ℕ)
      → decode_rune c s ≡ some (r, n)
      → (b == r) ≡ false
      → (b == c) ≡ false
  other_byte c s r n good other = ground (arith, decode_rune-ascii c s r n good)

  pub has-cons :
      (c : ℕ) (s : List ℕ) → has b (c ∷ s) ≡ false → ((b == c) ≡ false) × (has b s ≡ false)
  unfolding has
  has-cons c s h = (ground arith, ground arith)

  has-runes_from :
      (skip : ℕ) (s : Str)
      → clear skip s ≡ true
      → has b (runes_from skip s) ≡ false
      → has b s ≡ false
  unfolding has clear runes_from
  has-runes_from skip [] free h = refl
  has-runes_from (suc skip) (c ∷ s) free h = ground (arith, has-runes_from skip s)
  has-runes_from zero (c ∷ s) free h = elim (Option-cases (decode_rune c s)) [
    | inl bad ↦ ground (arith, decode_rune-none c s bad, has-runes_from 0 s)
    | inr ((r, n), good) ↦
        let (other, after) =
          has-cons r (runes_from n s) (ap (has b) (sym (runes_from-some c s r n good)) ∙ h) in
        rw (other_byte c s r n good other)
          (has-runes_from n s (decode_rune-clear c s r n good) after)
  ]

  pub has-runes : (s : Str) → has b (runes s) ≡ false → has b s ≡ false
  unfolding runes clear
  has-runes s = has-runes_from 0 s refl
