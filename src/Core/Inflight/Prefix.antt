-- ===== src/Core/Inflight/Prefix.antt =====
-- The prefix of an actor's offsets that core/inflight.go:remove takes, and what it leaves.
use goactor.Prelude.{
  ◌+◌, ◌≡◌, refl, Bool, true, false, ◌||◌, List, [], ◌∷◌, arith, if◌then◌else◌, ℤ, ℤ_discrete, lt_ℤ,
  ◌≤ℤ◌, ◌<ℤ◌, Bool-cases, inl, inr,
}
use goactor.Prelude.Assoc.{length, contains, drop}

-- membership of an offset
abbrev pub holds : List ℤ → ℤ → Bool
holds = contains ℤ_discrete

unfoldable pub covered : ℤ → List ℤ → List ℤ
covered m [] = []
covered m (o ∷ os) = if lt_ℤ m o then [] else o ∷ covered m os

unfoldable pub rest : ℤ → List ℤ → List ℤ
rest m [] = []
rest m (o ∷ os) = if lt_ℤ m o then o ∷ os else rest m os

abbrev pub IsDistinct : List ℤ → Type 0
IsDistinct [] = Unit
IsDistinct (o ∷ os) = (holds os o ≡ false) × IsDistinct os

abbrev pub AllAbove : ℤ → List ℤ → Type 0
AllAbove a [] = Unit
AllAbove a (o ∷ os) = (a <ℤ o) × AllAbove a os

abbrev pub IsAscending : List ℤ → Type 0
IsAscending [] = Unit
IsAscending (o ∷ os) = AllAbove o os × IsAscending os

pub holds-covered-rest :
    (m : ℤ) (l : List ℤ) (q : ℤ) → holds l q ≡ (holds (covered m l) q || holds (rest m l) q)
unfolding covered rest contains
holds-covered-rest m [] q = refl
holds-covered-rest m (o ∷ os) q = ground (arith, holds-covered-rest m os q)

pub le_of_covered : (m : ℤ) (l : List ℤ) (q : ℤ) → holds (covered m l) q ≡ true → q ≤ℤ m
unfolding covered contains
le_of_covered m [] q h = absurd (ground arith)
le_of_covered m (o ∷ os) q h = ground (arith, le_of_covered m os q)

pub length-covered-rest : (m : ℤ) (l : List ℤ) → length (covered m l) + length (rest m l) ≡ length l
unfolding covered rest
length-covered-rest m [] = omega arith
length-covered-rest m (o ∷ os) = ground (arith, length-covered-rest m os)

pub drop-covered : (m : ℤ) (l : List ℤ) → drop (length (covered m l)) l ≡ rest m l
unfolding covered rest
drop-covered m [] = refl
drop-covered m (o ∷ os) = elim (Bool-cases (lt_ℤ m o)) [
  | inl e ↦ rw e
  | inr e ↦ rw e (drop-covered m os)
]

pub rest-IsDistinct : (m : ℤ) (l : List ℤ) → IsDistinct l → IsDistinct (rest m l)
unfolding rest
rest-IsDistinct m [] h = h
rest-IsDistinct m (o ∷ os) h = elim (Bool-cases (lt_ℤ m o)) [
  | inl e ↦ rw e h
  | inr e ↦ rw e (rest-IsDistinct m os h.1)
]

-- In a list without repetition what is left was not taken.
pub covered_of_rest :
    (m : ℤ) (l : List ℤ) (q : ℤ)
    → IsDistinct l
    → holds (rest m l) q ≡ true
    → holds (covered m l) q ≡ false
unfolding covered rest contains
covered_of_rest m [] q d h = refl
covered_of_rest m (o ∷ os) q d h =
    ground (arith, covered_of_rest m os q, holds-covered-rest m os q, holds-covered-rest m os o)

above_lem : (a : ℤ) (l : List ℤ) (q : ℤ) → AllAbove a l → holds l q ≡ true → a <ℤ q
unfolding contains
above_lem a [] q d h = absurd (ground arith)
above_lem a (o ∷ os) q d h = ground (arith, above_lem a os q)

-- In an ascending list all the offsets up to the bound are taken.
pub covered_of_le :
    (m : ℤ) (l : List ℤ) (q : ℤ)
    → IsAscending l
    → holds l q ≡ true
    → q ≤ℤ m
    → holds (covered m l) q ≡ true
unfolding covered contains
covered_of_le m [] q d h b = h
covered_of_le m (o ∷ os) q d h b = ground (arith, covered_of_le m os q, above_lem o os q)

rest-AllAbove : (a m : ℤ) (l : List ℤ) → AllAbove a l → AllAbove a (rest m l)
unfolding rest
rest-AllAbove a m [] h = h
rest-AllAbove a m (o ∷ os) h = elim (Bool-cases (lt_ℤ m o)) [
  | inl e ↦ rw e h
  | inr e ↦ rw e (rest-AllAbove a m os h.1)
]

pub rest-IsAscending : (m : ℤ) (l : List ℤ) → IsAscending l → IsAscending (rest m l)
unfolding rest
rest-IsAscending m [] h = h
rest-IsAscending m (o ∷ os) h = elim (Bool-cases (lt_ℤ m o)) [
  | inl e ↦ rw e h
  | inr e ↦ rw e (rest-IsAscending m os h.1)
]
