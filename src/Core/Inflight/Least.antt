-- ===== src/Core/Inflight/Least.antt =====
-- What core/inflight.go:resetMinOffset and GetMinOffset find: a least element.
use goactor.Prelude.{
  ◌≡◌, refl, ◌≢◌, true, ◌||◌, ◌⊎◌, List, [], ◌∷◌, arith, if◌then◌else◌, ℤ, pos, lt_ℤ, eq_ℤ, ◌≤ℤ◌,
}
use goactor.Prelude.Assoc.{contains}
use goactor.Core.Inflight.{no_offset, least, min_from}
use goactor.Core.Inflight.Prefix.{holds}

-- `r` is the least of `m` and the elements of `l`.
pub record IsLeast (m : ℤ) (l : List ℤ) (r : ℤ) : Type 0 where
  pub first : r ≤ℤ m
  pub all : (q : ℤ) → holds l q ≡ true → r ≤ℤ q
  pub among : holds (m ∷ l) r ≡ true

abbrev AllNonneg : List ℤ → Type 0
AllNonneg l = (q : ℤ) → holds l q ≡ true → pos 0 ≤ℤ q

IsLeast-cons :
    (m o m' r : ℤ) (l : List ℤ)
    → ((m' ≡ m) × (m ≤ℤ o)) ⊎ ((m' ≡ o) × (o ≤ℤ m))
    → IsLeast m' l r
    → IsLeast m (o ∷ l) r
unfolding contains
IsLeast-cons m o m' r l c h = record {
  first = ground (arith, h.first);
  all = λ q e. ground (arith, h.first, h.all q);
  among = ground (arith, h.among);
}

least-IsLeast : (m : ℤ) (l : List ℤ) → pos 0 ≤ℤ m → AllNonneg l → IsLeast m l (least m l)
unfolding least contains
least-IsLeast m [] hm hl = record {
  first = omega arith;
  all = λ q e. absurd (ground arith);
  among = ground arith;
}
least-IsLeast m (o ∷ l) hm hl =
    let m' = if eq_ℤ m no_offset || lt_ℤ o m then o else m in
    IsLeast-cons m o m' (least m' l) l (ground arith)
      (least-IsLeast m' l (ground (arith, hl o)) (λ q e. hl q (ground arith)))

pub min_from-IsLeast : (m : ℤ) (l : List ℤ) → IsLeast m l (min_from m l)
unfolding min_from contains
min_from-IsLeast m [] = record {
  first = omega arith;
  all = λ q e. absurd (ground arith);
  among = ground arith;
}
min_from-IsLeast m (o ∷ l) =
    let m' = if lt_ℤ o m then o else m in
    IsLeast-cons m o m' (min_from m' l) l (ground arith) (min_from-IsLeast m' l)

-- From the sentinel the loop finds the least of a list that is not empty.
pub least_start :
    (l : List ℤ)
    → AllNonneg l
    → l ≢ []
    → (holds l (least no_offset l) ≡ true) × ((q : ℤ) → holds l q ≡ true → least no_offset l ≤ℤ q)
unfolding least contains
least_start [] hl ne = absurd (ne refl)
least_start (o ∷ l) hl ne =
    let h = least-IsLeast o l (hl o (ground arith)) (λ q e. hl q (ground arith)) in
    (h.among, λ q e. ground (arith, h.first, h.all q))
