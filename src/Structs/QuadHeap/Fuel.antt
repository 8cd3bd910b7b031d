-- ===== src/Structs/QuadHeap/Fuel.antt =====
-- structs/quadheap.go: how many rounds siftUp and siftDown take.
use goactor.Prelude.{
  ℕ, zero, suc, ◌+◌, ◌-◌, ◌*◌, ◌/◌, ◌≡◌, ◌≤◌, ◌<◌, ◌⊎◌, refl, ◌∙◌, ap, Bool, true, not, List,
  Option, none, some, arith, ltb, ◌==◌, if◌then◌else◌, Run, ok, panic, ◌>>=◌, Bool-cases, inl, inr,
}
use goactor.Prelude.Assoc.{length}
use goactor.Prelude.Slice.{load, store, set, get_elem?, length-set}
use goactor.Structs.QuadHeap.{QuadHeap, less, swap, sift_up, least_child, sift_down}

-- Calls that agree on what they are given agree.
bind-cong {ℓ κ} :
    {A : Type ℓ} {B : Type κ} (r : Run A) {f g : A → Run B}
    → ((a : A) → r ≡ ok a → f a ≡ g a)
    → (r >>= f) ≡ (r >>= g)
bind-cong (ok a) h = h a refl
bind-cong panic h = refl

-- A chain that returns did so at its first call.
bind-ok {ℓ κ} :
    {A : Type ℓ} {B : Type κ} (r : Run A) {f : A → Run B} {b : B}
    → (r >>= f) ≡ ok b
    → (a : A) × (r ≡ ok a) × (f a ≡ ok b)
bind-ok (ok a) e = (a, refl, e)
bind-ok panic e = absurd (ground arith)

length-store :
    {A : Type 0} (a b : List A) (i : ℕ) (v : A) → store a i v ≡ ok b → length b ≡ length a
unfolding store
length-store {A} a b i v e = go (get_elem? a i) e
  where
    go :
        (o : Option A)
        → (elim o [ none ↦ panic | some x ↦ ok (set a i v) ]) ≡ ok b
        → length b ≡ length a
    go none e' = absurd (ground arith)
    go (some x) e' = ground (arith, length-set a i v)

module _ {K V W : Type 0} (dec : Discrete K) (lt eq : W → W → Bool) where
  -- siftUp from an index ends in the same way on any two numbers of rounds that are at least the index,
  -- so the index is enough.
  pub sift_up_lem :
      (n m : ℕ) (h : QuadHeap K V W) (i : ℕ)
      → i ≤ n
      → i ≤ m
      → sift_up dec lt eq n h i ≡ sift_up dec lt eq m h i
  unfolding sift_up
  sift_up_lem zero zero h i p q = refl
  sift_up_lem zero (suc m) h i p q = let top : (i == 0) ≡ true = ground arith in rw top refl
  sift_up_lem (suc n) zero h i p q = let top : (i == 0) ≡ true = ground arith in rw top refl
  sift_up_lem (suc n) (suc m) h i p q = elim (Bool-cases (i == 0)) [
    | inl top ↦ rw top refl
    | inr inner ↦ rw inner (
        bind-cong (less dec lt eq h i ((i - 1) / 4)) (λ below e.
          bind-cong (swap dec lt eq h i ((i - 1) / 4)) (λ h' e'.
            ap (λ done. if not below then ok h else done)
              (sift_up_lem n m h' ((i - 1) / 4) (omega arith) (omega arith)))))
  ]

  least_child_range :
      (k : ℕ) (h : QuadHeap K V W) (child least r : ℕ)
      → least_child dec lt eq k h child least ≡ ok r
      → (r ≡ least) ⊎ ((child ≤ r) × (r < length h.items))
  unfolding least_child
  least_child_range zero h child least r e = inl (ground arith)
  least_child_range (suc k) h child least r e = elim (Bool-cases (ltb child (length h.items))) [
    | inr past ↦ inl (ground arith)
    | inl inside ↦
        let (below, _, e') = bind-ok (less dec lt eq h child least) (rw inside at e) in
        let here : child < length h.items = ground arith in
        elim (Bool-cases below) [
          | inl yes_below ↦ elim (least_child_range k h (child + 1) child r (rw yes_below at e')) [
            | inl same ↦ inr (omega arith, omega arith)
            | inr (above, within) ↦ inr (omega arith, within)
          ]
          | inr not_below ↦ elim (least_child_range k h (child + 1) least r (rw not_below at e')) [
            | inl same ↦ inl same
            | inr (above, within) ↦ inr (omega arith, within)
          ]
        ]
  ]

  length-swap :
      (h h' : QuadHeap K V W) (i j : ℕ)
      → swap dec lt eq h i j ≡ ok h'
      → length h'.items ≡ length h.items
  unfolding swap
  length-swap h h' i j e =
      let (left, _, e1) = bind-ok (load h.items i) e in
      let (right, _, e2) = bind-ok (load h.items j) e1 in
      let (items, s1, e3) = bind-ok (store h.items i right) e2 in
      let (items', s2, e4) = bind-ok (store items j left) e3 in
      let written : items' ≡ h'.items = ground arith in
      rw (← written) (length-store items items' j left s2 ∙ length-store h.items items i right s1)

  -- siftDown from an index of the heap ends in the same way on any two numbers of rounds that are at
  -- least the number of items from the index on, so the number of items is enough.
  pub sift_down_lem :
      (n m : ℕ) (h : QuadHeap K V W) (i : ℕ)
      → i < length h.items
      → length h.items ≤ i + n
      → length h.items ≤ i + m
      → sift_down dec lt eq n h i ≡ sift_down dec lt eq m h i
  unfolding sift_down
  sift_down_lem zero m h i inside p q = absurd (omega arith)
  sift_down_lem (suc n) zero h i inside p q = absurd (omega arith)
  sift_down_lem (suc n) (suc m) h i inside p q =
      bind-cong (least_child dec lt eq 4 h (4 * i + 1) i) (λ least e.
        bind-cong (swap dec lt eq h i least) (λ h' e'. elim (Bool-cases (least == i)) [
          | inl done ↦ rw done refl
          | inr moved ↦ elim (least_child_range 4 h (4 * i + 1) i least e) [
            | inl same ↦ absurd (ground arith)
            | inr (above, within) ↦
                let kept = length-swap h h' i least e' in
                ap (λ done. if least == i then ok h else done)
                  (sift_down_lem n m h' least (omega arith) (omega arith) (omega arith))
          ]
        ]))
