-- ===== src/Prelude/Assoc.antt =====
-- Go's built-in `map` as an association list: `lookup` is the library's; a write replaces the entry
-- in place or appends it, and `delete` drops the key. The order of the list stands for the order in
-- which a `range` visits the map.
use Prim.Native.Nat.{ℕ, zero, suc}
use mathlib.Core.Path.{◌≡◌, refl}
use mathlib.Core.Logic.{ite}
use mathlib.Core.Option.{none, some}
use mathlib.Core.Bool.{Bool, true, false}
use mathlib.Core.List.{List, [], ◌∷◌, ◌++◌, lookup, map}
use native.Mathlib.Omega.{arith}

module _ {ℓ} {A : Type ℓ} where
  abbrev pub length : List A → ℕ
  length [] = 0
  length (x ∷ xs) = suc (length xs)

  abbrev pub drop : ℕ → List A → List A
  drop zero xs = xs
  drop (suc n) [] = []
  drop (suc n) (x ∷ xs) = drop n xs

  -- `append(xs, x)`
  infixl 65 ◌∷ʳ◌
  abbrev pub ◌∷ʳ◌ : List A → A → List A
  xs ∷ʳ x = xs ++ x ∷ []

module _ {ℓ} {A : Type ℓ} (dec : Discrete A) where
  -- `slices.Contains`
  unfoldable pub contains : List A → A → Bool
  contains [] a = false
  contains (x ∷ xs) a = elim (dec x a) [ yes _ ↦ true | no _ ↦ contains xs a ]

module _ {ℓ} {K V : Type ℓ} where
  abbrev pub keys : List (K × V) → List K
  keys = map (λ e. e.0)

module _ {ℓ} {K V : Type ℓ} (dec : Discrete K) where
  unfoldable pub insert : K → V → List (K × V) → List (K × V)
  insert k v [] = (k, v) ∷ []
  insert k v ((j, w) ∷ m) = ite (dec j k) ((k, v) ∷ m) ((j, w) ∷ insert k v m)

  unfoldable pub delete : K → List (K × V) → List (K × V)
  delete k [] = []
  delete k ((j, w) ∷ m) = ite (dec j k) (delete k m) ((j, w) ∷ delete k m)

  pub lookup-insert :
      (k q : K) (v : V) (m : List (K × V))
      → lookup dec q (insert k v m) ≡ ite (dec q k) (some v) (lookup dec q m)
  unfolding lookup insert
  lookup-insert k q v [] = refl
  lookup-insert k q v ((j, w) ∷ m) = ground (arith, lookup-insert k q v m)

  pub lookup-delete :
      (k q : K) (m : List (K × V)) → lookup dec q (delete k m) ≡ ite (dec q k) none (lookup dec q m)
  unfolding lookup delete
  lookup-delete k q [] = ground arith
  lookup-delete k q ((j, w) ∷ m) = ground (arith, lookup-delete k q m)

  -- A key that is found is among the keys that a `range` visits.
  pub contains-keys :
      (k : K) (v : V) (m : List (K × V)) → lookup dec k m ≡ some v → contains dec (keys m) k ≡ true
  unfolding lookup contains
  contains-keys k v [] h = ground arith
  contains-keys k v ((j, w) ∷ m) h = ground (arith, contains-keys k v m)

  pub lookup-of_contains :
      (k : K) (m : List (K × V))
      → contains dec (keys m) k ≡ true
      → (v : V) × (lookup dec k m ≡ some v)
  unfolding lookup contains
  lookup-of_contains k [] h = ground arith
  lookup-of_contains k ((j, w) ∷ m) h = elim (dec k j) [
    | yes p ↦ (w, ground arith)
    | no p ↦ let (v, e) = lookup-of_contains k m (ground arith) in (v, ground arith)
  ]

  -- An empty map finds no key, and only an empty map does.
  pub length-eq-zero_iff :
      (m : List (K × V))
      → (length m ≡ 0 → (k : K) → lookup dec k m ≡ none)
        × (((k : K) → lookup dec k m ≡ none) → length m ≡ 0)
  unfolding lookup
  length-eq-zero_iff [] = (λ h k. refl, λ h. refl)
  length-eq-zero_iff ((j, w) ∷ m) = (λ h k. absurd (omega arith), λ h. absurd (found (h j)))
    where
      found : (lookup dec j ((j, w) ∷ m) ≡ none) → ⊥
      found h = ground arith
