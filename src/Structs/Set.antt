-- ===== src/Structs/Set.antt =====
-- structs/set.go: a set over a Go map. NewSet always allocates, so the map is never nil.
use goactor.Prelude.{ℕ, ◌≡◌, Bool, true, false, List, [], ◌∷◌, ite, arith}
use goactor.Prelude.Assoc.{length, contains}

pub record Set {ℓ} (T : Type ℓ) : Type ℓ where
  pub m : List T

module _ {ℓ} {T : Type ℓ} where
  unfoldable pub new_set : ℕ → Set T
  new_set cap = record { m = [] }

  -- Len()
  unfoldable pub len : Set T → ℕ
  len s = length s.m

  -- All()
  unfoldable pub all : Set T → List T
  all s = s.m

  -- Clear()
  unfoldable pub clear : Set T → Set T
  clear s = record { m = [] }

module _ {ℓ} {T : Type ℓ} (dec : Discrete T) where
  -- Has
  unfoldable pub has : Set T → T → Bool
  unfolding contains
  has s key = contains dec s.m key

  -- The write `m[key] = struct{}{}`.
  unfoldable pub put : T → List T → List T
  put k [] = k ∷ []
  put k (j ∷ m) = elim (dec j k) [ yes _ ↦ k ∷ m | no _ ↦ j ∷ put k m ]

  unfoldable pub drop_key : T → List T → List T
  drop_key k [] = []
  drop_key k (j ∷ m) = elim (dec j k) [ yes _ ↦ drop_key k m | no _ ↦ j ∷ drop_key k m ]

  -- Add
  unfoldable pub add : Set T → T → Set T
  unfolding put
  add s key = record { m = put key s.m }

  -- Del
  unfoldable pub del : Set T → T → Set T
  unfolding drop_key
  del s key = record { m = drop_key key s.m }

  contains-put :
      (k q : T) (m : List T) → contains dec (put k m) q ≡ ite (dec k q) true (contains dec m q)
  unfolding contains put
  contains-put k q [] = ground arith
  contains-put k q (j ∷ m) = ground (arith, contains-put k q m)

  contains-drop_key :
      (k q : T) (m : List T)
      → contains dec (drop_key k m) q ≡ ite (dec k q) false (contains dec m q)
  unfolding contains drop_key
  contains-drop_key k q [] = ground arith
  contains-drop_key k q (j ∷ m) = ground (arith, contains-drop_key k q m)

  pub has-add : (s : Set T) (k q : T) → has (add s k) q ≡ ite (dec k q) true (has s q)
  unfolding has add
  has-add s k q = contains-put k q s.m

  pub has-del : (s : Set T) (k q : T) → has (del s k) q ≡ ite (dec k q) false (has s q)
  unfolding has del
  has-del s k q = contains-drop_key k q s.m
