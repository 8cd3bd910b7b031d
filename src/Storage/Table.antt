-- ===== src/Storage/Table.antt =====
-- What storage/storage.go promises: a table of versions by actor, in which a snapshot is written unless
-- the version held there is above its own.
use goactor.Prelude.{
  suc, ◌+◌, ◌≡◌, refl, ◌∙◌, ap, Bool, true, false, List, [], ◌∷◌, map, Option, none, some, ite,
  if◌then◌else◌, ℤ, le_ℤ, Str, Str_discrete, arith,
}
use mathlib.Core.List.{Perm, Permᴰ}
use mathlib.Core.Logic.{∥∥₁_elim}
use native.Mathlib.Nat.{ℕ_set}
use goactor.Prelude.Assoc.{contains, length}

-- Whether a version may be written over what is held.
abbrev pub accepts : Option ℤ → ℤ → Bool
accepts none v = true
accepts (some w) v = le_ℤ w v

-- No id twice.
abbrev pub IsDistinct : List Str → Type 0
IsDistinct [] = Unit
IsDistinct (x ∷ rest) = (contains Str_discrete rest x ≡ false) × IsDistinct rest

module _ {A : Type 0} (key : A → Str) (version : A → ℤ) (held : Str → Option ℤ) where
  -- The ids that are written, and those that are not.
  unfoldable pub accepted : List A → List Str
  accepted [] = []
  accepted (x ∷ rest) =
      let others = accepted rest in
      if accepts (held (key x)) (version x) then key x ∷ others else others

  unfoldable pub rejected : List A → List Str
  rejected [] = []
  rejected (x ∷ rest) =
      let others = rejected rest in
      if accepts (held (key x)) (version x) then others else key x ∷ others

  -- What is written for an id.
  unfoldable pub chosen : List A → Str → Option A
  chosen [] id = none
  chosen (x ∷ rest) id =
      ite (Str_discrete (key x) id) (if accepts (held (key x)) (version x) then some x else none)
        (chosen rest id)

  pub length-accepted : (xs : List A) → length (accepted xs) + length (rejected xs) ≡ length xs
  unfolding accepted rejected
  length-accepted [] = refl
  length-accepted (x ∷ rest) = ground (arith, length-accepted rest)

  pub contains-accepted :
      (xs : List A) (id : Str)
      → contains Str_discrete (map key xs) id ≡ false
      → contains Str_discrete (accepted xs) id ≡ false
  unfolding accepted contains
  contains-accepted [] id h = refl
  contains-accepted (x ∷ rest) id h = ground (arith, contains-accepted rest id)

-- A function that keeps ids and versions, on lists.
module _ {A B : Type 0} (f : A → Option B) where
  abbrev pub Encodes : List A → List B → Type 0
  Encodes [] [] = Unit
  Encodes [] (y ∷ ys) = ⊥
  Encodes (x ∷ xs) [] = ⊥
  Encodes (x ∷ xs) (y ∷ ys) = (f x ≡ some y) × Encodes xs ys

  abbrev pub then_encode : Option A → Option B
  then_encode none = none
  then_encode (some x) = f x

module _ {A B : Type 0} (f : A → Option B) (key : A → Str) (version : A → ℤ) (key' : B → Str)
    (version' : B → ℤ)
    (keeps : (x : A) (y : B) → f x ≡ some y → (key' y ≡ key x) × (version' y ≡ version x))
    (held : Str → Option ℤ) where
  pub map-Encodes : (xs : List A) (ys : List B) → Encodes f xs ys → map key' ys ≡ map key xs
  map-Encodes [] [] h = refl
  map-Encodes (x ∷ xs) [] h = absurd h
  map-Encodes [] (y ∷ ys) h = absurd h
  map-Encodes (x ∷ xs) (y ∷ ys) h = let k = keeps x y h.0 in cc (k.0, map-Encodes xs ys h.1)

  pub accepted-Encodes :
      (xs : List A) (ys : List B)
      → Encodes f xs ys
      → accepted key' version' held ys ≡ accepted key version held xs
  unfolding accepted
  accepted-Encodes [] [] h = refl
  accepted-Encodes (x ∷ xs) [] h = absurd h
  accepted-Encodes [] (y ∷ ys) h = absurd h
  accepted-Encodes (x ∷ xs) (y ∷ ys) h =
      let k = keeps x y h.0 in rw (accepted, k.0, k.1, accepted-Encodes xs ys h.1) refl

  pub chosen-Encodes :
      (xs : List A) (ys : List B) (id : Str)
      → Encodes f xs ys
      → chosen key' version' held ys id ≡ then_encode f (chosen key version held xs id)
  unfolding chosen
  chosen-Encodes [] [] id h = refl
  chosen-Encodes (x ∷ xs) [] id h = absurd h
  chosen-Encodes [] (y ∷ ys) id h = absurd h
  chosen-Encodes (x ∷ xs) (y ∷ ys) id h =
      let k = keeps x y h.0 in
      rw (chosen, k.0, k.1, chosen-Encodes xs ys id h.1) (ground (arith, h.0))

  pub encode-chosen :
      (xs : List A) (ys : List B) (id : Str) (x : A)
      → Encodes f xs ys
      → chosen key version held xs id ≡ some x
      → (y : B) × (f x ≡ some y)
  unfolding chosen
  encode-chosen [] ys id x h e = absurd (ground arith)
  encode-chosen (x' ∷ xs) [] id x h e = absurd h
  encode-chosen (x' ∷ xs) (y ∷ ys) id x h e = elim (Str_discrete (key x') id) [
    | yes p ↦ (y, ground (arith, h.0))
    | no p ↦ encode-chosen xs ys id x h.1 (ground arith)
  ]

module _ {A : Type 0} where
  length-permᴰ : {xs ys : List A} → Permᴰ xs ys → length xs ≡ length ys
  length-permᴰ Permᴰ.nil = refl
  length-permᴰ (Permᴰ.cons e p) = ap suc (length-permᴰ p)
  length-permᴰ (Permᴰ.swap e e') = refl
  length-permᴰ (Permᴰ.trans p q) = length-permᴰ p ∙ length-permᴰ q

  pub length-perm : {xs ys : List A} → Perm xs ys → length xs ≡ length ys
  length-perm p = ∥∥₁_elim p (ℕ_set _ _) length-permᴰ

  contains-permᴰ :
      (dec : Discrete A) {xs ys : List A} (a : A)
      → Permᴰ xs ys
      → contains dec xs a ≡ contains dec ys a
  unfolding contains
  contains-permᴰ dec a Permᴰ.nil = refl
  contains-permᴰ dec a (Permᴰ.cons e p) = ground (arith, contains-permᴰ dec a p)
  contains-permᴰ dec a (Permᴰ.swap e e') = ground arith
  contains-permᴰ dec a (Permᴰ.trans p q) = contains-permᴰ dec a p ∙ contains-permᴰ dec a q

  pub contains-perm :
      (dec : Discrete A) {xs ys : List A} (a : A)
      → Perm xs ys
      → contains dec xs a ≡ contains dec ys a
  contains-perm dec a p = ∥∥₁_elim p (hlevel) (contains-permᴰ dec a)
