-- ===== src/Structs/Status.antt =====
-- structs/status.go: a status that changes only from the statuses that a caller names.
use goactor.Prelude.{Bool, true, false, List, [], ◌∷◌, ite, not, if◌then◌else◌}
use goactor.Prelude.Assoc.{contains}

pub record Status {ℓ} (T : Type ℓ) : Type ℓ where
  pub status : T

module _ {ℓ} {T : Type ℓ} where
  unfoldable pub new_status : T → Status T
  new_status init_status = record { status = init_status }

  unfoldable pub set_status : Status T → T → Status T
  set_status s status = record { status = status }

  abbrev pub get_status : Status T → T
  get_status s = s.status

module _ {ℓ} {T : Type ℓ} (dec : Discrete T) where
  unfoldable pub is_status : Status T → T → Bool
  is_status s status = ite (dec s.status status) true false

  unfoldable pub is_in_status : Status T → List T → Bool
  unfolding contains
  is_in_status s [] = false
  is_in_status s (x ∷ xs) = if not (contains dec (x ∷ xs) s.status) then false else true

  -- The new status, and whether it changed.
  unfoldable pub change_status : Status T → T → List T → Status T × Bool
  unfolding is_in_status
  change_status s next prev =
      if not (is_in_status s prev) then (s, false) else (record { status = next }, true)
