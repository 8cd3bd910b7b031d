-- ===== src/Structs/BoolValue.antt =====
-- structs/bool_value.go: a value with a flag. Disable keeps the value.
use goactor.Prelude.{Bool, true, false, if◌then◌else◌}

pub record BoolValue {ℓ} (T : Type ℓ) : Type ℓ where
  pub enabled : Bool
  pub value : T

module _ {ℓ} {T : Type ℓ} where
  -- NewBoolValue: `zero` is the zero value of T.
  unfoldable pub new_bool_value : T → BoolValue T
  new_bool_value zero = record { enabled = false; value = zero }

  abbrev pub is_enabled : BoolValue T → Bool
  is_enabled v = v.enabled

  -- Get returns the value and the flag.
  unfoldable pub get : BoolValue T → T × Bool
  get v = (v.value, v.enabled)

  -- Enable keeps a value that is already enabled.
  unfoldable pub enable : BoolValue T → T → BoolValue T
  enable v value = if v.enabled then v else record { enabled = true; value = value }

  -- UpdateEnable overwrites it.
  unfoldable pub update_enable : BoolValue T → T → BoolValue T
  update_enable v value = record { enabled = true; value = value }

  unfoldable pub disable : BoolValue T → BoolValue T
  disable v = record v { enabled = false }
