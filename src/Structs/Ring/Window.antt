-- ===== src/Structs/Ring/Window.antt =====
-- The values that a ring holds, read off its slice from the head on.
use native.Mathlib.Nat.{mod-add-mod, mod-eq_of_lt, mod-eq-sub-mod, add-zero}
use mathlib.Core.Path.{ap₂}
use goactor.Prelude.{
  ℕ, zero, suc, ◌+◌, ◌-◌, ◌%◌, ◌≤◌, ◌<◌, ◌≡◌, refl, ◌∙◌, ap, ◌≢◌, List, [], ◌∷◌, arith, dec_lt,
}
use goactor.Prelude.Assoc.{length, ◌∷ʳ◌}
use goactor.Prelude.Slice.{get_or, set, get_or-set}

-- A step round the slice does not come back within its length.
pub mod-ne : {n h k : ℕ} → h < n → suc k < n → (h + suc k) % n ≢ h
mod-ne {n} {h} {k} hh hk = elim (dec_lt (h + suc k) n) [
  | yes p ↦ omega (arith, mod-eq_of_lt p)
  | no p ↦ omega (
    arith,
    mod-eq-sub-mod {n = h + suc k} {m = n} (omega arith),
    mod-eq_of_lt {n = h + suc k - n} {m = n} (omega arith),
  )
]

-- A whole turn comes back.
pub full_turn : (n h : ℕ) → h < n → ((h + 1) % n + (n - 1)) % n ≡ h
full_turn n h hh =
    let shift : h + 1 + (n - 1) ≡ h + n = omega arith in
    rw (mod-add-mod, shift)
      (omega (
        arith,
        mod-eq-sub-mod {n = h + n} {m = n} (omega arith),
        mod-eq_of_lt {n = h + n - n} {m = n} (omega arith),
      ))

module _ {ℓ} {T : Type ℓ} (zero_value : T) (cap : ℕ) where
  -- `n` values from index `h` on, going round at `cap`
  abbrev pub window : List T → ℕ → ℕ → List T
  window items h zero = []
  window items h (suc n) = get_or items h zero_value ∷ window items ((h + 1) % cap) n

  pub length-window : (items : List T) (h n : ℕ) → length (window items h n) ≡ n
  length-window items h zero = refl
  length-window items h (suc n) = ap suc (length-window items ((h + 1) % cap) n)

  pub window-pos :
      (items : List T) (h k : ℕ)
      → 0 < k
      → window items h k ≡ get_or items h zero_value ∷ window items ((h + 1) % cap) (k - 1)
  window-pos items h zero p = absurd (omega arith)
  window-pos items h (suc k) p = ap (λ m. window items h (suc m)) (omega arith)

  next_index : (h n : ℕ) → ((h + 1) % cap + n) % cap ≡ (h + suc n) % cap
  next_index h n = rw mod-add-mod (ap (λ k. k % cap) (omega arith))

  -- A value written right behind a window is appended to it.
  pub window-set_end :
      (items : List T) (v : T) (n h i : ℕ)
      → cap ≤ length items
      → h < cap
      → n < cap
      → (h + n) % cap ≡ i
      → window (set items i v) h (suc n) ≡ window items h n ∷ʳ v
  window-set_end items v zero h i hl hh hn e =
      let here : h ≡ i = rw (add-zero, mod-eq_of_lt hh) at e in
      rw (← here, get_or-set items h h v zero_value (omega arith)) (ground arith)
  window-set_end items v (suc n) h i hl hh hn e =
      let ne : i ≢ h = λ k. mod-ne hh hn (e ∙ k) in
      let ih =
        window-set_end items v n ((h + 1) % cap) i hl (omega arith) (omega arith)
          (next_index h n ∙ e) in
      ap₂ ◌∷◌ (ground (arith, get_or-set items i h v zero_value)) ih

  -- A value written at the head is out of sight of the window that follows it.
  pub window-set_head :
      (items : List T) (v : T) (k j h g : ℕ)
      → cap ≤ length items
      → h < cap
      → suc j + k ≤ cap
      → (h + suc j) % cap ≡ g
      → window (set items h v) g k ≡ window items g k
  window-set_head items v zero j h g hl hh hk e = refl
  window-set_head items v (suc k) j h g hl hh hk e =
      let ne : g ≢ h = λ k. mod-ne hh (omega arith) (e ∙ k) in
      let ih =
        window-set_head items v k (suc j) h ((g + 1) % cap) hl hh (omega arith)
          (rw (← e, mod-add-mod) (ap (λ n. n % cap) (omega arith))) in
      ap₂ ◌∷◌ (ground (arith, get_or-set items h g v zero_value)) ih
