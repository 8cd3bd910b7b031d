-- ===== src/Structs/Ring.antt =====
-- structs/ring.go: a FIFO of fixed capacity over a slice that overwrites the oldest value.
-- A pointer `*Ring` is an option, `none` for nil. The zero value of T is a parameter. Indices stay
-- below twice the length of the slice, so no `int` overflows. An index out of range panics.
pub mod Window
pub mod Refine
pub mod Look
mod Tests
use goactor.Prelude.{
  ℕ, zero, suc, ◌+◌, ◌-◌, ◌%◌, Bool, true, false, ◌&&◌, ◌||◌, not, List, [], ◌∷◌, Option, none,
  some, ltb, leb, ◌==◌, if◌then◌else◌, ℤ, pos, pos_part, lt_ℤ, le_ℤ, Run, ok, panic, ◌>>=◌,
}
use goactor.Prelude.Assoc.{length}
use goactor.Prelude.Slice.{replicate, load, store}

pub record Ring {ℓ} (T : Type ℓ) : Type ℓ where
  pub items : List T
  pub head : ℕ
  pub size : ℕ

module _ {ℓ} {T : Type ℓ} (zero_value : T) where
  -- NewRing: a negative capacity is taken as 0.
  unfoldable pub new_ring : ℤ → Ring T
  new_ring capacity =
      let n = if lt_ℤ capacity (pos 0) then 0 else pos_part capacity in
      record { items = replicate n zero_value; head = 0; size = 0 }

module _ {ℓ} {T : Type ℓ} where
  unfoldable pub len : Option (Ring T) → ℕ
  len none = 0
  len (some r) = r.size

  unfoldable pub cap : Option (Ring T) → ℕ
  cap none = 0
  cap (some r) = length r.items

  unfoldable pub full : Option (Ring T) → Bool
  full none = false
  full (some r) = r.size == length r.items && ltb 0 (length r.items)

  -- Push returns the ring and the value that it overwrote, if any.
  unfoldable pub push : Option (Ring T) → T → Run (Option (Ring T) × Option T)
  push none value = ok (none, none)
  push (some r) value =
      if length r.items == 0
      then ok (some r, none)
      else if r.size == length r.items
      then (do
        evicted ← load r.items r.head
        items ← store r.items r.head value
        ok (some (record r { items = items; head = (r.head + 1) % length r.items }), some evicted))
      else (do
        items ← store r.items ((r.head + r.size) % length r.items) value
        ok (some (record r { items = items; size = r.size + 1 }), none))

  unfoldable pub peek : Option (Ring T) → Run (Option T)
  peek none = ok none
  peek (some r) = if r.size == 0 then ok none else (do value ← load r.items r.head; ok (some value))

  -- At: an offset out of the contents gives `none`.
  unfoldable pub at : Option (Ring T) → ℤ → Run (Option T)
  at none offset = ok none
  at (some r) offset =
      if lt_ℤ offset (pos 0) || le_ℤ (pos r.size) offset
      then ok none
      else (do value ← load r.items ((r.head + pos_part offset) % length r.items); ok (some value))

  -- The loop of Values from index `i` on, `n` rounds to go.
  unfoldable pub values_from : Ring T → ℕ → ℕ → Run (List T)
  values_from r i zero = ok []
  values_from r i (suc n) = do
    value ← load r.items ((r.head + i) % length r.items)
    rest ← values_from r (i + 1) n
    ok (value ∷ rest)

  unfoldable pub values : Option (Ring T) → Run (List T)
  values none = ok []
  values (some r) = if r.size == 0 then ok [] else values_from r 0 r.size

module _ {ℓ} {T : Type ℓ} (zero_value : T) where
  -- Pop clears the slot, and puts the head of an emptied ring back to 0.
  unfoldable pub pop : Option (Ring T) → Run (Option (Ring T) × Option T)
  pop none = ok (none, none)
  pop (some r) = if r.size == 0 then ok (some r, none) else (do
    value ← load r.items r.head
    items ← store r.items r.head zero_value
    let head = (r.head + 1) % length r.items
    let size = r.size - 1
    ok (
      some (record { items = items; head = if size == 0 then 0 else head; size = size }),
      some value,
    ))

  unfoldable pub clear : Option (Ring T) → Option (Ring T)
  clear none = none
  clear (some r) =
      some (record { items = replicate (length r.items) zero_value; head = 0; size = 0 })
