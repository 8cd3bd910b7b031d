-- ===== src/Structs/Ring/Look.antt =====
-- structs/ring.go: Peek, At, Len and Full against the bounded queue that the ring holds.
use native.Mathlib.Nat.{mod-eq_of_lt, mod-add-mod, add-zero}
use goactor.Prelude.{
  ℕ, zero, suc, ◌+◌, ◌%◌, ◌≤◌, ◌<◌, ◌≡◌, refl, sym, ap, true, false, ◌&&◌, ◌||◌, List, [], ◌∷◌,
  Option, none, some, arith, ◌==◌, ltb, leb, ℤ, pos, negsuc, lt_ℤ, le_ℤ, ok, Bool-cases, inl, inr,
}
use goactor.Prelude.Assoc.{length}
use goactor.Prelude.Slice.{get_elem?, get_or, load-ok}
use goactor.Structs.Ring.{Ring, len, full, peek, at}
use goactor.Structs.Ring.Window.{window}
use goactor.Structs.Ring.Refine.{Holds, length-Holds}

-- The specification of At.
unfoldable pub item_at {ℓ} : {T : Type ℓ} → List T → ℤ → Option T
item_at q (pos i) = get_elem? q i
item_at q (negsuc i) = none

module _ {ℓ} {T : Type ℓ} (zero_value : T) where
  get_elem?-window :
      (cap : ℕ) (items : List T) (h n i : ℕ)
      → h < cap
      → i < n
      → get_elem? (window zero_value cap items h n) i
        ≡ some (get_or items ((h + i) % cap) zero_value)
  get_elem?-window cap items h zero i hh hi = absurd (omega arith)
  get_elem?-window cap items h (suc n) zero hh hi =
      let here : (h + 0) % cap ≡ h = rw add-zero (mod-eq_of_lt hh) in rw here refl
  get_elem?-window cap items h (suc n) (suc i) hh hi =
      let next : ((h + 1) % cap + i) % cap ≡ (h + suc i) % cap =
        rw mod-add-mod (ap (λ k. k % cap) (omega arith)) in
      rw (← next) (get_elem?-window cap items ((h + 1) % cap) n i (omega arith) (omega arith))

  get_elem?-none : (q : List T) (i : ℕ) → length q ≤ i → get_elem? q i ≡ none
  get_elem?-none [] i p = refl
  get_elem?-none (x ∷ q) zero p = absurd (omega arith)
  get_elem?-none (x ∷ q) (suc i) p = get_elem?-none q i (omega arith)

  module _ {n : ℕ} {q : List T} {r : Ring T} (h : Holds zero_value n q r) where
    get_elem?-Holds :
        (i : ℕ)
        → i < r.size
        → get_elem? q i ≡ some (get_or r.items ((r.head + i) % length r.items) zero_value)
    get_elem?-Holds i p =
        rw (← h.same, h.room)
          (get_elem?-window n r.items r.head r.size i (omega (arith, h.head_in, h.size_in)) p)

    at_pos : (i : ℕ) → at (some r) (pos i) ≡ ok (get_elem? q i)
    unfolding at
    at_pos i = elim (Bool-cases (leb r.size i)) [
      | inl past ↦
          let out : (lt_ℤ (pos i) (pos 0) || le_ℤ (pos r.size) (pos i)) ≡ true = ground arith in
          let far : length q ≤ i = ground (arith, length-Holds zero_value h) in
          rw (out, get_elem?-none q i far) refl
      | inr within ↦
          let inside : (lt_ℤ (pos i) (pos 0) || le_ℤ (pos r.size) (pos i)) ≡ false = ground arith in
          let near : i < r.size = ground arith in
          let slot : (r.head + i) % length r.items < length r.items =
            rw h.room (omega (arith, h.size_in)) in
          rw
            (
              inside,
              load-ok r.items ((r.head + i) % length r.items) zero_value slot,
              get_elem?-Holds i near,
            )
            refl
    ]

    -- At of a ring that holds a queue never panics: it reads the queue, counted from the oldest value, and
    -- gives nothing for a negative offset or one past the end.
    pub at_refines : (offset : ℤ) → at (some r) offset ≡ ok (item_at q offset)
    unfolding at item_at
    at_refines (pos i) = at_pos i
    at_refines (negsuc i) =
        let below : (lt_ℤ (negsuc i) (pos 0) || le_ℤ (pos r.size) (negsuc i)) ≡ true =
          ground arith in
        rw below refl

    -- On a ring that holds a queue, Peek never panics and gives the oldest value, Len is the length of the
    -- queue, and Full tells whether the queue fills a capacity that is not 0.
    pub look_refines :
        (peek (some r) ≡ ok (get_elem? q 0))
        × (len (some r) ≡ length q)
        × (full (some r) ≡ (length q == n && ltb 0 n))
    unfolding peek len full
    look_refines = (
      elim (Bool-cases (r.size == 0)) [
        | inl e ↦
            let none_left : length q ≤ 0 = ground (arith, length-Holds zero_value h) in
            rw (e, get_elem?-none q 0 none_left) refl
        | inr e ↦
            let some_left : 0 < r.size = ground arith in
            let here : r.head < n = ground (arith, h.head_in, h.size_in) in
            let first : (r.head + 0) % length r.items ≡ r.head =
              rw (h.room, add-zero) (mod-eq_of_lt here) in
            rw
              (
                e,
                load-ok r.items r.head zero_value (omega (arith, h.room)),
                get_elem?-Holds 0 some_left,
                first,
              )
              refl
      ],
      sym (length-Holds zero_value h),
      rw (h.room, length-Holds zero_value h) refl,
    )
