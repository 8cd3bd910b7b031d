-- ===== src/Structs/Ring/Refine.antt =====
-- structs/ring.go: a ring against a bounded queue that drops its oldest value.
use native.Mathlib.Nat.{mod-eq_of_lt, mod-add-mod, add-zero}
use goactor.Prelude.{
  ℕ, zero, suc, ◌+◌, ◌-◌, ◌%◌, ◌≤◌, ◌<◌, ◌≡◌, refl, sym, ◌∙◌, ap, false, List, [], ◌∷◌, Option,
  none, some, arith, ◌==◌, if◌then◌else◌, ℤ, pos_part, ok, Bool-cases, inl, inr, ◌⊎◌,
}
use goactor.Prelude.Assoc.{length, ◌∷ʳ◌, drop}
use goactor.Prelude.Slice.{
  get_elem?, get_or, set, replicate, length-set, length-replicate, load-ok, store-ok,
}
use goactor.Structs.Ring.{Ring, new_ring, push, pop, values_from, values, clear}
use goactor.Structs.Ring.Window.{
  window, length-window, window-set_end, window-set_head, window-pos, full_turn,
}

nil_of_length {ℓ} : {T : Type ℓ} (q : List T) → length q ≡ 0 → q ≡ []
nil_of_length [] h = refl
nil_of_length (x ∷ q) h = absurd (omega arith)

-- The specification: a queue of at most `n` values. A full queue drops its oldest value.
module _ {ℓ} {T : Type ℓ} where
  unfoldable pub enqueue : ℕ → List T → T → List T × Option T
  enqueue n q v =
      if n == 0
      then (q, none)
      else if length q == n
      then (drop 1 q ∷ʳ v, get_elem? q 0)
      else (q ∷ʳ v, none)

  unfoldable pub dequeue : List T → List T × Option T
  dequeue q = (drop 1 q, get_elem? q 0)

module _ {ℓ} {T : Type ℓ} (zero_value : T) where
  -- A ring that holds `q` within capacity `n`.
  pub record Holds (n : ℕ) (q : List T) (r : Ring T) : Type ℓ where
    pub room : length r.items ≡ n
    pub head_in : (r.head ≡ 0) ⊎ (r.head < n)
    pub size_in : r.size ≤ n
    pub same : window zero_value n r.items r.head r.size ≡ q

  -- NewRing holds nothing.
  pub new_ring-Holds : (capacity : ℤ) → Holds (pos_part capacity) [] (new_ring zero_value capacity)
  unfolding new_ring
  new_ring-Holds capacity = record {
    room = ground (arith, length-replicate (pos_part capacity) zero_value);
    head_in = inl refl;
    size_in = omega arith;
    same = refl;
  }

  module _ {n : ℕ} {q : List T} {r : Ring T} (h : Holds n q r) where
    pub length-Holds : length q ≡ r.size
    length-Holds = rw (← h.same) (length-window zero_value n r.items r.head r.size)

    -- What a ring that is not empty holds.
    front :
        0 < r.size
        → q
          ≡ get_or r.items r.head zero_value
            ∷ window zero_value n r.items ((r.head + 1) % n) (r.size - 1)
    front p = sym h.same ∙ window-pos zero_value n r.items r.head r.size p

    push_full :
        (v : T)
        → 0 < n
        → r.size ≡ n
        → (r' : Ring T) × (push (some r) v ≡ ok (some r', get_elem? q 0))
          × Holds n (drop 1 q ∷ʳ v) r'
    unfolding push
    push_full v p e = (
      record r { items = set r.items r.head v; head = (r.head + 1) % length r.items },
      ground (
        arith,
        h.room,
        h.head_in,
        load-ok r.items r.head zero_value,
        store-ok r.items r.head v,
        front,
      ),
      record {
        room = length-set r.items r.head v ∙ h.room;
        head_in = inr (rw h.room (omega arith));
        size_in = h.size_in;
        same =
            rw (h.room, last_round)
              (window-set_end zero_value n r.items v (n - 1) ((r.head + 1) % n) r.head
                  (omega (arith, h.room)) (omega arith) (omega arith)
                  (full_turn n r.head (omega (arith, h.head_in)))
                ∙ ap (λ l. l ∷ʳ v) (sym others));
      },
    )
      where
        last_round : r.size ≡ suc (n - 1)
        last_round = omega arith

        others : drop 1 q ≡ window zero_value n r.items ((r.head + 1) % n) (n - 1)
        others = ground (arith, front)

    push_room :
        (v : T)
        → r.size < n
        → (r' : Ring T) × (push (some r) v ≡ ok (some r', none)) × Holds n (q ∷ʳ v) r'
    unfolding push
    push_room v room = (
      record r { items = set r.items ((r.head + r.size) % length r.items) v; size = r.size + 1 },
      ground (arith, h.room, store-ok r.items ((r.head + r.size) % length r.items) v),
      record {
        room = length-set r.items ((r.head + r.size) % length r.items) v ∙ h.room;
        head_in = h.head_in;
        size_in = omega arith;
        same =
            rw (h.room, one_more)
              (window-set_end zero_value n r.items v r.size r.head ((r.head + r.size) % n)
                  (omega (arith, h.room)) (omega (arith, h.head_in)) room refl
                ∙ ap (λ l. l ∷ʳ v) h.same);
      },
    )
      where
        one_more : r.size + 1 ≡ suc r.size
        one_more = omega arith

    push_disabled : (v : T) → n ≡ 0 → push (some r) v ≡ ok (some r, none)
    unfolding push
    push_disabled v e = ground (arith, h.room)

    -- Push on a ring that holds a queue never panics: it enqueues the value in the queue bounded by the
    -- capacity, and returns the oldest value that it overwrites, if any.
    pub push_refines :
        (v : T)
        → (r' : Ring T) × (push (some r) v ≡ ok (some r', (enqueue n q v).1))
          × Holds n (enqueue n q v).0 r'
    unfolding enqueue
    push_refines v = elim (Bool-cases (n == 0)) [
      | inl empty ↦ rw empty (r, push_disabled v (ground arith), h)
      | inr some_room ↦ elim (Bool-cases (length q == n)) [
        | inl is_full ↦
            rw (some_room, is_full) (push_full v (ground arith) (ground (arith, length-Holds)))
        | inr has_room ↦
            rw (some_room, has_room) (push_room v (ground (arith, length-Holds, h.size_in)))
      ]
    ]

    pop_empty : r.size ≡ 0 → pop zero_value (some r) ≡ ok (some r, none)
    unfolding pop
    pop_empty e = ground arith

    pop_front :
        0 < r.size
        → (r' : Ring T) × (pop zero_value (some r) ≡ ok (some r', get_elem? q 0))
          × Holds n (drop 1 q) r'
    unfolding pop
    pop_front p = (
      record { items = set r.items r.head zero_value; head = next_head; size = r.size - 1 },
      ground (
        arith,
        h.room,
        h.head_in,
        load-ok r.items r.head zero_value,
        store-ok r.items r.head zero_value,
        front p,
      ),
      record {
        room = length-set r.items r.head zero_value ∙ h.room;
        head_in = elim (Bool-cases (r.size - 1 == 0)) [
          | inl e ↦ rw e (inl refl)
          | inr e ↦ rw (e, h.room) (inr (omega (arith, h.size_in)))
        ];
        size_in = omega (arith, h.size_in);
        same = elim (Bool-cases (r.size - 1 == 0)) [
          | inl e ↦ let last : r.size - 1 ≡ 0 = ground arith in rw (others, last)
          | inr e ↦
              rw (e, h.room)
                (window-set_head zero_value n r.items zero_value (r.size - 1) 0 r.head
                    ((r.head + 1) % n) (omega (arith, h.room)) (omega (arith, h.size_in, h.head_in))
                    (omega (arith, h.size_in)) refl
                  ∙ sym others)
        ];
      },
    )
      where
        next_head : ℕ
        next_head = if r.size - 1 == 0 then 0 else (r.head + 1) % length r.items

        others : drop 1 q ≡ window zero_value n r.items ((r.head + 1) % n) (r.size - 1)
        others = ground (arith, front p)

    -- Pop on a ring that holds a queue never panics: it returns the oldest value, if any, and leaves the
    -- ring holding the others.
    pub pop_refines :
        (r' : Ring T) × (pop zero_value (some r) ≡ ok (some r', (dequeue q).1))
        × Holds n (dequeue q).0 r'
    unfolding dequeue
    pop_refines = elim (Bool-cases (r.size == 0)) [
      | inl e ↦
          let nothing : q ≡ [] = nil_of_length q (ground (arith, length-Holds)) in
          rw nothing (r, pop_empty (ground arith), rw nothing at h)
      | inr e ↦ pop_front (ground arith)
    ]

    values_from-window :
        (k i : ℕ)
        → 0 < n
        → values_from r i k ≡ ok (window zero_value n r.items ((r.head + i) % n) k)
    unfolding values_from
    values_from-window zero i p = refl
    values_from-window (suc k) i p = ground (
      arith,
      h.room,
      load-ok r.items ((r.head + i) % n) zero_value,
      values_from-window k (i + 1) p,
      next_index,
    )
      where
        next_index : ((r.head + i) % n + 1) % n ≡ (r.head + (i + 1)) % n
        next_index = rw mod-add-mod (ap (λ j. j % n) (omega arith))

    -- Values of a ring that holds a queue never panics and lists the queue, oldest first.
    pub values_refines : values (some r) ≡ ok q
    unfolding values
    values_refines = elim (Bool-cases (r.size == 0)) [
      | inl e ↦ rw e (ap ok (sym (nil_of_length q (ground (arith, length-Holds)))))
      | inr e ↦ rw e (
          values_from-window r.size 0 (omega (arith, h.size_in, pos_size e))
          ∙ ap ok (start (pos_size e) ∙ h.same))
    ]
      where
        pos_size : (r.size == 0) ≡ false → 0 < r.size
        pos_size e = ground arith

        start :
            0 < r.size
            → window zero_value n r.items ((r.head + 0) % n) r.size
              ≡ window zero_value n r.items r.head r.size
        start p =
            rw (add-zero, mod-eq_of_lt {n = r.head} {m = n} (omega (arith, h.head_in, h.size_in)))

    -- Clear leaves an empty ring of the same capacity.
    pub clear_refines : (r' : Ring T) × (clear zero_value (some r) ≡ some r') × Holds n [] r'
    unfolding clear
    clear_refines = (
      record { items = replicate (length r.items) zero_value; head = 0; size = 0 },
      refl,
      record {
        room = length-replicate (length r.items) zero_value ∙ h.room;
        head_in = inl refl;
        size_in = omega arith;
        same = refl;
      },
    )
