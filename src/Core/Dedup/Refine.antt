-- ===== src/Core/Dedup/Refine.antt =====
-- core/dedup.go: a Dedup of capacity `n` against the list of the last `n` ids that were new.

use goactor.Prelude.{
  ℕ, ◌+◌, ◌<◌, ◌≡◌, refl, ◌∙◌, Bool, true, false, not, List, [], ◌∷◌, some, arith, ite,
  if◌then◌else◌, ◌==◌, ℤ, pos_part, Str, Str_discrete, ok, Bool-cases, inl, inr,
}
use goactor.Prelude.Assoc.{length, contains, drop, ◌∷ʳ◌}
use goactor.Prelude.Slice.{get_elem?}
use goactor.Structs.Ring
use goactor.Structs.Ring.{Ring}
use goactor.Structs.Ring.Refine.{
  Holds, enqueue, dequeue, new_ring-Holds, length-Holds, push_refines, pop_refines, values_refines,
  clear_refines,
}
use goactor.Structs.Set
use goactor.Structs.Set.{Set, has-add, has-del}
use goactor.Core.Dedup.{Dedup, new_dedup, forget, make_room, add, has, reset, ids}

abbrev pub seen : List Str → Str → Bool
seen = contains Str_discrete

-- No id twice.
abbrev pub IsDistinct : List Str → Type 0
IsDistinct [] = Unit
IsDistinct (x ∷ q) = (seen q x ≡ false) × IsDistinct q

-- The specification of Add: an id that is not among the last `n` is appended, and the oldest goes.
unfoldable pub remember : ℕ → List Str → Str → List Str
remember n q id = if seen q id then q else if length q == n then drop 1 q ∷ʳ id else q ∷ʳ id

-- A Dedup that remembers exactly `q`, oldest first.
pub record Remembers (n : ℕ) (q : List Str) (d : Dedup) : Type 0 where
  pub ring : Ring Str
  pub queue : d.queue ≡ some ring
  pub held : Holds [] n q ring
  pub member : (x : Str) → Set.has Str_discrete d.queued x ≡ seen q x
  pub distinct : IsDistinct q

seen-snoc : (q : List Str) (id x : Str) → seen (q ∷ʳ id) x ≡ ite (Str_discrete id x) true (seen q x)
unfolding contains
seen-snoc [] id x = ground arith
seen-snoc (y ∷ q) id x = ground (arith, seen-snoc q id x)

-- A new id is remembered.
pub seen-remember :
    (n : ℕ) (q : List Str) (id : Str) → seen q id ≡ false → seen (remember n q id) id ≡ true
unfolding remember
seen-remember n q id new = ground (arith, seen-snoc q id id, seen-snoc (drop 1 q) id id)

snoc-IsDistinct :
    (q : List Str) (id : Str) → IsDistinct q → seen q id ≡ false → IsDistinct (q ∷ʳ id)
unfolding contains
snoc-IsDistinct [] id d h = (refl, tt)
snoc-IsDistinct (y ∷ q) id d h =
    (ground (arith, seen-snoc q id y), snoc-IsDistinct q id d.1 (ground arith))

-- Dropping the oldest id forgets exactly that one.
seen-drop :
    (q : List Str) (v x : Str)
    → IsDistinct q
    → get_elem? q 0 ≡ some v
    → seen (drop 1 q) x ≡ ite (Str_discrete v x) false (seen q x)
unfolding contains
seen-drop [] v x d h = absurd (ground arith)
seen-drop (y ∷ q) v x d h = ground arith

drop-IsDistinct : (q : List Str) → IsDistinct q → IsDistinct (drop 1 q)
drop-IsDistinct [] d = d
drop-IsDistinct (y ∷ q) d = d.1

not_seen-drop : (q : List Str) (id : Str) → seen q id ≡ false → seen (drop 1 q) id ≡ false
unfolding contains
not_seen-drop [] id h = h
not_seen-drop (y ∷ q) id h = ground arith

length-drop : (q : List Str) → 0 < length q → length (drop 1 q) + 1 ≡ length q
length-drop [] h = absurd (omega arith)
length-drop (y ∷ q) h = omega arith

enqueue-room : (n : ℕ) (q : List Str) (v : Str) → length q < n → (enqueue n q v).0 ≡ q ∷ʳ v
unfolding enqueue
enqueue-room n q v h = ground arith

-- NewDedup remembers nothing.
pub new_dedup-Remembers : (limit : ℤ) → Remembers (pos_part limit) [] (new_dedup limit)
unfolding new_dedup Set.has Set.new_set contains
new_dedup-Remembers limit = record {
  ring = Ring.new_ring [] limit;
  queue = refl;
  held = new_ring-Holds [] limit;
  member = λ x. refl;
  distinct = tt;
}

module _ {n : ℕ} {q : List Str} {d : Dedup} (m : Remembers n q d) where
  full_iff : 0 < n → Ring.full d.queue ≡ (length q == n)
  unfolding Ring.full
  full_iff p = rw m.queue (ground (arith, m.held.room, length-Holds [] m.held))

  -- Has tells exactly the ids that are remembered.
  pub has-seen : (x : Str) → has d x ≡ seen q x
  unfolding has
  has-seen x = m.member x

  make_room-full :
      (v : Str)
      → get_elem? q 0 ≡ some v
      → Ring.full d.queue ≡ true
      → (d' : Dedup) × (make_room d ≡ ok d') × Remembers n (drop 1 q) d'
  unfolding make_room dequeue forget
  make_room-full v e h =
      let (r', popped, held) = pop_refines [] m.held in
      (
        record { queue = some r'; queued = Set.del Str_discrete d.queued v },
        ground (arith, m.queue, popped),
        record {
          ring = r';
          queue = refl;
          held = held;
          member = λ x.
              ground
                (arith, has-del Str_discrete d.queued v x, m.member x, seen-drop q v x m.distinct);
          distinct = drop-IsDistinct q m.distinct;
        },
      )

  -- Making room drops the oldest id of a full Dedup.
  make_room_refines :
      0 < n
      → (d' : Dedup) × (make_room d ≡ ok d')
        × Remembers n (if length q == n then drop 1 q else q) d'
  unfolding make_room
  make_room_refines p = elim (Bool-cases (length q == n)) [
    | inl e ↦ let (v, top) = front q (ground arith) in rw e (make_room-full v top (full_iff p ∙ e))
    | inr e ↦ rw e (d, rw (full_iff p, e, make_room), m)
  ]
    where
      front : (q : List Str) → 0 < length q → (v : Str) × (get_elem? q 0 ≡ some v)
      front [] h = absurd (omega arith)
      front (v ∷ q) h = (v, refl)

  -- The ids that are left when there is room.
  abbrev kept : List Str
  kept = if length q == n then drop 1 q else q

  kept-lt : 0 < n → length kept < n
  kept-lt p = ground (arith, length-Holds [] m.held, m.held.size_in, length-drop q)

  not_seen-kept : (id : Str) → seen q id ≡ false → seen kept id ≡ false
  unfolding contains
  not_seen-kept id new = ground (arith, not_seen-drop q id new)

  remember-kept : (id : Str) → (if length q == n then drop 1 q ∷ʳ id else q ∷ʳ id) ≡ kept ∷ʳ id
  remember-kept id = ground arith

  add_new :
      (id : Str)
      → 0 < n
      → seen q id ≡ false
      → (d' : Dedup) × (add d id ≡ ok (d', true)) × Remembers n (kept ∷ʳ id) d'
  unfolding add
  add_new id p new =
      let (g, made, roomy) = make_room_refines p in
      let (r', pushed, held) = push_refines [] roomy.held id in
      (
        record { queue = some r'; queued = Set.add Str_discrete g.queued id },
        ground (arith, m.member id, made, roomy.queue, pushed),
        record {
          ring = r';
          queue = refl;
          held = rw (enqueue-room n kept id (omega (arith, kept-lt p))) at held;
          member = λ x.
              ground
                (arith, has-add Str_discrete g.queued id x, roomy.member x, seen-snoc kept id x);
          distinct = snoc-IsDistinct kept id roomy.distinct (not_seen-kept id new);
        },
      )

  add_old : (id : Str) → seen q id ≡ true → add d id ≡ ok (d, false)
  unfolding add
  add_old id old = ground (arith, m.member id)

  -- On a Dedup of positive capacity that remembers a list of ids, Add returns, says whether the id is
  -- not in the list, and remembers the list with a new id appended, in place of the oldest id if the
  -- list is full.
  pub add_refines :
      (id : Str)
      → 0 < n
      → (d' : Dedup) × (add d id ≡ ok (d', not (seen q id))) × Remembers n (remember n q id) d'
  unfolding remember
  add_refines id p = elim (Bool-cases (seen q id)) [
    | inl old ↦ rw old (d, add_old id old, m)
    | inr new ↦ rw (new, remember-kept id) (add_new id p new)
  ]

  -- Ids of a Dedup that remembers a list returns that list, oldest first.
  pub ids_refines : ids d ≡ ok q
  unfolding ids
  ids_refines = rw m.queue (values_refines [] m.held)

  -- Reset forgets everything.
  pub reset_refines : Remembers n [] (reset d)
  unfolding reset Set.has Set.clear contains
  reset_refines =
      let (r', cleared, held) = clear_refines [] m.held in
      record {
        ring = r';
        queue = rw m.queue cleared;
        held = held;
        member = λ x. refl;
        distinct = tt;
      }
