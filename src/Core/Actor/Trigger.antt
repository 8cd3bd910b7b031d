-- ===== src/Core/Actor/Trigger.antt =====
-- core/actor.go:handleTimerTrigger: the loop that moves messages from the timer to the mailbox.
use goactor.Prelude.{
  ℕ, zero, suc, ◌-◌, ◌≤◌, ◌<◌, ◌≡◌, ◌⊎◌, refl, sym, ◌∙◌, ap, Bool, true, false, List, [], ◌∷◌, ◌++◌,
  map, Option, none, some, arith, ite, ltb, if◌then◌else◌, ℤ, pos, lt_ℤ, eq_ℤ, wrap64, eq_of_parts,
  Str, Str_discrete, Run, ok, Bool-cases, inl, inr, Option-cases,
}
use mathlib.Core.List.{append-nil, append_assoc}
use mathlib.Core.Path.{subst}
use goactor.Prelude.Assoc.{length, ◌∷ʳ◌}
use goactor.Prelude.Slice.{length-append, get_elem?, get_elem?-lt}
use goactor.Structs.QuadHeap
use goactor.Structs.QuadHeap.{QuadHeap, HeapItem, HeapEntry, precedes, len}
use goactor.Structs.QuadHeap.Order.{IsDeadline, entry_of}
use goactor.Structs.QuadHeap.Valid.{IsValid, Yields}
use goactor.Structs.QuadHeap.Release.{present, pop_least, remove_refines}
use goactor.Message.{Message}
use goactor.Core.Timer
use goactor.Core.Timer.{TimerHeap, Timer, seconds}
use goactor.Core.Actor.{Actor}
use goactor.Core.Actor.Handle.{move_due}

pub by_deadline : IsDeadline lt_ℤ eq_ℤ
by_deadline = record {
  asym = λ x y h. ground arith;
  trans = λ x y z h k. ground arith;
  total = λ x y h k. eq_of_parts x y (ground arith);
  same = λ x. ground arith;
  sound = λ x y h. eq_of_parts x y (ground arith);
}

abbrev pub TimerEntry : Type 0
TimerEntry = HeapEntry Str Message ℤ

-- What a timer holds, by key.
abbrev pub Table : Type 0
Table = Str → Option TimerEntry

abbrev pub held_by : Timer → Table
held_by t = entry_of Str_discrete lt_ℤ eq_ℤ t.heap

abbrev pub IsTimer : Timer → Type 0
IsTimer t = IsValid Str_discrete lt_ℤ eq_ℤ t.heap

abbrev pub without : Str → Table → Table
without key t k = ite (Str_discrete k key) none (t k)

-- The entries that are taken off a table one after the other: each is due at `now`, and none left in
-- the table precedes it.
pub data Takes (now : ℤ) : Table → List TimerEntry → Table → Type 0 where
  none_taken : {t : Table} → Takes now t [] t
  taken :
      {t t' : Table} {es : List TimerEntry} (e : TimerEntry)
      → t e.item.key ≡ some e
      → lt_ℤ now e.item.when ≡ false
      → ((k : Str) (a : TimerEntry) → t k ≡ some a → precedes Str_discrete lt_ℤ eq_ℤ a e ≡ false)
      → Takes now (without e.item.key t) es t'
      → Takes now t (e ∷ es) t'

abbrev pub values : List TimerEntry → List Message
values = map (λ e. e.item.value)

-- Nothing that is left is due.
abbrev pub NoneDue : ℤ → Table → Type 0
NoneDue now t = (k : Str) (e : TimerEntry) → t k ≡ some e → lt_ℤ now e.item.when ≡ true

-- Nothing due is left, or the mailbox is full and the timer is set for another attempt.
abbrev pub Ends : ℤ → Actor → List Message → Bool → Timer → Type 0
Ends now a box done t =
    (done ≡ true) × NoneDue now (held_by t)
    ⊎ (done ≡ false) × (length box ≡ a.channel_cap) × (t.timer ≡ some (seconds (pos 1)))

-- What the loop makes of an actor: it moves the messages of some entries to its mailbox.
pub record Moved (now : ℤ) (a : Actor) (r : Run (Actor × Bool)) : Type 0 where
  pub entries : List TimerEntry
  pub timer : Timer
  pub done : Bool
  pub returned : r ≡ ok (record a { mailbox = a.mailbox ++ values entries; timer = timer }, done)
  pub valid : IsTimer timer
  pub takes : Takes now (held_by a.timer) entries (held_by timer)
  pub room : length (a.mailbox ++ values entries) ≤ a.channel_cap
  pub ends : Ends now a (a.mailbox ++ values entries) done timer

module _ {now : ℤ} {a : Actor} (v : IsTimer a.timer) where
  -- The loop ends with the first entry.
  stays :
      {r : Run (Actor × Bool)}
      → length a.mailbox ≤ a.channel_cap
      → r ≡ ok (a, true)
      → NoneDue now (held_by a.timer)
      → Moved now a r
  stays room returned none_due = record {
    entries = [];
    timer = a.timer;
    done = true;
    returned =
        returned ∙ ap (λ box. ok (record a { mailbox = box }, true)) (sym (append-nil a.mailbox));
    valid = v;
    takes = none_taken;
    room = rw append-nil room;
    ends = inl (refl, none_due);
  }

  -- The mailbox is full.
  retries :
      {r : Run (Actor × Bool)}
      → length a.mailbox ≡ a.channel_cap
      → r ≡ ok (record a { timer = Timer.retry_after a.timer (seconds (pos 1)) }, false)
      → Moved now a r
  unfolding Timer.retry_after seconds wrap64
  retries full returned = record {
    entries = [];
    timer = Timer.retry_after a.timer (seconds (pos 1));
    done = false;
    returned =
        returned
        ∙ ap
            (λ box. ok (
              record a { mailbox = box; timer = Timer.retry_after a.timer (seconds (pos 1)) },
              false,
            ))
            (sym (append-nil a.mailbox));
    valid = v;
    takes = none_taken;
    room = rw append-nil (omega (arith, full));
    ends = inr (refl, rw append-nil full, refl);
  }

  -- The entry `e` goes first.
  moves :
      {r : Run (Actor × Bool)} {t : Timer} (e : TimerEntry)
      → held_by a.timer e.item.key ≡ some e
      → lt_ℤ now e.item.when ≡ false
      → ((k : Str) (b : TimerEntry)
          → held_by a.timer k ≡ some b
          → precedes Str_discrete lt_ℤ eq_ℤ b e ≡ false)
      → ((k : Str) → held_by t k ≡ without e.item.key (held_by a.timer) k)
      → Moved now (record a { mailbox = a.mailbox ∷ʳ e.item.value; timer = t }) r
      → Moved now a r
  moves e holds due least held m =
      let joined : (a.mailbox ∷ʳ e.item.value) ++ values m.entries
          ≡ a.mailbox ++ values (e ∷ m.entries) =
        append_assoc a.mailbox (e.item.value ∷ []) (values m.entries) in
      record {
        entries = e ∷ m.entries;
        timer = m.timer;
        done = m.done;
        returned =
            m.returned
            ∙ ap (λ box. ok (record a { mailbox = box; timer = m.timer }, m.done)) joined;
        valid = m.valid;
        takes =
            taken e holds due least
              (subst (λ t. Takes now t m.entries (held_by m.timer)) (λ i k. held k i) m.takes);
        room = subst (λ box. length box ≤ a.channel_cap) joined m.room;
        ends = subst (λ box. Ends now a box m.done m.timer) joined m.ends;
      }

peek-lt :
    (t : Timer) (item : HeapItem Str Message ℤ) → Timer.peek t ≡ some item → 0 < length t.heap.items
unfolding Timer.peek QuadHeap.peek
peek-lt t item h = elim (Option-cases (get_elem? t.heap.items 0)) [
  | inl absent ↦ absurd (ground arith)
  | inr (e, at) ↦ get_elem?-lt t.heap.items 0 e at
]

-- What does not precede an entry that is not due is not due.
not_due :
    (now : ℤ) (b e : TimerEntry)
    → lt_ℤ now e.item.when ≡ true
    → precedes Str_discrete lt_ℤ eq_ℤ b e ≡ false
    → lt_ℤ now b.item.when ≡ true
unfolding precedes
not_due now b e later h = ground arith

removed_size :
    {h : TimerHeap} {e : TimerEntry} {after : Table}
    → entry_of Str_discrete lt_ℤ eq_ℤ h e.item.key ≡ some e
    → (r : Yields Str_discrete lt_ℤ eq_ℤ h
        (QuadHeap.remove Str_discrete lt_ℤ eq_ℤ h e.item.key)
        (present Str_discrete lt_ℤ eq_ℤ h e.item.key)
        (if present Str_discrete lt_ℤ eq_ℤ h e.item.key then length h.items - 1 else length h.items)
        after)
    → length r.heap.items ≡ length h.items - 1
removed_size holds r = r.size ∙ rw (present, holds) refl

pub move_due_lem :
    (fuel : ℕ) (now : ℤ) (a : Actor)
    → IsTimer a.timer
    → length a.mailbox ≤ a.channel_cap
    → length a.timer.heap.items ≤ fuel
    → Moved now a (move_due fuel now a)
unfolding move_due Timer.remove Timer.peek
move_due_lem zero now a v room enough =
    elim (pop_least Str_discrete lt_ℤ eq_ℤ by_deadline a.timer.heap v) [
      | inl p ↦ stays v room refl (λ k e there. absurd (ground (arith, p.holds k)))
      | inr (e, p) ↦ absurd (omega (arith, peek-lt a.timer e.item p.peeked))
    ]
move_due_lem (suc n) now a v room enough =
    elim (pop_least Str_discrete lt_ℤ eq_ℤ by_deadline a.timer.heap v) [
      | inl p ↦
          stays v room (rw (move_due, Timer.peek, p.peeked) refl)
            (λ k e there. absurd (ground (arith, p.holds k)))
      | inr (e, p) ↦ elim (Bool-cases (lt_ℤ now e.item.when)) [
        | inl later ↦
            stays v room (rw (move_due, Timer.peek, p.peeked, later) refl)
              (λ k b there. not_due now b e later (p.least k b there))
        | inr due ↦ elim (Bool-cases (ltb (length a.mailbox) a.channel_cap)) [
          | inr full ↦
              retries v (ground arith) (rw (move_due, Timer.peek, p.peeked, due, full) refl)
          | inl space ↦
              let removed =
                remove_refines Str_discrete lt_ℤ eq_ℤ by_deadline a.timer.heap v e.item.key in
              let rest =
                move_due_lem n now
                  (record a {
                    mailbox = a.mailbox ∷ʳ e.item.value;
                    timer = record (a.timer) { heap = removed.heap };
                  })
                  removed.valid (ground (arith, length-append a.mailbox (e.item.value ∷ [])))
                  (omega (arith, removed_size p.holds removed)) in
              rw (move_due, Timer.peek, p.peeked, due, space, Timer.remove, removed.returned)
                (moves v e p.holds due p.least removed.held rest)
        ]
      ]
    ]
