-- ===== src/Core/Actor/Fire.antt =====
-- core/actor.go:handleTimerTrigger as a whole.
use goactor.Prelude.{
  ℕ, suc, ◌≤◌, ◌≡◌, ◌⊎◌, refl, Bool, true, false, List, ◌++◌, arith, if◌then◌else◌, ℤ, ok,
  Bool-cases, inl, inr,
}
use goactor.Prelude.Assoc.{length}
use goactor.Structs.QuadHeap
use goactor.Structs.QuadHeap.{QuadHeap, HeapItem, HeapEntry, precedes, len}
use goactor.Core.Timer
use goactor.Core.Timer.{TimerHeap, Timer, seconds}
use goactor.Structs.Status
use goactor.Core.Actor.{Actor, ActorStatus_discrete, stopping, read_clock}
use goactor.Core.Actor.Handle.{handle_timer_trigger}
use goactor.Core.Actor.Trigger.{TimerEntry, held_by, IsTimer, Takes, values, Ends, move_due_lem}

module _ (clock : ℕ → ℤ) (a : Actor) where
  abbrev now : ℤ
  now = clock a.readings

  abbrev later : ℤ
  later = clock (suc a.readings)

  -- What a trigger makes of an actor that is not stopping: it moves messages, and sets the timer for
  -- the first deadline left unless the mailbox is full.
  pub record Triggered : Type 0 where
    pub entries : List TimerEntry
    pub timer : Timer
    pub done : Bool
    pub returned :
        handle_timer_trigger clock a
        ≡ ok (
            if done
            then record a {
              mailbox = a.mailbox ++ values entries;
              timer = Timer.calibration later timer;
              readings = suc (suc a.readings);
            }
            else record a {
              mailbox = a.mailbox ++ values entries;
              timer = timer;
              readings = suc a.readings;
            })
    pub valid : IsTimer timer
    pub takes : Takes now (held_by a.timer) entries (held_by timer)
    pub room : length (a.mailbox ++ values entries) ≤ a.channel_cap
    pub ends : Ends now a (a.mailbox ++ values entries) done timer

  -- With a valid timer and a mailbox within its capacity, handleTimerTrigger returns. It leaves an actor
  -- that is stopping alone. Else it moves the messages of due timers to the end of the mailbox, in the
  -- order of deadline and insertion, each leaving the timer, which stays valid and keeps all others. The
  -- mailbox stays within its capacity, and in the end either no timer left is due and the clock is set for
  -- the first deadline, or the mailbox is full and the clock is set for another attempt in a second.
  pub handle_timer_trigger_lem :
      IsTimer a.timer
      → length a.mailbox ≤ a.channel_cap
      → (Status.is_status ActorStatus_discrete a.status stopping ≡ true)
          × (handle_timer_trigger clock a ≡ ok a)
        ⊎ (Status.is_status ActorStatus_discrete a.status stopping ≡ false) × Triggered
  unfolding handle_timer_trigger read_clock QuadHeap.len
  handle_timer_trigger_lem v room =
      elim (Bool-cases (Status.is_status ActorStatus_discrete a.status stopping)) [
        | inl p ↦ inl (p, rw (handle_timer_trigger, p) refl)
        | inr p ↦
            let m =
              move_due_lem (length a.timer.heap.items) now (record a { readings = suc a.readings })
                v room (omega arith) in
            inr (
              p,
              record {
                entries = m.entries;
                timer = m.timer;
                done = m.done;
                returned = rw (handle_timer_trigger, p, m.returned) refl;
                valid = m.valid;
                takes = m.takes;
                room = m.room;
                ends = m.ends;
              },
            )
      ]
