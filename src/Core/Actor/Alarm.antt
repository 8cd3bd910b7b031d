-- ===== src/Core/Actor/Alarm.antt =====
-- core/actor.go:handleTimerTrigger on an actor with one timer.
use mathlib.Core.List.{lookup}
use goactor.Prelude.{
  ℕ, zero, suc, ◌-◌, ◌/◌, ◌<◌, lt_ℤ, eq_ℤ, ◌≡◌, ◌⊎◌, true, false, [], ◌∷◌, none, some, arith, ℤ,
  pos, Str, Str_discrete, bytes, ok,
}
use goactor.Prelude.Slice.{get_elem?}
use goactor.Structs.Status
use goactor.Structs.QuadHeap
use goactor.Message.{Message, timer, absent}
use goactor.Core.Actor
use goactor.Core.Actor.{Actor, ActorConfig, ActorStatus, ActorStatus_discrete}
use goactor.Core.Actor.Handle
use goactor.Core.Actor.Trigger.{TimerEntry, IsTimer}
use goactor.Core.Actor.Fire.{Triggered, handle_timer_trigger_lem}

abbrev config : ActorConfig
config = record {
  id = bytes "a";
  typ = bytes "t";
  node_id = bytes "n";
  channel_cap = pos 2;
  dedup_cap = pos 2;
}

-- A clock that stands still.
abbrev clock : ℕ → ℤ
clock n = pos 100

abbrev reminder : Message
reminder = record {
  meta = record {
    sender = record { typ = bytes "t"; id = bytes "a" };
    receiver = record { typ = bytes "t"; id = bytes "a" };
    trace_id = [];
    message_id = bytes "t1";
    offset = pos 0;
    message_type = timer;
  };
  command = bytes "hi";
  payload = absent;
  headers = [];
}

-- An actor with one timer, which is due.
abbrev alarm : TimerEntry
alarm = record { item = record { key = bytes "k"; value = reminder; when = pos 50 }; sequence = 0 }

abbrev waiting : Actor
waiting = record (Actor.new_actor [] config) {
  timer = record {
    timer = none;
    heap = record { items = alarm ∷ []; indexes = (bytes "k", 0) ∷ []; next_seq = 1 };
  };
}

alarm_found :
    (i : ℕ) (e : TimerEntry)
    → get_elem? waiting.timer.heap.items i ≡ some e
    → lookup Str_discrete e.item.key waiting.timer.heap.indexes ≡ some i
unfolding lookup Str_discrete
alarm_found zero e at = ground arith
alarm_found (suc i) e at = absurd (ground arith)

alarm_points :
    (k : Str) (i : ℕ)
    → lookup Str_discrete k waiting.timer.heap.indexes ≡ some i
    → (e : TimerEntry) × (get_elem? waiting.timer.heap.items i ≡ some e) × (e.item.key ≡ k)
unfolding lookup
alarm_points k i there = elim (Str_discrete (bytes "k") k) [
  | yes p ↦ (alarm, ground arith, p)
  | no p ↦ absurd (ground arith)
]

alarm_numbered :
    (i : ℕ) (e : TimerEntry) → get_elem? waiting.timer.heap.items i ≡ some e → e.sequence < 1
alarm_numbered zero e at = ground arith
alarm_numbered (suc i) e at = absurd (ground arith)

alarm_alone :
    (c : ℕ) (e p : TimerEntry)
    → 0 < c
    → get_elem? waiting.timer.heap.items c ≡ some e
    → get_elem? waiting.timer.heap.items ((c - 1) / 4) ≡ some p
    → QuadHeap.precedes Str_discrete lt_ℤ eq_ℤ e p ≡ false
alarm_alone zero e p lt at_c at_p = absurd (omega arith)
alarm_alone (suc c) e p lt at_c at_p = absurd (ground arith)

waiting-IsTimer : IsTimer waiting.timer
waiting-IsTimer = record {
  ordered = record { edges = alarm_alone };
  indexed = record { found = alarm_found; points = alarm_points };
  numbered = alarm_numbered;
}

handle_timer_trigger_lem_example :
    (Status.is_status ActorStatus_discrete waiting.status ActorStatus.stopping ≡ true)
      × (Handle.handle_timer_trigger clock waiting ≡ ok waiting)
    ⊎ (Status.is_status ActorStatus_discrete waiting.status ActorStatus.stopping ≡ false)
      × Triggered clock waiting
unfolding Actor.actor_config_ensure Actor.new_actor
handle_timer_trigger_lem_example =
    handle_timer_trigger_lem clock waiting waiting-IsTimer (omega arith)
