-- ===== src/Core/Actor/Tests.antt =====
-- core/actor.go: an actor is made and started, handles a message, fires a timer and stops.
use mathlib.Core.List.{lookup}
use goactor.Prelude.{
  ℕ, suc, lt_ℤ, eq_ℤ, ◌≡◌, ◌⊎◌, refl, Bool, true, false, [], ◌∷◌, some, arith, ℤ, pos, ◌+ℤ◌, ◌-ℤ◌,
  ◌≤ℤ◌, wrap64, Str, Str_discrete, bytes, Run, ok, panic,
}
use goactor.Prelude.Assoc.{contains, insert, delete, ◌∷ʳ◌}
use goactor.Prelude.Slice.{load, store}
use goactor.Structs.Map
use goactor.Structs.Set
use goactor.Structs.Ring
use goactor.Structs.Status
use goactor.Structs.QuadHeap
use goactor.Message.{Message, MessageRef, MessageType, network, absent}
use goactor.Core.Dedup
use goactor.Core.Dedup.Refine.{Remembers, IsDistinct, new_dedup-Remembers}
use goactor.Core.Timer
use goactor.Core.Handlers.{
  Handlers, Handler, Script, returns, panics, set_state, new_handlers, register, get_handler,
}
use goactor.Core.Handlers
use goactor.Core.Factory
use goactor.Core.Factory.{factory_warp}
use goactor.Core.Actor
use goactor.Core.Actor.{Actor, ActorConfig, ActorStatus, ActorStatus_discrete}
use goactor.Core.Actor.Context
use goactor.Core.Actor.Context.{new_context}
use goactor.Core.Actor.Handle
use goactor.Core.Actor.Loop
use goactor.Core.Actor.Loop.{
  start, Event, mailbox_ready, timer_fired, stop_ready, Phase, looping, ended, round,
}
use goactor.Core.Actor.Runs.{
  Reaches, started, delivered, asked, rounded, Reaches-Tracks, Reaches-AllAgree, Reaches-Closes,
  alive_lem,
}
use goactor.Core.Actor.Reach.{Closes}
use goactor.Core.Actor.Latest.{AllAgree, Tracks}
use goactor.Core.Actor.Rounds.{mailbox-drain}
use goactor.Core.Actor.Frame.{Kept}
use goactor.Core.Actor.Again.{Handled}
use goactor.Core.Actor.Returns.{HasRoom, handle_network-returns}
use goactor.Core.Actor.Ids.{ids_of, ids_of-IsDistinct}
use goactor.Structs.QuadHeap.Insert.{new_quad_heap-IsValid}

program : Unit {0}
unfolding Map.new_map Map.get Map.add_or_update lookup insert delete contains load store
    Str_discrete ActorStatus_discrete ◌+ℤ◌ ◌-ℤ◌ wrap64 Set.new_set Set.has Set.add Set.del Set.put
    Set.drop_key Ring.new_ring Ring.len Ring.cap Ring.full Ring.push Ring.pop Ring.values
    Ring.values_from Status.new_status Status.set_status Status.is_status QuadHeap.new_quad_heap
    QuadHeap.len QuadHeap.peek QuadHeap.precedes QuadHeap.less QuadHeap.swap QuadHeap.sift_up
    QuadHeap.least_child QuadHeap.sift_down QuadHeap.fix QuadHeap.insert_item QuadHeap.remove_at
    QuadHeap.update QuadHeap.upsert QuadHeap.remove Dedup.new_dedup Dedup.forget Dedup.make_room
    Dedup.add Dedup.has Dedup.ids Timer.seconds Timer.new_timer Timer.peek Timer.calibration
    Timer.upsert Timer.add Timer.remove Timer.retry_after Handlers.new_handlers Handlers.register
    Handlers.get_handler Factory.factory_warp Actor.actor_config_ensure Actor.new_actor Actor.signal
    Actor.signal_snapshot Actor.signal_idle Actor.signal_stopped Actor.reset_idle Actor.read_clock
    Actor.signal_alive Actor.is_past_much Actor.is_advanced_enough Actor.alive Actor.stop_actor
    Actor.finish Context.new_context Context.run_script Context.add_timer Context.timer_message
    Handle.mark_full Handle.announce_ready Handle.check_mailbox Handle.handle_memory
    Handle.settle_network Handle.settle_timer Handle.call_handler Handle.call_found
    Handle.call_registered Handle.handle_network Handle.handle_timer Handle.dispatch Handle.handle
    Handle.drain_next Handle.drain Handle.move_due Handle.handle_timer_trigger Loop.before_start
    Loop.start Loop.end_run Loop.receive Loop.stop_round Loop.round
program = tt

-- A handler that writes the state, whatever the message says.
abbrev greet : Handler
greet id state m = set_state (bytes "met") (returns true)

abbrev table : Handlers
table = register new_handlers (bytes "hi") greet

abbrev config : ActorConfig
config = record {
  id = bytes "a";
  typ = bytes "t";
  node_id = bytes "n";
  channel_cap = pos 2;
  dedup_cap = pos 2;
}

-- An identity in place of the digest, and a clock that stands still.
abbrev digest : Str → Str
digest x = x

abbrev clock : ℕ → ℤ
clock n = pos 100

abbrev self : MessageRef
self = record { typ = bytes "t"; id = bytes "a" }

abbrev letter : MessageType → Str → ℤ → Message
letter type id offset = record {
  meta = record {
    sender = self;
    receiver = self;
    trace_id = [];
    message_id = id;
    offset = offset;
    message_type = type;
  };
  command = bytes "hi";
  payload = absent;
  headers = [];
}

abbrev Allowed : Message → Type 0
Allowed m = pos 0 ≤ℤ m.offset

abbrev first : Actor
first = (start (factory_warp [] (some table) config)).0

abbrev landed : Run (Actor × Phase) → Actor
landed (ok x) = x.0
landed panic = first

abbrev loaded : Actor
loaded = record first { mailbox = first.mailbox ∷ʳ letter network (bytes "m1") (pos 7) }

abbrev handled : Actor
handled = landed (round digest clock loaded mailbox_ready)

handles :
    (round digest clock loaded mailbox_ready ≡ ok (handled, looping))
    × (handled.offset ≡ pos 7)
    × (handled.state ≡ bytes "met")
unfolding program
handles = (refl, refl, refl)

abbrev At : Actor → Phase → Type 0
At = Reaches Allowed digest clock [] (some table) config

delivery : At loaded looping
unfolding program
delivery = delivered (letter network (bytes "m1") (pos 7)) started (omega arith)

handling : At handled looping
unfolding program
handling = rounded mailbox_ready delivery ((λ is. omega arith), tt) refl

abbrev closed : Actor
closed = landed (round digest clock (Actor.stop_actor handled) stop_ready)

closing : At closed ended
unfolding program
closing = rounded stop_ready (asked handling) tt refl

Reaches-AllAgree_example : AllAgree 2 Allowed closed.sent
unfolding program
Reaches-AllAgree_example =
    Reaches-AllAgree Allowed digest clock [] (some table) config ended closing

Reaches-Closes_example : Closes closed
Reaches-Closes_example = Reaches-Closes Allowed digest clock [] (some table) config closing

alive_lem_example :
    Actor.alive clock handled
    ≡ ok (record handled {
      readings = suc handled.readings;
      alive_timer = some (Timer.seconds (pos 5));
    })
alive_lem_example = alive_lem Allowed digest clock [] (some table) config handling

abbrev emptied : Run (Actor × Bool) → Actor
emptied (ok x) = x.0
emptied panic = first

mailbox-drain_example :
    ((emptied (Handle.drain digest clock 1 loaded)).mailbox ≡ [])
    × Tracks 2 Allowed (emptied (Handle.drain digest clock 1 loaded))
unfolding program
mailbox-drain_example =
    mailbox-drain 2 (omega arith) Allowed digest clock 1 loaded
      (emptied (Handle.drain digest clock 1 loaded)) (omega arith) ((λ is. omega arith), tt)
      (Reaches-Tracks Allowed digest clock [] (some table) config looping delivery) refl

abbrev hello : Message
hello = letter network (bytes "m1") (pos 7)

fresh_room : HasRoom 0 first.timer
unfolding program
fresh_room = record { valid = new_quad_heap-IsValid Str_discrete lt_ℤ eq_ℤ 1; room = omega arith }

fresh_ids : Remembers 2 [] first.dedup
unfolding program
fresh_ids = new_dedup-Remembers (pos 2)

first_table : first.handler ≡ some table
unfolding program
first_table = refl

known : get_handler table (bytes "hi") ≡ some greet
unfolding program
known = refl

handle_network-returns_example :
    (a' : Actor) × ((Handle.handle_network digest clock first hello ≡ ok (a', false))
        × Kept first a'
      ⊎ (Handle.handle_network digest clock first hello ≡ ok (a', true))
        × Handled digest clock first 2 [] fresh_ids (omega arith) table first_table hello a')
handle_network-returns_example =
    handle_network-returns digest clock first 2 [] table hello greet 0 fresh_ids (omega arith)
      first_table known tt fresh_room

ids_of-IsDistinct_example :
    IsDistinct
      (ids_of digest (bytes "a") (new_context hello) (bytes "b" ∷ bytes "c" ∷ bytes "b" ∷ []))
ids_of-IsDistinct_example =
    ids_of-IsDistinct digest (bytes "a") hello (bytes "b" ∷ bytes "c" ∷ bytes "b" ∷ [])
      (omega arith) (λ x y m n e. e)
