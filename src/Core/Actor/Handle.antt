-- ===== src/Core/Actor/Handle.antt =====
-- core/actor.go: handle, drain and handleTimerTrigger.
-- A call returns the actor, and whether it ended without a panic of the handler.
use goactor.Prelude.{
  ℕ, zero, suc, ◌-◌, ◌/◌, Bool, true, false, ◌&&◌, List, [], ◌∷◌, Option, none, some, leb, ltb,
  if◌then◌else◌, ℤ, pos, lt_ℤ, Str, Run, ok, ◌>>=◌,
}
use goactor.Prelude.Assoc.{length, ◌∷ʳ◌}
use goactor.Structs.Status
use goactor.Structs.QuadHeap
use goactor.Message.{
  Message, MessageType, memory, timer, network, other, actor_ready, cmd_actor_ready,
}
use goactor.Core.Dedup
use goactor.Core.Timer
use goactor.Core.Timer.{seconds}
use goactor.Core.Handlers.{Handler, Handlers, get_handler}
use goactor.Core.Actor.{Actor, ActorStatus_discrete, stopping, signal, read_clock}
use goactor.Core.Actor.Context.{Ending, returned, panicked, new_context, run_script}

-- The start of handle, once the message has left the mailbox.
unfoldable pub mark_full : Actor → Actor
mark_full a =
    if leb (a.channel_cap - 1) (length a.mailbox) then record a { mail_full = true } else a

unfoldable pub announce_ready : Actor → Actor
announce_ready a =
    if a.mail_full && leb (length a.mailbox) (a.channel_cap / 2)
    then record (signal a cmd_actor_ready actor_ready) { mail_full = false }
    else a

unfoldable pub check_mailbox : Actor → Actor
check_mailbox a = announce_ready (mark_full a)

-- handleMemory
unfoldable pub handle_memory : Actor → Message → Actor
handle_memory a m = a

-- handleNetwork after the handler, whatever error it returned
unfoldable pub settle_network : Message → Actor × Ending → Run (Actor × Bool)
settle_network m (a, panicked) = ok (a, false)
settle_network m (a, returned done) = do
  (dedup, _) ← Dedup.add a.dedup m.message_id
  ok (record a { dedup = dedup; offset = m.offset }, true)

-- handleTimer after the handler
unfoldable pub settle_timer : Actor × Ending → Run (Actor × Bool)
settle_timer (a, panicked) = ok (a, false)
settle_timer (a, returned done) = ok (a, true)

module _ (digest : Str → Str) (clock : ℕ → ℤ) where
  -- A handler that is called on a message.
  unfoldable pub call_handler : Actor → Message → Handler → Run (Actor × Ending)
  call_handler a m handler = run_script digest clock (new_context m) a (handler a.id a.state m)

  -- The lookup of the handler and its call: without a handler the message is dropped, and a nil
  -- table panics.
  unfoldable pub call_found :
      (Actor × Ending → Run (Actor × Bool)) → Option Handler → Actor → Message → Run (Actor × Bool)
  call_found settle none a m = ok (a, true)
  call_found settle (some handler) a m = call_handler a m handler >>= settle

  unfoldable pub call_registered :
      (Actor × Ending → Run (Actor × Bool)) → Option Handlers → Actor → Message → Run (Actor × Bool)
  call_registered settle none a m = ok (a, false)
  call_registered settle (some h) a m = call_found settle (get_handler h m.command) a m

  -- handleNetwork
  unfoldable pub handle_network : Actor → Message → Run (Actor × Bool)
  handle_network a m =
      let called = call_registered (settle_network m) a.handler a m in
      if Dedup.has a.dedup m.message_id then ok (a, true) else called

  -- handleTimer
  unfoldable pub handle_timer : Actor → Message → Run (Actor × Bool)
  handle_timer a m = call_registered settle_timer a.handler a m

  unfoldable pub dispatch : MessageType → Actor → Message → Run (Actor × Bool)
  dispatch network a m = handle_network a m
  dispatch memory a m = ok (handle_memory a m, true)
  dispatch timer a m = handle_timer a m
  dispatch (other t) a m = ok (a, true)

  -- handle
  unfoldable pub handle : Actor → Message → Run (Actor × Bool)
  handle a m = dispatch m.message_type (check_mailbox a) m

  -- A round of drain on the messages of the mailbox.
  unfoldable pub drain_next :
      (Actor → Run (Actor × Bool)) → List Message → Actor → Run (Actor × Bool)
  drain_next continue [] a = ok (a, true)
  drain_next continue (m ∷ rest) a = handle (record a { mailbox = rest }) m >>= λ (a', done).
      if done then continue a' else ok (a', false)

  -- drain, on at most `fuel` messages: those that the mailbox holds, since no handler adds to it.
  unfoldable pub drain : ℕ → Actor → Run (Actor × Bool)
  drain zero a = ok (a, true)
  drain (suc fuel) a = drain_next (drain fuel) a.mailbox a

-- The loop of handleTimerTrigger, on at most `fuel` items: whether it left by `break`.
unfoldable pub move_due : ℕ → ℤ → Actor → Run (Actor × Bool)
move_due zero now a = ok (a, true)
move_due (suc fuel) now a = elim (Timer.peek a.timer) [
  | none ↦ ok (a, true)
  | some item ↦
      let moved = do
        t ← Timer.remove a.timer item.key
        move_due fuel now (record a { mailbox = a.mailbox ∷ʳ item.value; timer = t })
      in if lt_ℤ now item.when
        then ok (a, true)
        else if ltb (length a.mailbox) a.channel_cap
        then moved
        else ok (record a { timer = Timer.retry_after a.timer (seconds (pos 1)) }, false)
]

-- handleTimerTrigger
unfoldable pub handle_timer_trigger : (ℕ → ℤ) → Actor → Run Actor
handle_timer_trigger clock a0 =
    if Status.is_status ActorStatus_discrete a0.status stopping
    then ok a0
    else (let (a1, now) = read_clock clock a0 in
        do
          (a2, left) ← move_due (QuadHeap.len a1.timer.heap) now a1
          let (a3, later) = read_clock clock a2
          ok (if left then record a3 { timer = Timer.calibration later a3.timer } else a2))
