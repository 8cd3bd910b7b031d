-- ===== src/Core/Actor/Loop.antt =====
-- core/actor.go: Start, the select loop of the actor's goroutine, and its end.
use goactor.Prelude.{
  ℕ, Bool, true, false, not, List, [], ◌∷◌, some, if◌then◌else◌, ℤ, pos, Str, Run, ok, ◌>>=◌,
}
use goactor.Prelude.Assoc.{length}
use goactor.Structs.Status
use goactor.Message.{Message}
use goactor.Core.Timer.{seconds}
use goactor.Core.Actor.{
  Actor, ActorStatus_discrete, init, starting, running, stopping, reset_idle, alive, signal_alive,
  signal_idle, signal_snapshot, finish, alive_time,
}
use goactor.Core.Actor.Handle.{handle, drain, handle_timer_trigger}

-- beforeStart
unfoldable pub before_start : Actor → Actor
before_start a = record a {
  idle_timer = some a.idle_time;
  alive_timer = some (seconds (pos alive_time));
}

-- Start, up to the first round of the loop: whether it returned no error
unfoldable pub start : Actor → Actor × Bool
start a =
    if not (Status.is_status ActorStatus_discrete a.status init)
    then (a, false)
    else (let a' = before_start (record a { status = Status.set_status a.status starting }) in
        (record a' { status = Status.set_status a'.status running }, true))

-- What a round of the loop finds ready: a message, the idle or the alive timer, a deadline, or the
-- token of Stop.
pub data Event : Type 0 where
  mailbox_ready idle_fired alive_fired timer_fired stop_ready : Event

-- How the goroutine stands after a round.
pub data Phase : Type 0 where
  looping ended : Phase

-- The deferred function, once the loop has returned or a handler has panicked.
unfoldable pub end_run : Actor → Run (Actor × Phase)
end_run a = finish a >>= λ a'. ok (a', ended)

module _ (digest : Str → Str) (clock : ℕ → ℤ) where
  -- The first message of the mailbox, if there is one.
  unfoldable pub receive : List Message → Actor → Run (Actor × Phase)
  receive [] a = ok (a, looping)
  receive (m ∷ rest) a =
      handle digest clock (reset_idle (record a { mailbox = rest })) m >>= λ (a', done).
      if done then ok (a', looping) else end_run a'

  -- The token of Stop: what the mailbox holds is handled first.
  unfoldable pub stop_round : Actor → Run (Actor × Phase)
  stop_round a = do
    let a1 = record a { stop = false; status = Status.set_status a.status stopping }
    (a2, _) ← drain digest clock (length a1.mailbox) a1
    end_run a2

  -- One round of the loop; a channel that is not ready is not selected.
  unfoldable pub round : Actor → Event → Run (Actor × Phase)
  round a mailbox_ready = receive a.mailbox a
  round a idle_fired = do a' ← signal_snapshot (reset_idle a); ok (signal_idle a', looping)
  round a alive_fired = do a' ← alive clock a; ok (signal_alive clock a', looping)
  round a timer_fired = do a' ← handle_timer_trigger clock a; ok (a', looping)
  round a stop_ready = if not a.stop then ok (a, looping) else stop_round a
