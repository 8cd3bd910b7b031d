-- ===== src/Core/Actor.antt =====
-- core/actor.go: an actor, its mailbox and what it tells its node.
-- A send to the node's mailbox blocks until there is room, so it is an entry of `sent`, newest first.
-- `clock` tells what the clock reads at each reading; `readings` counts them.
pub mod Context
pub mod Handle
pub mod Loop
pub mod Trigger
pub mod Fire
pub mod Frame
pub mod Latest
pub mod Rounds
pub mod Reach
pub mod Runs
pub mod Again
pub mod Returns
pub mod Ids
mod Tests
mod Alarm
use goactor.Prelude.{
  ℕ, suc, ◌+◌, Bool, true, false, ◌&&◌, ◌||◌, List, [], ◌∷◌, Option, none, some, ltb, if◌then◌else◌,
  ℤ, pos, pos_part, neg_part, lt_ℤ, le_ℤ, Str, bytes, Run, ok, ◌>>=◌,
}
use goactor.Structs.Status
use goactor.Structs.Status.{Status}
use goactor.Message.{
  Message, MessageRef, memory, Payload, actor_snapshot, actor_idle, actor_alive, actor_ready,
  actor_stopped, cmd_actor_snapshot, cmd_actor_idle, cmd_actor_alive, cmd_actor_ready,
  cmd_actor_stopped,
}
use goactor.Core.Dedup
use goactor.Core.Dedup.{Dedup}
use goactor.Core.Timer
use goactor.Core.Timer.{Timer, seconds}
use goactor.Core.Handlers.{Handlers}

pub data ActorStatus : Type 0 where
  init starting running stopping : ActorStatus

unfoldable pub ActorStatus_discrete : Discrete ActorStatus
ActorStatus_discrete = hlevel

abbrev pub actor_dedup_cap : ℤ
actor_dedup_cap = pos 512

abbrev pub actor_channel_cap : ℤ
actor_channel_cap = pos 1024

-- OffsetAdvanced
abbrev pub much_advanced : ℤ
much_advanced = pos 30

-- SnapshotTime and AliveTime, in seconds
abbrev pub snapshot_time : ℕ
snapshot_time = 30

abbrev pub alive_time : ℕ
alive_time = 5

-- time.Time{}, the first of January of the year 1, in Unix seconds
abbrev zero_time : ℤ
zero_time = ℤ.negsuc 62135596799

-- The channels of the two time.Timers are in the delays they were last set to; nil before Start.
pub record Actor : Type 0 where
  pub id : Str
  pub typ : Str
  pub mailbox : List Message
  pub channel_cap : ℕ
  pub mail_full : Bool
  pub stop : Bool
  pub node_id : Str
  pub timer : Timer
  pub cancelled : Bool
  pub state : Str
  pub version : ℤ
  pub handler : Option Handlers
  pub idle_time : ℤ
  pub idle_timer : Option ℤ
  pub alive_timer : Option ℤ
  pub dedup : Dedup
  pub offset : ℤ
  pub offset_advanced : ℤ
  pub snapshot_at : ℤ
  pub status : Status ActorStatus
  pub sent : List Message
  pub readings : ℕ

pub record ActorConfig : Type 0 where
  pub id : Str
  pub typ : Str
  pub node_id : Str
  pub channel_cap : ℤ
  pub dedup_cap : ℤ

-- actorConfigEnsure
unfoldable pub actor_config_ensure : ActorConfig → ActorConfig
actor_config_ensure config = record config {
  channel_cap = if le_ℤ config.channel_cap (pos 0) then actor_channel_cap else config.channel_cap;
  dedup_cap = if le_ℤ config.dedup_cap (pos 0) then actor_dedup_cap else config.dedup_cap;
}

-- NewActor
unfoldable pub new_actor : Str → ActorConfig → Actor
new_actor zero_state config =
    let c = actor_config_ensure config in
    record {
      id = c.id;
      typ = c.typ;
      mailbox = [];
      channel_cap = pos_part c.channel_cap;
      mail_full = false;
      stop = false;
      node_id = c.node_id;
      timer = Timer.new_timer;
      cancelled = false;
      state = zero_state;
      version = pos 0;
      handler = none;
      idle_time = pos 0;
      idle_timer = none;
      alive_timer = none;
      dedup = Dedup.new_dedup c.dedup_cap;
      offset = pos 0;
      offset_advanced = pos 0;
      snapshot_at = zero_time;
      status = Status.new_status init;
      sent = [];
      readings = 0;
    }

-- signal
unfoldable pub signal : Actor → Str → Payload → Actor
signal a cmd payload = record a {
  sent =
      record {
        meta = record {
          sender = record { typ = a.typ; id = a.id };
          receiver = record { typ = bytes "node"; id = a.node_id };
          trace_id = [];
          message_id = [];
          offset = pos 0;
          message_type = memory;
        };
        command = cmd;
        payload = payload;
        headers = [];
      }
      ∷ a.sent;
}

-- signalSnapshot
unfoldable pub signal_snapshot : Actor → Run Actor
signal_snapshot a = do
  ids ← Dedup.ids a.dedup
  ok (
      signal a cmd_actor_snapshot (
        actor_snapshot (record {
          actor_id = a.id;
          actor_type = [];
          version = a.version;
          offset = a.offset;
          state = a.state;
          dedup = ids;
        })))

-- signalIdle
unfoldable pub signal_idle : Actor → Actor
signal_idle a = signal a cmd_actor_idle actor_idle

-- signalStopped
unfoldable pub signal_stopped : Actor → Actor
signal_stopped a = signal a cmd_actor_stopped actor_stopped

-- resetIdle
unfoldable pub reset_idle : Actor → Actor
reset_idle a = record a { idle_timer = some a.idle_time }

-- One reading of the clock.
unfoldable pub read_clock : (ℕ → ℤ) → Actor → Actor × ℤ
read_clock clock a = (record a { readings = suc a.readings }, clock a.readings)

-- signalAlive
unfoldable pub signal_alive : (ℕ → ℤ) → Actor → Actor
signal_alive clock a =
    let (a', now) = read_clock clock a in signal a' cmd_actor_alive (actor_alive now)

-- `now.Sub(a.snapshotAt) > SnapshotTime`, which holds also where Sub saturates
unfoldable pub is_past_much : ℤ → ℤ → Bool
is_past_much now at = ltb (pos_part at + neg_part now + snapshot_time) (pos_part now + neg_part at)

-- Whether alive takes a snapshot.
unfoldable pub is_advanced_enough : Actor → ℤ → Bool
is_advanced_enough a now =
    let is_advanced = lt_ℤ (pos 0) a.offset_advanced in
    let is_advanced_much = lt_ℤ much_advanced a.offset_advanced in
    is_advanced_much || (is_advanced && is_past_much now a.snapshot_at)

-- alive
unfoldable pub alive : (ℕ → ℤ) → Actor → Run Actor
alive clock a0 =
    let (a, now) = read_clock clock a0 in
    (do
      a' ←
          (if is_advanced_enough a now
            then (do
              saved ← signal_snapshot a
              ok (record saved { snapshot_at = now; offset_advanced = pos 0 }))
            else ok a)
      ok (record a' { alive_timer = some (seconds (pos alive_time)) }))

-- Stop
unfoldable pub stop_actor : Actor → Actor
stop_actor a = record a { stop = true }

-- finish
unfoldable pub finish : Actor → Run Actor
finish a = do saved ← signal_snapshot (record a { cancelled = true }); ok (signal_stopped saved)
