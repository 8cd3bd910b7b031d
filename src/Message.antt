-- ===== src/Message.antt =====
-- message/mm/: the messages between nodes and actors.
pub mod Shard
use goactor.Prelude.{List, Option, ℤ, Str, bytes}

-- MessageType, an `int8`: the three named values, and any other one.
pub data MessageType : Type 0 where
  memory timer network : MessageType
  other : ℤ → MessageType

pub record MessageRef : Type 0 where
  pub typ : Str
  pub id : Str

pub record Header : Type 0 where
  pub key : Str
  pub value : Option Str

pub record MessageMeta : Type 0 where
  pub sender : MessageRef
  pub receiver : MessageRef
  pub trace_id : Str
  pub message_id : Str
  pub offset : ℤ
  pub message_type : MessageType

-- The state of an actor is only moved, so it stands for itself as an opaque value.
pub record ActorSnapshot : Type 0 where
  pub actor_id : Str
  pub actor_type : Str
  pub version : ℤ
  pub offset : ℤ
  pub state : Str
  pub dedup : List Str

-- `Payload any`: nil, the payloads that the runtime tells apart, a byte slice or a json.RawMessage, and
-- any other value. A nil slice of bytes is `none`.
pub data Payload : Type 0 where
  actor_snapshot : ActorSnapshot → Payload
  actor_idle : Payload
  actor_alive : ℤ → Payload
  actor_ready : Payload
  actor_stopped : Payload
  absent : Payload
  any_other : Str → Payload
  raw : Option Str → Payload

pub record Message : Type 0 where
  pub meta : MessageMeta
  pub open meta use *
  pub command : Str
  pub payload : Payload
  pub headers : List Header

abbrev pub cmd_actor_snapshot : Str
cmd_actor_snapshot = bytes "actor/snapshot"

abbrev pub cmd_actor_idle : Str
cmd_actor_idle = bytes "actor/idle"

abbrev pub cmd_actor_alive : Str
cmd_actor_alive = bytes "actor/alive"

abbrev pub cmd_actor_ready : Str
cmd_actor_ready = bytes "actor/ready"

abbrev pub cmd_actor_stopped : Str
cmd_actor_stopped = bytes "actor/stopped"
