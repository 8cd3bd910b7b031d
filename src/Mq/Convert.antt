-- ===== src/Mq/Convert.antt =====
-- mq/convert.go: messages to records of the queue, and back.
-- The JSON codec is the parameter `json`; a call of it may fail. A payload `raw` is a byte slice or a
-- json.RawMessage, every other one is encoded.
pub mod RoundTrip
use goactor.Prelude.{
  Bool, true, false, ◌||◌, List, [], ◌∷◌, Option, none, some, ite, if◌then◌else◌, ℤ, pos, Str,
  Str_discrete, bytes,
}
use goactor.Message.{
  Message, MessageRef, MessageType, memory, timer, network, other, Header, Payload, actor_snapshot,
  actor_idle, actor_alive, actor_ready, actor_stopped, absent, any_other, raw,
}
use goactor.Message.Shard.{actor_shard_id}
use goactor.Mq.{Record}

abbrev pub shared_metadata_header : Str
shared_metadata_header = bytes "mq.message.meta"

pub record SharedMetadata : Type 0 where
  pub sender : MessageRef
  pub receiver : MessageRef
  pub trace_id : Str
  pub message_id : Str
  pub message_type : MessageType
  pub command : Str

-- encoding/json
pub record Json : Type 0 where
  pub encode_metadata : SharedMetadata → Option Str
  pub decode_metadata : Option Str → Option SharedMetadata
  pub encode_payload : Payload → Option Str

-- The errors; all but the last two are ErrInvalid.
pub data ConvertError : Type 0 where
  duplicate undecodable missing empty_field unknown_type key_mismatch empty_topic reserved :
      ConvertError
  payload_encoding metadata_encoding : ConvertError

pub data Result (A : Type 0) : Type 0 where
  done : A → Result A
  failed : ConvertError → Result A

unfoldable pub and_then : {A B : Type 0} → Result A → (A → Result B) → Result B
and_then (done a) f = f a
and_then (failed e) f = failed e

unfoldable pub is_empty : Str → Bool
is_empty [] = true
is_empty (b ∷ s) = false

unfoldable pub is_shared : Header → Bool
is_shared h = ite (Str_discrete h.key shared_metadata_header) true false

unfoldable pub decode_header : Json → Header → Result SharedMetadata
decode_header json h = elim (json.decode_metadata h.value) [
  | none ↦ failed undecodable
  | some metadata ↦ done metadata
]

unfoldable pub unless_found : {A : Type 0} → Option SharedMetadata → Result A → Result A
unless_found none r = r
unless_found (some metadata) r = failed duplicate

-- The loop of ToMMMessage over the headers.
unfoldable pub find_metadata :
    Json → Option SharedMetadata → List Header → Result (Option SharedMetadata)
find_metadata json found [] = done found
find_metadata json found (h ∷ rest) =
    let decoded =
      and_then (decode_header json h) (λ metadata. find_metadata json (some metadata) rest) in
    let skipped = find_metadata json found rest in
    if is_shared h then unless_found found decoded else skipped

unfoldable pub known_type : MessageType → Bool
known_type memory = true
known_type timer = true
known_type network = true
known_type (other t) = false

-- validateMetadata
unfoldable pub validate_metadata : SharedMetadata → Result Unit
validate_metadata metadata =
    if is_empty metadata.receiver.id || is_empty metadata.message_id || is_empty metadata.command
    then failed empty_field
    else if known_type metadata.message_type
    then done tt
    else failed unknown_type

-- The other headers, as they are.
unfoldable pub other_headers : List Header → List Header
other_headers [] = []
other_headers (h ∷ rest) =
    let others = other_headers rest in if is_shared h then others else h ∷ others

unfoldable pub require : Option SharedMetadata → Result SharedMetadata
require none = failed missing
require (some metadata) = done metadata

-- The last part of ToMMMessage.
unfoldable pub to_message : Record → SharedMetadata → Result Message
to_message r metadata =
    ite (Str_discrete r.key metadata.receiver.id)
      (done (record {
        meta = record {
          sender = metadata.sender;
          receiver = metadata.receiver;
          trace_id = metadata.trace_id;
          message_id = metadata.message_id;
          offset = r.offset;
          message_type = metadata.message_type;
        };
        command = metadata.command;
        payload = raw r.value;
        headers = other_headers r.headers;
      }))
      (failed key_mismatch)

-- ToMMMessage
unfoldable pub to_mm_message : Json → Record → Result Message
to_mm_message json r = and_then (find_metadata json none r.headers) (λ found.
    and_then (require found)
      (λ metadata. and_then (validate_metadata metadata) (λ _. to_message r metadata)))

abbrev pub metadata_of : Message → SharedMetadata
metadata_of m = record {
  sender = m.sender;
  receiver = m.receiver;
  trace_id = m.trace_id;
  message_id = m.message_id;
  message_type = m.message_type;
  command = m.command;
}

unfoldable pub encoded : ConvertError → Option Str → Result Str
encoded e none = failed e
encoded e (some value) = done value

-- The bytes of a payload that json.Marshal encodes, which are not nil.
unfoldable pub marshalled : Option Str → Result (Option Str)
marshalled none = failed payload_encoding
marshalled (some value) = done (some value)

-- The value of a record.
unfoldable pub encode_value : Json → Payload → Result (Option Str)
encode_value json (raw value) = done value
encode_value json absent = marshalled (json.encode_payload absent)
encode_value json (any_other x) = marshalled (json.encode_payload (any_other x))
encode_value json (actor_snapshot s) = marshalled (json.encode_payload (actor_snapshot s))
encode_value json actor_idle = marshalled (json.encode_payload actor_idle)
encode_value json (actor_alive t) = marshalled (json.encode_payload (actor_alive t))
encode_value json actor_ready = marshalled (json.encode_payload actor_ready)
encode_value json actor_stopped = marshalled (json.encode_payload actor_stopped)

-- The loop of FromMMMessage over the headers.
unfoldable pub copy_headers : List Header → Result (List Header)
copy_headers [] = done []
copy_headers (h ∷ rest) =
    let copied = and_then (copy_headers rest) (λ others. done (h ∷ others)) in
    if is_shared h then failed reserved else copied

-- FromMMMessage
unfoldable pub from_mm_message : Json → Message → Str → Result Record
from_mm_message json m topic =
    if is_empty topic
    then failed empty_topic
    else and_then (validate_metadata (metadata_of m)) (λ _.
      and_then (encode_value json m.payload) (λ value.
        and_then (encoded metadata_encoding (json.encode_metadata (metadata_of m))) (λ metadata.
          and_then (copy_headers m.headers) (λ others. done (record {
            place = record { topic = topic; partition = actor_shard_id m.receiver.id };
            offset = m.offset;
            key = m.receiver.id;
            value = value;
            headers = record { key = shared_metadata_header; value = some metadata } ∷ others;
            timestamp = pos 0;
          })))))
