-- ===== src/Mq/Tests.antt =====
-- mq/convert.go: a message goes to the queue and comes back.
use goactor.Prelude.Assoc.{insert}
use goactor.Prelude.{
  true, false, ◌&&◌, ite, Option, ℤ, ℤ_discrete, negsuc, ◌≡◌, refl, [], ◌∷◌, none, some, pos,
  Str_discrete, bytes,
}
use goactor.Message.{Message, network, raw}
use goactor.Message.Shard.{actor_shard_id}
use goactor.Mq.{Record}
use goactor.Mq.Convert.{
  Json, done, failed, empty_field, shared_metadata_header, metadata_of, and_then, is_empty,
  is_shared, decode_header, unless_found, find_metadata, known_type, validate_metadata,
  other_headers, require, to_message, to_mm_message, encoded, encode_value, copy_headers,
  from_mm_message,
}
use goactor.Mq.Kafka.Connect.{
  Checkpoint, start_of, find_offsets, add_found, subscribe_some, subscribe, offset_beginning,
}
use goactor.Mq.Kafka.Subscribed.{Subscribed, subscribe-Subscribed}
use goactor.Mq.Kafka.DeadLetter.{labelled, dlq_lem}
use goactor.Mq.Kafka.{
  Kafka, Client, none_negative, validated, add_consume_partitions, returned, call, produce_sync,
  dlq, encode_record, unplaced, FetchError, fetch, decode_fetches,
}
use goactor.Mq.Kafka.Batch.{Written, nothing, written, placed, decode_fetches-Written}
use goactor.Mq.Convert.RoundTrip.{
  again_of, to_mm_message-from_mm_message, from_mm_message-to_mm_message,
}

program : Unit {0}
unfolding and_then is_empty is_shared decode_header unless_found find_metadata known_type
    validate_metadata other_headers require to_message to_mm_message encoded encode_value
    copy_headers from_mm_message Str_discrete unplaced encode_record
program = tt

abbrev order : Message
order = record {
  meta = record {
    sender = record { typ = bytes "shop"; id = bytes "s1" };
    receiver = record { typ = bytes "cart"; id = bytes "c1" };
    trace_id = [];
    message_id = bytes "m1";
    offset = pos 4;
    message_type = network;
  };
  command = bytes "add";
  payload = raw (some (bytes "apple"));
  headers = record { key = bytes "lang"; value = some (bytes "en") } ∷ [];
}

-- A codec that knows one value.
abbrev json : Json
json = record {
  encode_metadata = λ metadata. some (bytes "{}");
  decode_metadata = λ s. some (metadata_of order);
  encode_payload = λ payload. none;
}

abbrev stored : Record
stored = record {
  place = record { topic = bytes "t"; partition = actor_shard_id (bytes "c1") };
  offset = pos 4;
  key = bytes "c1";
  value = some (bytes "apple");
  headers =
      record { key = shared_metadata_header; value = some (bytes "{}") }
      ∷ record { key = bytes "lang"; value = some (bytes "en") }
      ∷ [];
  timestamp = pos 0;
}

-- A message without an id is refused.
refuses :
    from_mm_message json
      (record order { meta = record (order.meta) { message_id = [] } })
      (bytes "t")
    ≡ failed empty_field
unfolding program
refuses = refl

to_mm_message-from_mm_message_example : to_mm_message json stored ≡ done order
unfolding program
to_mm_message-from_mm_message_example =
    to_mm_message-from_mm_message json order (bytes "t") stored (λ s e. refl) refl

from_mm_message-to_mm_message_example :
    from_mm_message json order (bytes "u")
    ≡ done (again_of stored (bytes "u") (bytes "{}") (bytes "c1"))
unfolding program
from_mm_message-to_mm_message_example =
    from_mm_message-to_mm_message json order (bytes "u") (bytes "{}") stored refl refl refl

abbrev failure : FetchError
failure = record { place = record { topic = bytes "t"; partition = pos 3 }; err = bytes "gone" }

-- What the broker stores of the order.
abbrev at_9 : Record
at_9 = record stored { offset = pos 9; timestamp = pos 77 }

one-Written : Written json (bytes "t") (order ∷ []) (at_9 ∷ []) (placed (pos 9) order ∷ [])
unfolding program
one-Written = written order (record stored { offset = pos 0 }) (pos 9) (pos 77) refl nothing

decode_fetches-Written_example :
    decode_fetches json (record { errors = failure ∷ []; records = at_9 ∷ [] })
    ≡ (placed (pos 9) order ∷ [], fetch failure ∷ [])
decode_fetches-Written_example =
    decode_fetches-Written json (bytes "t") (order ∷ []) (at_9 ∷ []) (placed (pos 9) order ∷ [])
      (failure ∷ []) ((λ s e. refl), tt) one-Written

abbrev kafka : Kafka
kafka = record {
  config = record { topic = bytes "t"; group_id = bytes "g"; dlq_topic = bytes "dead" };
  calls = [];
}

abbrev client : Client
client = record { committed = λ calls. true; produced = λ calls. some (some stored ∷ []) }

abbrev sent : Record
sent = record stored { offset = pos 0 }

order_sent : encode_record json order (bytes "t") ≡ done sent
unfolding program
order_sent = refl

dlq_lem_example :
    (letter : Record) × ((dlq json client true kafka order (bytes "late")).0
      ≡ call kafka (produce_sync letter))
    × (letter.topic ≡ bytes "dead")
    × (to_mm_message json letter
        ≡ done (record (placed (pos 0) (labelled order (bytes "late") sent)) {
          payload = raw (some (bytes "apple"));
        }))
unfolding is_empty
dlq_lem_example =
    dlq_lem json client kafka order (bytes "late") sent refl refl (λ s e. refl) order_sent

-- Nothing was saved for partition 5.
abbrev checkpoints : ℤ → Option Checkpoint
checkpoints shard =
    some (record { failed = false; at = ite (ℤ_discrete shard (pos 5)) (negsuc 0) (pos 8) })

subscribes : subscribe true true (some checkpoints) kafka (pos 3 ∷ pos 5 ∷ []) ≡ (
  call kafka (
      add_consume_partitions (bytes "t") (
        record { shard_id = pos 3; offset = pos 8 }
        ∷ record { shard_id = pos 5; offset = offset_beginning }
        ∷ [])),
  returned tt,
)
unfolding program subscribe subscribe_some add_found find_offsets start_of validated none_negative
    ℤ_discrete insert
subscribes = refl

subscribe-Subscribed_example :
    Subscribed
      (true && none_negative (pos 3 ∷ pos 5 ∷ []))
      true
      (some checkpoints)
      kafka
      (pos 3 ∷ pos 5 ∷ [])
      (subscribe true true (some checkpoints) kafka (pos 3 ∷ pos 5 ∷ []))
subscribe-Subscribed_example =
    subscribe-Subscribed true true (some checkpoints) kafka (pos 3 ∷ pos 5 ∷ [])
