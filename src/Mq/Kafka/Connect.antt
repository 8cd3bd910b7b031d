-- ===== src/Mq/Kafka/Connect.antt =====
-- mq/kafka.go: how the client is made, and Subscribe. Which calls the client accepts is a parameter, and
-- so are the checkpoints that its admin client finds.
use goactor.Prelude.{
  Bool, true, false, not, ◌&&◌, ◌||◌, List, [], ◌∷◌, map, Option, none, some, ite, if◌then◌else◌, ℤ,
  ℤ_discrete, pos, negsuc, lt_ℤ, Str, Str_discrete, is_blank,
}
use goactor.Prelude.Assoc.{insert}
use goactor.Mq.Convert.{is_empty}
use goactor.Mq.Kafka.{
  KafkaConfig, Kafka, Reply, ShardOffset, returned, context_error, invalid, client_error,
  missing_result, convert_error, call, add_consume_partitions, validated,
}

abbrev pub offset_beginning : ℤ
offset_beginning = negsuc 1

-- The fields of KafkaConfig that only NewKafka reads; a duration is a number of nanoseconds.
pub record ClientConfig : Type 0 where
  pub brokers : List Str
  pub timeout : ℤ

unfoldable pub any_blank : List Str → Bool
any_blank [] = false
any_blank (broker ∷ rest) = is_blank broker || any_blank rest

unfoldable pub no_brokers : List Str → Bool
no_brokers [] = true
no_brokers (broker ∷ rest) = false

-- A topic for dead letters is optional, and another one than the topic.
unfoldable pub bad_dlq_topic : KafkaConfig → Bool
bad_dlq_topic config =
    not (is_empty config.dlq_topic)
    && (is_blank config.dlq_topic || ite (Str_discrete config.dlq_topic config.topic) true false)

unfoldable pub valid_config : KafkaConfig → ClientConfig → Bool
unfolding any_blank no_brokers bad_dlq_topic
valid_config config c =
    not (
      no_brokers c.brokers
      || is_blank config.topic
      || is_blank config.group_id
      || lt_ℤ c.timeout (pos 0)
      || bad_dlq_topic config)
    && not (any_blank c.brokers)

-- NewKafka. Whether a client can be made, and whether it reaches a broker, are the last arguments.
unfoldable pub new_kafka : Bool → KafkaConfig → ClientConfig → Bool → Bool → Reply Kafka
new_kafka live config c made pinged =
    if not live
    then context_error
    else if not (valid_config config c)
    then invalid
    else if not made
    then client_error
    else if not pinged
    then client_error
    else returned (record { config = config; calls = [] })

-- What is saved for a partition.
pub record Checkpoint : Type 0 where
  pub failed : Bool
  pub at : ℤ

-- Where the consumption of a partition starts.
unfoldable pub start_of : Checkpoint → ℤ
start_of c = if lt_ℤ c.at (pos 0) then offset_beginning else c.at

-- The loop over the shards, on the offsets found so far.
unfoldable pub find_offsets : (ℤ → Option Checkpoint) → List (ℤ × ℤ) → List ℤ → Reply (List (ℤ × ℤ))
find_offsets saved found [] = returned found
find_offsets saved found (shard ∷ rest) = elim (saved shard) [
  | none ↦ invalid
  | some c ↦
      if c.failed
      then client_error
      else find_offsets saved (insert ℤ_discrete shard (start_of c) found) rest
]

abbrev pub shard_offset : ℤ × ℤ → ShardOffset
shard_offset e = record { shard_id = e.0; offset = e.1 }

unfoldable pub add_found : Bool → Kafka → Reply (List (ℤ × ℤ)) → Kafka × Reply Unit
add_found live k (returned found) =
    if not live
    then (k, context_error)
    else (call k (add_consume_partitions k.config.topic (map shard_offset found)), returned tt)
add_found live k context_error = (k, context_error)
add_found live k invalid = (k, invalid)
add_found live k client_error = (k, client_error)
add_found live k missing_result = (k, missing_result)
add_found live k (convert_error e) = (k, convert_error e)

unfoldable pub subscribe_some :
    Bool → Option (ℤ → Option Checkpoint) → Kafka → List ℤ → Kafka × Reply Unit
subscribe_some live saved k [] = (k, returned tt)
subscribe_some live none k (shard ∷ rest) = (k, client_error)
subscribe_some live (some saved) k (shard ∷ rest) =
    add_found live k (find_offsets saved [] (shard ∷ rest))

-- Subscribe. The context is looked at before the checkpoints are fetched, and again after that.
unfoldable pub subscribe :
    Bool → Bool → Option (ℤ → Option Checkpoint) → Kafka → List ℤ → Kafka × Reply Unit
subscribe live live' saved k shards =
    validated live shards k (λ k. subscribe_some live' saved k shards)
