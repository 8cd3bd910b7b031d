-- ===== src/Mq/Kafka.antt =====
-- mq/kafka.go: the adapter of the Kafka client, whose calls are entries of `calls`, newest first.
-- What the client answers is the parameter `Client`; `live` says that the context has no error.
pub mod Batch
pub mod DeadLetter
pub mod Connect
pub mod Subscribed
use goactor.Prelude.{
  ℕ, zero, suc, ◌+◌, ◌/◌, ◌%◌, Bool, true, false, not, ◌&&◌, ◌||◌, List, [], ◌∷◌, ◌++◌, map, Option,
  none, some, ltb, if◌then◌else◌, ℤ, pos, negsuc, lt_ℤ, Str, bytes,
}
use goactor.Message.{Message, Header}
use goactor.Mq.{Record, TopicPartition}
use goactor.Mq.Convert.{
  Json, ConvertError, Result, done, failed, is_empty, to_mm_message, from_mm_message,
}

pub record ShardOffset : Type 0 where
  pub shard_id : ℤ
  pub offset : ℤ

pub record KafkaConfig : Type 0 where
  pub topic : Str
  pub group_id : Str
  pub dlq_topic : Str

-- The calls of the client and of its admin client.
pub data Call : Type 0 where
  remove_consume_partitions resume_fetch_partitions pause_fetch_partitions : Str → List ℤ → Call
  add_consume_partitions : Str → List ShardOffset → Call
  commit_offsets : Str → Str → List ShardOffset → Call
  produce_sync : Record → Call

pub record PublishResult : Type 0 where
  pub place : TopicPartition
  pub offset : ℤ
  pub timestamp : ℤ

-- Whether the client accepted a commit, for all partitions, and the records that it reports as
-- produced, or nothing if the first error is set.
pub record Client : Type 0 where
  pub committed : List Call → Bool
  pub produced : List Call → Option (List (Option Record))

pub record Kafka : Type 0 where
  pub config : KafkaConfig
  pub calls : List Call

-- How an operation ends: with what, or with an error of the context, of the arguments, of the
-- conversion or of the client.
pub data Reply (A : Type 0) : Type 0 where
  returned : A → Reply A
  context_error invalid client_error missing_result : Reply A
  convert_error : ConvertError → Reply A

unfoldable pub call : Kafka → Call → Kafka
call k c = record k { calls = c ∷ k.calls }

unfoldable pub none_negative : List ℤ → Bool
none_negative [] = true
none_negative (shard ∷ rest) = not (lt_ℤ shard (pos 0)) && none_negative rest

-- validateShards, and what follows if it finds no error
unfoldable pub validated : Bool → List ℤ → Kafka → (Kafka → Kafka × Reply Unit) → Kafka × Reply Unit
validated live shards k rest =
    if not live then (k, context_error) else if none_negative shards then rest k else (k, invalid)

-- Unsubscribe
unfoldable pub unsubscribe : Bool → Kafka → List ℤ → Kafka × Reply Unit
unsubscribe live k shards = validated live shards k (λ k. (
  call (call k (remove_consume_partitions k.config.topic shards))
      (resume_fetch_partitions k.config.topic shards),
  returned tt,
))

-- SeekMessage
unfoldable pub seek_message : Bool → Kafka → ℤ → ℤ → Kafka × Reply Unit
seek_message live k shard offset = validated live (shard ∷ []) k (λ k.
    if lt_ℤ offset (pos 0) then (k, invalid) else (
      call (call k (remove_consume_partitions k.config.topic (shard ∷ []))) (
          add_consume_partitions k.config.topic
            (record { shard_id = shard; offset = offset } ∷ [])),
      returned tt,
    ))

-- PausePartition
unfoldable pub pause_partition : Bool → Kafka → ℤ → Kafka × Reply Unit
pause_partition live k shard =
    validated live (shard ∷ []) k
      (λ k. (call k (pause_fetch_partitions k.config.topic (shard ∷ [])), returned tt))

-- ResumePartition
unfoldable pub resume_partition : Bool → Kafka → ℤ → Kafka × Reply Unit
resume_partition live k shard =
    validated live (shard ∷ []) k
      (λ k. (call k (resume_fetch_partitions k.config.topic (shard ∷ [])), returned tt))

unfoldable pub offsets_valid : List ShardOffset → Bool
offsets_valid [] = true
offsets_valid (item ∷ rest) =
    not (lt_ℤ item.shard_id (pos 0) || lt_ℤ item.offset (pos 0)) && offsets_valid rest

-- CommitOffset, on at least one offset. Of several offsets of a shard the client keeps the last.
unfoldable pub commit_items : Client → Kafka → List ShardOffset → Kafka × Reply Unit
commit_items client k items =
    let k' = call k (commit_offsets k.config.group_id k.config.topic items) in
    if not (offsets_valid items)
    then (k, invalid)
    else (k', if client.committed k'.calls then returned tt else client_error)

-- CommitOffset
unfoldable pub commit_offset : Client → Bool → Kafka → List ShardOffset → Kafka × Reply Unit
commit_offset client live k [] = if not live then (k, context_error) else (k, returned tt)
commit_offset client live k (item ∷ rest) =
    if not live then (k, context_error) else commit_items client k (item ∷ rest)

-- A record for the client has neither an offset nor a timestamp.
unfoldable pub unplaced : Result Record → Result Record
unplaced (done r) = done (record r { offset = pos 0; timestamp = pos 0 })
unplaced (failed e) = failed e

-- encodeRecord
unfoldable pub encode_record : Json → Message → Str → Result Record
encode_record json m topic = unplaced (from_mm_message json m topic)

unfoldable pub publish_result : List (Option Record) → Reply PublishResult
publish_result [] = missing_result
publish_result (none ∷ rest) = missing_result
publish_result (some r ∷ []) =
    returned (record { place = r.place; offset = r.offset; timestamp = r.timestamp })
publish_result (some r ∷ s ∷ rest) = missing_result

-- produce
unfoldable pub produce : Client → Bool → Kafka → Record → Kafka × Reply PublishResult
produce client live k r =
    let k' = call k (produce_sync r) in
    if not live then (k, context_error) else (
      k',
      elim (client.produced k'.calls) [
        | none ↦ client_error
        | some records ↦ publish_result records
      ],
    )

-- Publish
unfoldable pub publish : Json → Client → Bool → Kafka → Message → Kafka × Reply PublishResult
publish json client live k m = elim (encode_record json m k.config.topic) [
  | failed e ↦ (k, convert_error e)
  | done r ↦ produce client live k r
]

-- `strconv.FormatInt`, on at most `n` digits; an int64 has 19.
unfoldable pub digits : ℕ → ℕ → Str
digits zero value = []
digits (suc n) value =
    let high = digits n (value / 10) in
    if ltb value 10 then (48 + value) ∷ [] else high ++ (48 + value % 10) ∷ []

unfoldable pub format_int : ℤ → Str
format_int (pos n) = digits 19 n
format_int (negsuc n) = 45 ∷ digits 19 (suc n)

abbrev pub dlq_headers : Message → Str → Record → List Header
dlq_headers m reason r =
    record { key = bytes "mq.source.topic"; value = some r.topic }
    ∷ record { key = bytes "mq.source.partition"; value = some (format_int r.partition) }
    ∷ record { key = bytes "mq.source.offset"; value = some (format_int m.offset) }
    ∷ record { key = bytes "mq.reason"; value = some reason }
    ∷ []

unfoldable pub drop_result : Kafka × Reply PublishResult → Kafka × Reply Unit
drop_result (k, returned r) = (k, returned tt)
drop_result (k, context_error) = (k, context_error)
drop_result (k, invalid) = (k, invalid)
drop_result (k, client_error) = (k, client_error)
drop_result (k, missing_result) = (k, missing_result)
drop_result (k, convert_error e) = (k, convert_error e)

-- DLQ
unfoldable pub dlq : Json → Client → Bool → Kafka → Message → Str → Kafka × Reply Unit
dlq json client live k m reason =
    if is_empty k.config.dlq_topic || lt_ℤ m.offset (pos 0)
    then (k, invalid)
    else elim (encode_record json m k.config.topic) [
      | failed e ↦ (k, convert_error e)
      | done r ↦ drop_result (
          produce client live k (record r {
            place = record (r.place) { topic = k.config.dlq_topic };
            headers = r.headers ++ dlq_headers m reason r;
          }))
    ]

-- What PollFetches returns: the errors of partitions, and the records.
pub record FetchError : Type 0 where
  pub place : TopicPartition
  pub err : Str

pub record Fetches : Type 0 where
  pub errors : List FetchError
  pub records : List Record

pub data Failure : Type 0 where
  fetch : FetchError → Failure
  decode : Record → ConvertError → Failure

unfoldable pub sort_record :
    Record → Result Message → List Message × List Failure → List Message × List Failure
sort_record r (done m) (messages, failures) = (m ∷ messages, failures)
sort_record r (failed e) (messages, failures) = (messages, decode r e ∷ failures)

unfoldable pub decode_records : Json → List Record → List Message × List Failure
decode_records json [] = ([], [])
decode_records json (r ∷ rest) = sort_record r (to_mm_message json r) (decode_records json rest)

-- decodeFetches
unfoldable pub decode_fetches : Json → Fetches → List Message × List Failure
decode_fetches json fetches =
    let (messages, failures) = decode_records json fetches.records in
    (messages, map fetch fetches.errors ++ failures)
