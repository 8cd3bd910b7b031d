-- ===== src/Mq/Kafka/Batch.antt =====
-- mq/kafka.go: what Publish wrote, Poll reads.
use goactor.Prelude.{◌≡◌, refl, sym, ◌∙◌, ap, List, [], ◌∷◌, ◌++◌, map, some, arith, ℤ, pos, Str}
use goactor.Message.{Message, raw}
use goactor.Mq.{Record}
use goactor.Mq.Convert.{Json, done, failed, metadata_of, from_mm_message, to_mm_message}
use goactor.Mq.Convert.RoundTrip.{to_mm_message-from_mm_message}
use goactor.Mq.Kafka.{
  unplaced, encode_record, FetchError, Failure, fetch, sort_record, decode_records, decode_fetches,
}
use mathlib.Core.List.{append-nil}
use goactor.Mq.Convert.{Result, and_then, to_message, encoded}
use goactor.Mq.Convert.RoundTrip.{from_mm_message-Converts}

-- The message at the offset that the broker gave it.
abbrev pub placed : ℤ → Message → Message
placed o m = record m { meta = record (m.meta) { offset = o } }

pub from_mm_message-placed :
    (json : Json) (m : Message) (topic : Str) (r : Record) (o : ℤ)
    → from_mm_message json m topic ≡ done r
    → from_mm_message json (placed o m) topic ≡ done (record r { offset = o })
unfolding from_mm_message and_then encoded
from_mm_message-placed json m topic r o h =
    let c = from_mm_message-Converts json m topic r h in
    rw (from_mm_message, c.named, c.valid, c.valued, c.encodes, c.free)
      (ap (λ (x : Record). done (record x { offset = o })) (sym c.is))

-- What was published, what the broker stored, and what that says.
pub data Written (json : Json) (topic : Str)
    : List Message → List Record → List Message → Type 0 where
  nothing : Written json topic [] [] []
  written :
      {ms : List Message} {rs : List Record} {ms' : List Message} (m : Message) (r : Record)
      (offset timestamp : ℤ)
      → encode_record json m topic ≡ done r
      → Written json topic ms rs ms'
      → Written json topic
          (m ∷ ms)
          (record r { offset = offset; timestamp = timestamp } ∷ rs)
          (record (placed offset m) { payload = raw r.value } ∷ ms')

pub unplaced-done :
    (q : Result Record) (r : Record)
    → unplaced q ≡ done r
    → (r0 : Record) × (q ≡ done r0) × (r ≡ record r0 { offset = pos 0; timestamp = pos 0 })
unfolding unplaced
unplaced-done (done r0) r h = (r0, refl, ground arith)
unplaced-done (failed e) r h = absurd (ground arith)

decode_placed :
    (json : Json) (m : Message) (topic : Str) (r : Record) (offset timestamp : ℤ)
    → ((s : Str)
        → json.encode_metadata (metadata_of m) ≡ some s
        → json.decode_metadata (some s) ≡ some (metadata_of m))
    → encode_record json m topic ≡ done r
    → to_mm_message json (record r { offset = offset; timestamp = timestamp })
      ≡ done (record (placed offset m) { payload = raw r.value })
unfolding encode_record to_mm_message to_message
decode_placed json m topic r offset timestamp law h =
    let (r0, made, is) = unplaced-done (from_mm_message json m topic) r h in
    let moved = from_mm_message-placed json m topic r0 offset made in
    ap (λ (x : Record). to_mm_message json (record x { offset = offset; timestamp = timestamp })) is
    ∙ to_mm_message-from_mm_message json (placed offset m) topic (record r0 { offset = offset }) law
        moved
    ∙ ap (λ (x : Record). done (record (placed offset m) { payload = raw x.value })) (sym is)

-- The codec decodes what it encodes of the metadata of these messages.
abbrev pub AllDecodable : Json → List Message → Type 0
AllDecodable json [] = Unit
AllDecodable json (m ∷ rest) =
    ((s : Str)
      → json.encode_metadata (metadata_of m) ≡ some s
      → json.decode_metadata (some s) ≡ some (metadata_of m))
    × AllDecodable json rest

decode_records-Written :
    (json : Json) (topic : Str) {ms : List Message} {rs : List Record} {ms' : List Message}
    → Written json topic ms rs ms'
    → AllDecodable json ms
    → decode_records json rs ≡ (ms', [])
unfolding decode_records sort_record
decode_records-Written json topic nothing laws = refl
decode_records-Written json topic (written m r offset timestamp h rest) (law, laws) =
    rw
      (
        decode_placed json m topic r offset timestamp law h,
        decode_records-Written json topic rest laws,
      )
      refl

-- Where the codec decodes what it encodes of the metadata of some messages, and the records that were
-- fetched are those that Publish sends for the messages, each at any offset and time, decodeFetches
-- returns the messages in order, at these offsets and with the values of the records as payloads, and
-- no failures but the fetch errors, all of them.
pub decode_fetches-Written :
    (json : Json) (topic : Str) (ms : List Message) (rs : List Record) (ms' : List Message)
    (errors : List FetchError)
    → AllDecodable json ms
    → Written json topic ms rs ms'
    → decode_fetches json (record { errors = errors; records = rs }) ≡ (ms', map fetch errors)
unfolding decode_fetches
decode_fetches-Written json topic ms rs ms' errors law w =
    ap (λ (x : List Message × List Failure). (x.0, map fetch errors ++ x.1))
      (decode_records-Written json topic w law)
    ∙ ap (λ fs. (ms', fs)) (append-nil (map fetch errors))
