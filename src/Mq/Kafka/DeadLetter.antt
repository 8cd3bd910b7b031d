-- ===== src/Mq/Kafka/DeadLetter.antt =====
-- mq/kafka.go:DLQ: what a dead letter says.
use goactor.Prelude.{
  ◌≡◌, refl, sym, ◌∙◌, ap, true, false, List, [], ◌∷◌, ◌++◌, some, arith, pos, lt_ℤ, Str,
  Str_discrete, Bool-cases, inl, inr,
}
use goactor.Message.{Message, Header, raw}
use goactor.Mq.{Record}
use goactor.Mq.Convert.{
  Json, Result, done, failed, metadata_of, from_mm_message, to_mm_message, is_shared, is_empty,
  copy_headers, and_then, encoded, reserved, to_message,
}
use goactor.Mq.Convert.RoundTrip.{
  from_mm_message-Converts, and_then-done, copy_headers-done, to_mm_message-from_mm_message,
}
use goactor.Mq.Kafka.Batch.{placed, from_mm_message-placed, unplaced-done}
use goactor.Mq.Kafka.{
  Kafka, Client, Reply, PublishResult, returned, context_error, invalid, client_error,
  missing_result, convert_error, call, produce_sync, produce, encode_record, dlq, dlq_headers,
  drop_result,
}

copy_headers-append :
    (l extra : List Header)
    → copy_headers l ≡ done l
    → copy_headers extra ≡ done extra
    → copy_headers (l ++ extra) ≡ done (l ++ extra)
unfolding copy_headers and_then
copy_headers-append [] extra h free = free
copy_headers-append (x ∷ rest) extra h free = elim (Bool-cases (is_shared x)) [
  | inl shared ↦
      let is : copy_headers (x ∷ rest) ≡ failed reserved = rw (copy_headers, shared) refl in
      let both : ◌≡◌ {A = Result (List Header)} (failed reserved) (done (x ∷ rest)) = sym is ∙ h in
      absurd (ground arith)
  | inr other ↦
      let is : copy_headers (x ∷ rest)
          ≡ and_then (copy_headers rest) (λ others. done (x ∷ others)) =
        rw (copy_headers, other) refl in
      let (others, copied, _) =
        and_then-done (copy_headers rest) (λ others. done (x ∷ others)) (x ∷ rest) (sym is ∙ h) in
      let (same, _, _) = copy_headers-done rest others copied in
      rw
        (
          copy_headers,
          other,
          copy_headers-append rest extra (copied ∙ ap (λ hs. done hs) same) free,
        )
        refl
]

dlq_headers-free :
    (m : Message) (reason : Str) (r : Record)
    → copy_headers (dlq_headers m reason r) ≡ done (dlq_headers m reason r)
unfolding copy_headers and_then is_shared Str_discrete
dlq_headers-free m reason r = refl

-- The message with the headers of a dead letter.
abbrev pub labelled : Message → Str → Record → Message
labelled m reason r = record m { headers = m.headers ++ dlq_headers m reason r }

from_mm_message-labelled :
    (json : Json) (m : Message) (topic reason : Str) (r r0 : Record)
    → from_mm_message json m topic ≡ done r
    → from_mm_message json (labelled m reason r0) topic
      ≡ done (record r { headers = r.headers ++ dlq_headers m reason r0 })
unfolding from_mm_message and_then encoded
from_mm_message-labelled json m topic reason r r0 h =
    let c = from_mm_message-Converts json m topic r h in
    let free =
      copy_headers-append m.headers (dlq_headers m reason r0) c.free
        (dlq_headers-free m reason r0) in
    rw (from_mm_message, c.named, c.valid, c.valued, c.encodes, free)
      (ap (λ (x : Record). done (record x { headers = x.headers ++ dlq_headers m reason r0 }))
        (sym c.is))

dropped : (k : Kafka) (reply : Reply PublishResult) → (drop_result (k, reply)).0 ≡ k
unfolding drop_result
dropped k (returned r) = refl
dropped k context_error = refl
dropped k invalid = refl
dropped k client_error = refl
dropped k missing_result = refl
dropped k (convert_error e) = refl

produced :
    (client : Client) (k : Kafka) (letter : Record)
    → (drop_result (produce client true k letter)).0 ≡ call k (produce_sync letter)
unfolding produce
produced client k letter = dropped (call k (produce_sync letter)) _

-- With a topic for dead letters, a message whose offset is not negative and that can be encoded, a
-- codec that decodes what it encodes of its metadata, and a context without an error, DLQ makes one
-- call of the client, which produces one record to that topic and commits nothing, and the record says
-- the message, with the payload's bytes and four more headers, without an offset.
pub dlq_lem :
    (json : Json) (client : Client) (k : Kafka) (m : Message) (reason : Str) (r : Record)
    → is_empty k.config.dlq_topic ≡ false
    → lt_ℤ m.offset (pos 0) ≡ false
    → ((s : Str)
        → json.encode_metadata (metadata_of m) ≡ some s
        → json.decode_metadata (some s) ≡ some (metadata_of m))
    → encode_record json m k.config.topic ≡ done r
    → (letter : Record) × ((dlq json client true k m reason).0 ≡ call k (produce_sync letter))
      × (letter.topic ≡ k.config.dlq_topic)
      × (to_mm_message json letter
          ≡ done (record (placed (pos 0) (labelled m reason r)) { payload = raw r.value }))
unfolding dlq encode_record to_mm_message to_message
dlq_lem json client k m reason r named after law h =
    let (r0, made, is) = unplaced-done (from_mm_message json m k.config.topic) r h in
    let letter : Record = record r {
      place = record (r.place) { topic = k.config.dlq_topic };
      headers = r.headers ++ dlq_headers m reason r;
    } in
    let moved =
      from_mm_message-placed json (labelled m reason r) k.config.topic
        (record r0 { headers = r0.headers ++ dlq_headers m reason r }) (pos 0)
        (from_mm_message-labelled json m k.config.topic reason r0 r made) in
    (
      letter,
      rw (dlq, named, after, h) (produced client k letter),
      refl,
      ap
            (λ (x : Record). to_mm_message json (record x {
              place = record (x.place) { topic = k.config.dlq_topic };
              headers = x.headers ++ dlq_headers m reason r;
            }))
            is
          ∙ to_mm_message-from_mm_message json (placed (pos 0) (labelled m reason r)) k.config.topic
              (record r0 { headers = r0.headers ++ dlq_headers m reason r; offset = pos 0 }) law
              moved
          ∙ ap
              (λ (x : Record).
                done (record (placed (pos 0) (labelled m reason r)) { payload = raw x.value }))
              (sym is),
    )
