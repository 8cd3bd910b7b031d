-- ===== src/Mq/Convert/RoundTrip.antt =====
-- mq/convert.go: what FromMMMessage accepts, and that ToMMMessage brings it back.
use goactor.Prelude.{
  ◌≡◌, refl, sym, ◌∙◌, ap, true, false, List, [], ◌∷◌, Option, none, some, arith, ite, Str,
  Str_discrete, Bool-cases, inl, inr,
}
use goactor.Message.{Message, Header, raw}
use goactor.Message.Shard.{actor_shard_id}
use goactor.Mq.{Record}
use goactor.Prelude.{pos}
use goactor.Mq.Convert.{
  ConvertError, key_mismatch, reserved, empty_topic, Json, SharedMetadata, Result, done, failed,
  and_then, is_empty, is_shared, shared_metadata_header, find_metadata, decode_header, unless_found,
  validate_metadata, other_headers, require, to_message, to_mm_message, metadata_of, encoded,
  encode_value, copy_headers, from_mm_message, metadata_encoding,
}

pub and_then-done :
    {A B : Type 0} (r : Result A) (f : A → Result B) (b : B)
    → and_then r f ≡ done b
    → (a : A) × (r ≡ done a) × (f a ≡ done b)
unfolding and_then
and_then-done (done a) f b h = (a, refl, h)
and_then-done (failed e) f b h = absurd (ground arith)

done-inj : {A : Type 0} (a b : A) → done a ≡ done b → b ≡ a
done-inj a b h = ground arith

-- Copied headers are the headers, and none of them is the reserved one.
pub copy_headers-done :
    (l l' : List Header)
    → copy_headers l ≡ done l'
    → (l' ≡ l)
      × (other_headers l ≡ l)
      × ((json : Json) (found : Option SharedMetadata) → find_metadata json found l ≡ done found)
unfolding copy_headers other_headers find_metadata and_then
copy_headers-done [] l' h = (ground arith, refl, λ json found. refl)
copy_headers-done (x ∷ rest) l' h = elim (Bool-cases (is_shared x)) [
  | inl shared ↦
      let is : copy_headers (x ∷ rest) ≡ failed reserved = rw (copy_headers, shared) refl in
      let both : ◌≡◌ {A = Result (List Header)} (failed reserved) (done l') = sym is ∙ h in
      absurd (ground arith)
  | inr free ↦
      let is : copy_headers (x ∷ rest)
          ≡ and_then (copy_headers rest) (λ others. done (x ∷ others)) =
        rw (copy_headers, free) refl in
      let (others, copied, ends) =
        and_then-done (copy_headers rest) (λ others. done (x ∷ others)) l' (sym is ∙ h) in
      let (same, kept, skips) = copy_headers-done rest others copied in
      let whole : l' ≡ x ∷ others = ground arith in
      (
        whole ∙ ap (λ hs. x ∷ hs) same,
        rw (other_headers, free) (ap (λ hs. x ∷ hs) kept),
        λ json found. rw (find_metadata, free) (skips json found),
      )
]

-- What FromMMMessage makes of a message, with the value and the metadata that it encoded.
pub record Converts (json : Json) (m : Message) (topic : Str) (r : Record) : Type 0 where
  pub value : Option Str
  pub metadata : Str
  pub named : is_empty topic ≡ false
  pub valid : validate_metadata (metadata_of m) ≡ done tt
  pub valued : encode_value json m.payload ≡ done value
  pub encodes : json.encode_metadata (metadata_of m) ≡ some metadata
  pub free : copy_headers m.headers ≡ done m.headers
  pub is : r ≡ record {
    place = record { topic = topic; partition = actor_shard_id m.receiver.id };
    offset = m.offset;
    key = m.receiver.id;
    value = value;
    headers = record { key = shared_metadata_header; value = some metadata } ∷ m.headers;
    timestamp = pos 0;
  }

encoded-done : (e : ConvertError) (o : Option Str) (s : Str) → encoded e o ≡ done s → o ≡ some s
unfolding encoded
encoded-done e none s h = absurd (ground arith)
encoded-done e (some x) s h = ground arith

pub from_mm_message-Converts :
    (json : Json) (m : Message) (topic : Str) (r : Record)
    → from_mm_message json m topic ≡ done r
    → Converts json m topic r
unfolding from_mm_message
from_mm_message-Converts json m topic r h = elim (Bool-cases (is_empty topic)) [
  | inl nameless ↦
      let is : from_mm_message json m topic ≡ failed empty_topic =
        rw (from_mm_message, nameless) refl in
      let both : ◌≡◌ {A = Result Record} (failed empty_topic) (done r) = sym is ∙ h in
      absurd (ground arith)
  | inr named ↦
      let record_of : Option Str → Str → List Header → Record = λ value metadata others. record {
        place = record { topic = topic; partition = actor_shard_id m.receiver.id };
        offset = m.offset;
        key = m.receiver.id;
        value = value;
        headers = record { key = shared_metadata_header; value = some metadata } ∷ others;
        timestamp = pos 0;
      } in
      let with_metadata : Option Str → Str → Result Record = λ value metadata.
        and_then (copy_headers m.headers) (λ others. done (record_of value metadata others)) in
      let with_value : Option Str → Result Record = λ value.
        and_then (encoded metadata_encoding (json.encode_metadata (metadata_of m)))
          (λ metadata. with_metadata value metadata) in
      let checked : Unit → Result Record = λ _. and_then (encode_value json m.payload) with_value in
      let is : from_mm_message json m topic ≡ and_then (validate_metadata (metadata_of m)) checked =
        rw (from_mm_message, named) refl in
      let (_, valid, h1) =
        and_then-done (validate_metadata (metadata_of m)) checked r (sym is ∙ h) in
      let (value, valued, h2) = and_then-done (encode_value json m.payload) with_value r h1 in
      let (metadata, encodes, h3) =
        and_then-done (encoded metadata_encoding (json.encode_metadata (metadata_of m)))
          (λ metadata. with_metadata value metadata) r h2 in
      let (others, copied, h4) =
        and_then-done (copy_headers m.headers) (λ others. done (record_of value metadata others)) r
          h3 in
      let (same, _, _) = copy_headers-done m.headers others copied in
      record {
        value = value;
        metadata = metadata;
        named = named;
        valid = valid;
        valued = valued;
        encodes =
            encoded-done metadata_encoding (json.encode_metadata (metadata_of m)) metadata encodes;
        free = copied ∙ ap (λ hs. done hs) same;
        is =
            done-inj (record_of value metadata others) r h4
            ∙ ap (λ hs. record_of value metadata hs) same;
      }
]

shared_header :
    (metadata : Str)
    → is_shared (record { key = shared_metadata_header; value = some metadata }) ≡ true
unfolding is_shared Str_discrete
shared_header metadata = refl

key_matches : {A : Type 0} (key : Str) (a b : A) → ite (Str_discrete key key) a b ≡ a
key_matches key a b = elim (Str_discrete key key) [ yes p ↦ ground arith | no p ↦ absurd (p refl) ]

-- Where FromMMMessage turns a message into a record, and the codec decodes what it encodes of the
-- message's metadata, ToMMMessage turns the record back into the message, with the value of the record
-- as its payload.
pub to_mm_message-from_mm_message :
    (json : Json) (m : Message) (topic : Str) (r : Record)
    → ((s : Str)
        → json.encode_metadata (metadata_of m) ≡ some s
        → json.decode_metadata (some s) ≡ some (metadata_of m))
    → from_mm_message json m topic ≡ done r
    → to_mm_message json r ≡ done (record m { payload = raw r.value })
unfolding to_mm_message to_message require and_then unless_found find_metadata decode_header
    other_headers
to_mm_message-from_mm_message json m topic r law h =
    let c = from_mm_message-Converts json m topic r h in
    let (_, kept, skips) = copy_headers-done m.headers m.headers c.free in
    let first : Header = record { key = shared_metadata_header; value = some c.metadata } in
    let found : find_metadata json none (first ∷ m.headers) ≡ done (some (metadata_of m)) =
      rw (find_metadata, shared_header c.metadata, decode_header, law c.metadata c.encodes)
        (skips json (some (metadata_of m))) in
    let others : other_headers (first ∷ m.headers) ≡ m.headers =
      rw (other_headers, shared_header c.metadata) kept in
    rw (c.is, to_mm_message, found, c.valid, to_message, others)
      (key_matches m.receiver.id (done (record m { payload = raw c.value })) (failed key_mismatch))

-- What ToMMMessage makes of a record whose metadata it has found.
abbrev message_of : Record → SharedMetadata → Message
message_of r metadata = record {
  meta = record {
    sender = metadata.sender;
    receiver = metadata.receiver;
    trace_id = metadata.trace_id;
    message_id = metadata.message_id;
    offset = r.offset;
    message_type = metadata.message_type;
  };
  command = metadata.command;
  payload = raw r.value;
  headers = other_headers r.headers;
}

to_message-done :
    (r : Record) (metadata : SharedMetadata) (m : Message)
    → to_message r metadata ≡ done m
    → (m ≡ message_of r metadata) × (r.key ≡ metadata.receiver.id)
unfolding to_message
to_message-done r metadata m h = elim (Str_discrete r.key metadata.receiver.id) [
  | yes p ↦ (ground arith, p)
  | no p ↦ absurd (ground arith)
]

copy_headers-other_headers :
    (l : List Header) → copy_headers (other_headers l) ≡ done (other_headers l)
unfolding copy_headers other_headers and_then
copy_headers-other_headers [] = refl
copy_headers-other_headers (x ∷ rest) = elim (Bool-cases (is_shared x)) [
  | inl shared ↦ rw (other_headers, shared) (copy_headers-other_headers rest)
  | inr free ↦
      rw (other_headers, free, copy_headers, free, copy_headers-other_headers rest, and_then) refl
]

-- A record that was consumed, for another topic.
abbrev pub again_of : Record → Str → Str → Str → Record
again_of r topic metadata key = record {
  place = record { topic = topic; partition = actor_shard_id key };
  offset = r.offset;
  key = key;
  value = r.value;
  headers =
      record { key = shared_metadata_header; value = some metadata } ∷ other_headers r.headers;
  timestamp = pos 0;
}

from_message_of :
    (json : Json) (r : Record) (md : SharedMetadata) (topic metadata : Str)
    → validate_metadata md ≡ done tt
    → json.encode_metadata md ≡ some metadata
    → is_empty topic ≡ false
    → from_mm_message json (message_of r md) topic ≡ done (again_of r topic metadata md.receiver.id)
unfolding from_mm_message and_then encode_value encoded
from_message_of json r md topic metadata valid encodes named =
    rw (from_mm_message, named, valid, encodes, copy_headers-other_headers r.headers) refl

-- Where ToMMMessage turns a record into a message, the codec encodes the message's metadata, and the
-- topic is not empty, FromMMMessage turns the message into a record for the topic with the same key,
-- value, offset and other headers, for the shard of the key.
pub from_mm_message-to_mm_message :
    (json : Json) (m : Message) (topic metadata : Str) (r : Record)
    → to_mm_message json r ≡ done m
    → json.encode_metadata (metadata_of m) ≡ some metadata
    → is_empty topic ≡ false
    → from_mm_message json m topic ≡ done (again_of r topic metadata r.key)
unfolding to_mm_message
from_mm_message-to_mm_message json m topic metadata r h encodes named =
    let valid_then : SharedMetadata → Result Message =
      λ md. and_then (validate_metadata md) (λ _. to_message r md) in
    let (found, _, h1) =
      and_then-done (find_metadata json none r.headers)
        (λ found. and_then (require found) valid_then) m h in
    let (md, _, h2) = and_then-done (require found) valid_then m h1 in
    let (_, valid, h3) = and_then-done (validate_metadata md) (λ _. to_message r md) m h2 in
    let (is, keyed) = to_message-done r md m h3 in
    ap (λ (x : Message). from_mm_message json x topic) is
    ∙ from_message_of json r md topic metadata valid
        (ap json.encode_metadata (sym (ap metadata_of is)) ∙ encodes) named
    ∙ ap (λ key. done (again_of r topic metadata key)) (sym keyed)
