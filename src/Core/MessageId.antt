-- ===== src/Core/MessageId.antt =====
-- core/message_id.go: the bytes that a generated message id is the digest of.
-- SHA-256 and base64 are the parameter `digest`; a uint64 is below 2 ^ 64.
pub mod Framing
mod Tests
use goactor.Prelude.{
  ℕ, zero, suc, ◌+◌, ◌/◌, ◌%◌, ◌≡◌, refl, List, [], ◌∷◌, ◌++◌, ltb, if◌then◌else◌, Str,
}
use goactor.Prelude.Assoc.{length}

-- `binary.PutUvarint`: seven bits a byte, with the top bit set on all but the last, in `n` further
-- bytes at most. A uint64 fits ten bytes.
unfoldable pub put_uvarint : ℕ → ℕ → Str
put_uvarint zero value = value ∷ []
put_uvarint (suc n) value =
    let rest = put_uvarint n (value / 128) in
    if ltb value 128 then value ∷ [] else (value % 128 + 128) ∷ rest

-- writeMessageIDInt: the bytes it writes to the hash
unfoldable pub message_id_int : ℕ → Str
message_id_int value = put_uvarint 9 value

-- writeMessageIDString
unfoldable pub message_id_string : Str → Str
message_id_string value = put_uvarint 9 (length value) ++ value

-- The bytes that GenerateMessageID hashes.
unfoldable pub message_id_bytes : Str → Str → Str → ℕ → Str
message_id_bytes parent_id sender_id receiver_id seq =
    message_id_string parent_id
    ++ message_id_string sender_id
    ++ message_id_string receiver_id
    ++ message_id_int seq

-- GenerateMessageID
unfoldable pub generate_message_id : (Str → Str) → Str → Str → Str → ℕ → Str
generate_message_id digest parent_id sender_id receiver_id seq =
    digest (message_id_bytes parent_id sender_id receiver_id seq)
