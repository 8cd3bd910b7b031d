-- ===== src/Core/MessageId/Tests.antt =====
-- core/message_id.go at small inputs.
use goactor.Prelude.{ℕ, ◌≡◌, refl, [], ◌∷◌, bytes}
use goactor.Core.MessageId.{
  put_uvarint, message_id_int, message_id_string, message_id_bytes, generate_message_id,
}
use goactor.Core.MessageId.Framing.{message_id_bytes-cancel}

program : Unit {0}
unfolding put_uvarint message_id_int message_id_string message_id_bytes generate_message_id
program = tt

-- 300 takes two bytes, and the parts are told apart by their lengths.
framing :
    (message_id_int 300 ≡ 172 ∷ 2 ∷ [])
    × (message_id_bytes (bytes "a") [] (bytes "b") 1 ≡ 1 ∷ 97 ∷ 0 ∷ 1 ∷ 98 ∷ 1 ∷ [])
unfolding program
framing = (refl, refl)

abbrev seq : ℕ
seq = 7

message_id_bytes-cancel_example :
    (bytes "a" ≡ bytes "a") × (bytes "s" ≡ bytes "s") × (bytes "r" ≡ bytes "r") × (seq ≡ seq)
message_id_bytes-cancel_example =
    message_id_bytes-cancel (bytes "a") (bytes "a") (bytes "s") (bytes "s") (bytes "r") (bytes "r")
      seq seq refl
