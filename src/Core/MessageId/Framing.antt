-- ===== src/Core/MessageId/Framing.antt =====
-- core/message_id.go: how the parts of a message id are framed.
use native.Mathlib.Numerals.{unary_clauses}
use mathlib.Core.List.{append_assoc}
use goactor.Prelude.{
  ℕ, zero, suc, ◌+◌, ◌*◌, ◌/◌, ◌%◌, ◌≡◌, ◌<◌, ◌≤◌, ◌^◌, refl, sym, ◌∙◌, ap, [], ◌∷◌, ◌++◌, ltb,
  arith, Str, Bool-cases, inl, inr,
}
use goactor.Prelude.Assoc.{length}
use goactor.Core.MessageId.{put_uvarint, message_id_int, message_id_string, message_id_bytes}

-- A number is read back off what follows it.
put_uvarint-cancel :
    (n x y : ℕ) (r s : Str) → put_uvarint n x ++ r ≡ put_uvarint n y ++ s → (x ≡ y) × (r ≡ s)
unfolding put_uvarint
put_uvarint-cancel zero x y r s e = (ground arith, ground arith)
put_uvarint-cancel (suc n) x y r s e = elim (Bool-cases (ltb x 128)) [
  | inl short ↦ elim (Bool-cases (ltb y 128)) [
    | inl short' ↦ (ground arith, ground arith)
    | inr long' ↦ absurd (ground arith)
  ]
  | inr long ↦ elim (Bool-cases (ltb y 128)) [
    | inl short' ↦ absurd (ground arith)
    | inr long' ↦
        let low : x % 128 ≡ y % 128 = ground arith in
        let tail : put_uvarint n (x / 128) ++ r ≡ put_uvarint n (y / 128) ++ s = ground arith in
        let (high, rest) = put_uvarint-cancel n (x / 128) (y / 128) r s tail in
        (omega (arith, high, low), rest)
  ]
]

split : (a b r s : Str) → length a ≡ length b → a ++ r ≡ b ++ s → (a ≡ b) × (r ≡ s)
split [] [] r s l e = (refl, e)
split [] (y ∷ b) r s l e = absurd (omega arith)
split (x ∷ a) [] r s l e = absurd (omega arith)
split (x ∷ a) (y ∷ b) r s l e =
    let head : x ≡ y = ground arith in
    let tail : a ++ r ≡ b ++ s = ground arith in
    let (same, rest) = split a b r s (omega arith) tail in (ground arith, rest)

message_id_string-cancel :
    (a b r s : Str) → message_id_string a ++ r ≡ message_id_string b ++ s → (a ≡ b) × (r ≡ s)
unfolding message_id_string
message_id_string-cancel a b r s e =
    let framed : put_uvarint 9 (length a) ++ (a ++ r) ≡ put_uvarint 9 (length b) ++ (b ++ s) =
      sym (append_assoc (put_uvarint 9 (length a)) a r)
      ∙ e
      ∙ append_assoc (put_uvarint 9 (length b)) b s in
    let (same, rest) = put_uvarint-cancel 9 (length a) (length b) (a ++ r) (b ++ s) framed in
    split a b r s same rest

message_id_bytes-nest :
    (p s r : Str) (seq : ℕ)
    → message_id_bytes p s r seq
      ≡ message_id_string p ++ (message_id_string s ++ (message_id_string r ++ message_id_int seq))
unfolding message_id_bytes
message_id_bytes-nest p s r seq =
    append_assoc (message_id_string p ++ message_id_string s) (message_id_string r)
      (message_id_int seq)
    ∙ append_assoc (message_id_string p) (message_id_string s)
        (message_id_string r ++ message_id_int seq)

-- The bytes that two generated message ids are the digests of are the same only if their parents,
-- senders, receivers and sequence numbers all agree.
pub message_id_bytes-cancel :
    (p p' s s' r r' : Str) (seq seq' : ℕ)
    → message_id_bytes p s r seq ≡ message_id_bytes p' s' r' seq'
    → (p ≡ p') × (s ≡ s') × (r ≡ r') × (seq ≡ seq')
unfolding message_id_int
message_id_bytes-cancel p p' s s' r r' seq seq' e =
    let nested = sym (message_id_bytes-nest p s r seq) ∙ e ∙ message_id_bytes-nest p' s' r' seq' in
    let (parent, e1) = message_id_string-cancel p p' _ _ nested in
    let (sender, e2) = message_id_string-cancel s s' _ _ e1 in
    let (receiver, e3) = message_id_string-cancel r r' _ _ e2 in
    let (same, _) = put_uvarint-cancel 9 seq seq' [] [] (ap (λ l. l ++ []) e3) in
    (parent, sender, receiver, same)

-- Bytes, each below 256.
abbrev pub IsBytes : Str → Type 0
IsBytes [] = Unit
IsBytes (b ∷ bs) = (b < 256) × IsBytes bs

fits-IsBytes :
    (n value : ℕ)
    → value < 128 * 128 ^ n
    → IsBytes (put_uvarint n value) × (length (put_uvarint n value) ≤ n + 1)
unfolding put_uvarint
fits-IsBytes zero value h = ((omega arith, tt), omega arith)
fits-IsBytes (suc n) value h =
    let power : 128 ^ suc n ≡ 128 ^ n * 128 = simp unary_clauses refl in
    let (rest, short) = fits-IsBytes n (value / 128) (omega (arith, power)) in
    elim (Bool-cases (ltb value 128)) [
      | inl few ↦ rw few ((ground arith, tt), omega arith)
      | inr many ↦ rw many ((omega arith, rest), omega arith)
    ]

-- Every number below 2 ^ 64 is written in at most ten bytes, each below 256, so the buffer of ten
-- bytes is enough.
pub message_id_int-IsBytes :
    (value : ℕ)
    → value < 2 ^ 64
    → IsBytes (message_id_int value) × (length (message_id_int value) ≤ 10)
unfolding message_id_int
message_id_int-IsBytes value h = fits-IsBytes 9 value (omega arith)
