-- ===== src/Core/Actor/Ids.antt =====
-- core/context.go: the ids of the messages that one Context makes.
use mathlib.Core.List.{lookup}
use goactor.Prelude.{
  ℕ, suc, ◌+◌, ◌%◌, ◌^◌, ◌<◌, ◌≡◌, ◌≢◌, refl, ap, true, false, List, [], ◌∷◌, arith, ite, Str,
  Str_discrete,
}
use goactor.Prelude.Assoc.{length, contains, lookup-insert}
use goactor.Message.{Message}
use goactor.Core.Dedup.Refine.{seen, IsDistinct}
use goactor.Core.MessageId.{generate_message_id, message_id_bytes}
use goactor.Core.MessageId.Framing.{message_id_bytes-cancel}
use goactor.Core.Actor.Context.{
  Context, new_context, sequence_of, next_sequence, context_message_id,
}

module _ (digest : Str → Str) (sender_id : Str) where
  -- The ids of the messages that a Context makes for these receivers, in order.
  abbrev pub ids_of : Context → List Str → List Str
  ids_of c [] = []
  ids_of c (receiver_id ∷ rest) =
      let (c', id) = context_message_id digest c sender_id receiver_id in id ∷ ids_of c' rest

sequence_of-next :
    (c : Context) (r k : Str)
    → sequence_of (next_sequence c r).0 k
      ≡ ite (Str_discrete k r) ((sequence_of c r + 1) % 2 ^ 64) (sequence_of c k)
unfolding sequence_of next_sequence
sequence_of-next c r k =
    ground (arith, lookup-insert Str_discrete r k ((sequence_of c r + 1) % 2 ^ 64) c.sequences)

-- No counter wraps in `n` further messages.
abbrev pub HasRoom : ℕ → Context → Type 0
HasRoom n c = (k : Str) → sequence_of c k + n < 2 ^ 64

next-HasRoom : (n : ℕ) (c : Context) (r : Str) → HasRoom (suc n) c → HasRoom n (next_sequence c r).0
next-HasRoom n c r h k = ground (arith, sequence_of-next c r k, h r, h k)

-- Counters do not go back.
next_le :
    (n : ℕ) (c : Context) (r k : Str) (s : ℕ)
    → HasRoom (suc n) c
    → s < sequence_of c k
    → s < sequence_of (next_sequence c r).0 k
next_le n c r k s h lt = elim (Str_discrete k r) [
  | yes same ↦ ground (arith, sequence_of-next c r k, h r, ap (sequence_of c) same)
  | no other ↦ ground (arith, sequence_of-next c r k)
]

next_lt :
    (n : ℕ) (c : Context) (r : Str)
    → HasRoom (suc n) c
    → sequence_of c r < sequence_of (next_sequence c r).0 r
next_lt n c r h = elim (Str_discrete r r) [
  | yes same ↦ ground (arith, sequence_of-next c r r, h r)
  | no other ↦ absurd (other refl)
]

seen-cons : (x y : Str) (q : List Str) → x ≢ y → seen q y ≡ false → seen (x ∷ q) y ≡ false
unfolding contains
seen-cons x y q apart h = ground arith

module _ (sender_id : Str) where
  -- The bytes that are hashed for these ids, in order.
  abbrev pub hashed_for : Context → List Str → List Str
  hashed_for c [] = []
  hashed_for c (receiver_id ∷ rest) =
      message_id_bytes c.message.message_id sender_id receiver_id (sequence_of c receiver_id)
      ∷ hashed_for (next_sequence c receiver_id).0 rest

-- No two different ones of these strings have the same digest.
abbrev pub NoCollision : (Str → Str) → List Str → Type 0
NoCollision digest hashed =
    (x y : Str) → seen hashed x ≡ true → seen hashed y ≡ true → digest x ≡ digest y → x ≡ y

seen-here : (x : Str) (q : List Str) → seen (x ∷ q) x ≡ true
unfolding contains
seen-here x q = elim (Str_discrete x x) [ yes same ↦ ground arith | no other ↦ absurd (other refl) ]

seen-later : (x y : Str) (q : List Str) → seen q y ≡ true → seen (x ∷ q) y ≡ true
unfolding contains
seen-later x y q h = ground arith

module _ (digest : Str → Str) (sender_id : Str) where
  abbrev bytes_of : Context → Str → ℕ → Str
  bytes_of c r s = message_id_bytes c.message.message_id sender_id r s

  abbrev id_of : Context → Str → ℕ → Str
  id_of c r s = generate_message_id digest c.message.message_id sender_id r s

  -- An id of a smaller number is not made any more.
  fresh :
      (rest : List Str) (c : Context) (r : Str) (s : ℕ)
      → HasRoom (length rest) c
      → s < sequence_of c r
      → ((x : Str)
          → seen (hashed_for sender_id c rest) x ≡ true
          → digest x ≡ digest (bytes_of c r s)
          → x ≡ bytes_of c r s)
      → seen (ids_of digest sender_id c rest) (id_of c r s) ≡ false
  unfolding contains context_message_id next_sequence generate_message_id
  fresh [] c r s h lt apart = refl
  fresh (k ∷ rest) c r s h lt apart =
      let later = hashed_for sender_id (next_sequence c k).0 rest in
      let other : id_of c k (sequence_of c k) ≢ id_of c r s = λ same.
        let (_, _, receivers, numbers) =
          message_id_bytes-cancel c.message.message_id c.message.message_id sender_id sender_id k r
            (sequence_of c k) s
            (apart (bytes_of c k (sequence_of c k))
              (seen-here (bytes_of c k (sequence_of c k)) later) same) in
        omega (arith, numbers, ap (sequence_of c) receivers, lt) in
      seen-cons (id_of c k (sequence_of c k)) (id_of c r s)
        (ids_of digest sender_id (next_sequence c k).0 rest) other
        (fresh rest (next_sequence c k).0 r s (next-HasRoom (length rest) c k h)
          (next_le (length rest) c k r s h lt)
          (λ x m. apart x (seen-later (bytes_of c k (sequence_of c k)) x later m)))

  made-IsDistinct :
      (rest : List Str) (c : Context)
      → HasRoom (length rest) c
      → NoCollision digest (hashed_for sender_id c rest)
      → IsDistinct (ids_of digest sender_id c rest)
  unfolding context_message_id next_sequence sequence_of
  made-IsDistinct [] c h free = tt
  made-IsDistinct (k ∷ rest) c h free =
      let first = bytes_of c k (sequence_of c k) in
      let later = hashed_for sender_id (next_sequence c k).0 rest in
      (
        fresh rest (next_sequence c k).0 k (sequence_of c k) (next-HasRoom (length rest) c k h)
            (next_lt (length rest) c k h)
            (λ x m. free x first (seen-later first x later m) (seen-here first later)),
        made-IsDistinct rest (next_sequence c k).0 (next-HasRoom (length rest) c k h)
            (λ x y m n. free x y (seen-later first x later m) (seen-later first y later n)),
      )

  -- If no two different ones of the byte strings that are hashed for them have the same digest, the ids of
  -- fewer than 2 ^ 64 messages that one new Context makes, for any receivers, are pairwise different.
  pub ids_of-IsDistinct :
      (m : Message) (receivers : List Str)
      → length receivers < 2 ^ 64
      → NoCollision digest (hashed_for sender_id (new_context m) receivers)
      → IsDistinct (ids_of digest sender_id (new_context m) receivers)
  unfolding new_context sequence_of lookup
  ids_of-IsDistinct m receivers h free =
      made-IsDistinct receivers (new_context m) (λ k. omega (arith, h)) free
