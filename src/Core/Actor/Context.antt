-- ===== src/Core/Actor/Context.antt =====
-- core/context.go: what a handler is given, and Actor.AddTimer of core/actor.go.
-- `digest` is SHA-256 and base64. A Context and its actor are passed along as a pair.
use mathlib.Core.List.{lookup}
use goactor.Prelude.{
  ℕ, ◌+◌, ◌%◌, ◌^◌, Bool, Option, List, [], none, some, ℤ, pos, negsuc, ◌-◌, Str, Str_discrete, Run,
  ok, ◌>>=◌,
}
use goactor.Prelude.Assoc.{insert}
use goactor.Message.{Message, MessageRef, memory, timer, Payload, absent, raw}
use goactor.Core.MessageId.{generate_message_id}
use goactor.Core.Timer
use goactor.Core.Handlers.{Script, returns, panics, set_state, new_timer, new_message}
use goactor.Core.Actor.{Actor, read_clock}

pub record Context : Type 0 where
  pub message : Message
  pub sequences : List (Str × ℕ)

-- NewContext
unfoldable pub new_context : Message → Context
new_context message = record { message = message; sequences = [] }

-- `uint64(n)`
unfoldable pub to_uint64 : ℤ → ℕ
to_uint64 (pos n) = n % 2 ^ 64
to_uint64 (negsuc n) = 2 ^ 64 - 1 - n % 2 ^ 64

abbrev pub own_ref : Actor → MessageRef
own_ref a = record { typ = a.typ; id = a.id }

-- The payload of a context without a message is nil.
unfoldable pub new_root_context : (Str → Str) → Actor → Str → Context
new_root_context digest a cause =
    let trace_id = generate_message_id digest cause [] a.id 0 in
    new_context (record {
      meta = record {
        sender = own_ref a;
        receiver = own_ref a;
        trace_id = trace_id;
        message_id = trace_id;
        offset = pos 0;
        message_type = memory;
      };
      command = [];
      payload = absent;
      headers = [];
    })

-- `c.sequences[receiverId]`
unfoldable pub sequence_of : Context → Str → ℕ
sequence_of c receiver_id = elim (lookup Str_discrete receiver_id c.sequences) [
  | none ↦ 0
  | some seq ↦ seq
]

-- nextSequence
unfoldable pub next_sequence : Context → Str → Context × ℕ
next_sequence c receiver_id =
    let seq = sequence_of c receiver_id in
    (record c { sequences = insert Str_discrete receiver_id ((seq + 1) % 2 ^ 64) c.sequences }, seq)

-- generateMessageId
unfoldable pub context_message_id : (Str → Str) → Context → Str → Str → Context × Str
context_message_id digest c sender_id receiver_id =
    let (c', seq) = next_sequence c receiver_id in
    (c', generate_message_id digest c.message.message_id sender_id receiver_id seq)

-- NewMessage: the sender has the actor's id as its type, and its type as its id.
unfoldable pub context_message :
    (Str → Str) → Context → Actor → Str → Str → Str → Option Str → Context × Message
context_message digest c a receiver_id receiver_type command payload =
    let (c', message_id) = context_message_id digest c a.id receiver_id in
    (
      c',
      record {
        meta = record {
          sender = record { typ = a.id; id = a.typ };
          receiver = record { typ = receiver_type; id = receiver_id };
          trace_id = c.message.trace_id;
          message_id = message_id;
          offset = pos 0;
          message_type = memory;
        };
        command = command;
        payload = raw payload;
        headers = [];
      },
    )

-- AddTimer's message
unfoldable pub timer_message : (Str → Str) → Actor → Str → Str → Payload → ℤ → Message
timer_message digest a key cmd payload when =
    let message_id = generate_message_id digest key a.id a.id (to_uint64 when) in
    record {
      meta = record {
        sender = own_ref a;
        receiver = own_ref a;
        trace_id = message_id;
        message_id = message_id;
        offset = pos 0;
        message_type = timer;
      };
      command = cmd;
      payload = payload;
      headers = [];
    }

-- Actor.AddTimer, which Context.NewTimer calls
unfoldable pub add_timer : (Str → Str) → (ℕ → ℤ) → Actor → Str → Str → Payload → ℤ → Run Actor
add_timer digest clock a0 key cmd payload when =
    let (a, now) = read_clock clock a0 in
    (do
      t ← Timer.add now a.timer key (timer_message digest a key cmd payload when) when
      ok (record a { timer = t }))

-- How a handler ends.
pub data Ending : Type 0 where
  returned : Bool → Ending
  panicked : Ending

-- A call of a handler on a Context.
unfoldable pub run_script : (Str → Str) → (ℕ → ℤ) → Context → Actor → Script → Run (Actor × Ending)
run_script digest clock c a (returns done) = ok (a, returned done)
run_script digest clock c a panics = ok (a, panicked)
run_script digest clock c a (set_state state rest) =
    run_script digest clock c (record a { state = state }) rest
run_script digest clock c a (new_timer key cmd payload when rest) =
    add_timer digest clock a key cmd payload when >>= λ a'. run_script digest clock c a' rest
run_script digest clock c a (new_message receiver_id receiver_type command payload rest) =
    let (c', m) = context_message digest c a receiver_id receiver_type command payload in
    run_script digest clock c' a (rest m)
