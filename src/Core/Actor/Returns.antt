-- ===== src/Core/Actor/Returns.antt =====
-- core/actor.go, core/context.go: a handler that sets few enough timers ends, and so does the call.
use mathlib.Core.Path.{subst}
use goactor.Prelude.{
  ℕ, zero, suc, ◌+◌, ◌^◌, ◌<◌, ◌≡◌, ◌⊎◌, refl, sym, ◌∙◌, ap, true, false, List, some, arith, ℤ, Str,
  Str_discrete, lt_ℤ, eq_ℤ, le_ℤ, ok, Bool-cases, Option-cases, inl, inr, ◌>>=◌,
}
use goactor.Structs.QuadHeap.Valid.{IsValid}
use goactor.Structs.QuadHeap.Update.{upsert_refines}
use goactor.Message.{Message}
use goactor.Core.Dedup.Refine.{Remembers, seen, has-seen, add_refines}
use goactor.Core.Timer
use goactor.Core.Timer.{Timer, TimerHeap}
use goactor.Core.Handlers.{
  Script, returns, panics, set_state, new_timer, new_message, Handlers, Handler, get_handler,
}
use goactor.Core.Actor.{Actor, read_clock}
use goactor.Core.Actor.Context.{
  Context, Ending, returned, panicked, new_context, run_script, add_timer, context_message,
  timer_message,
}
use goactor.Core.Actor.Handle.{
  settle_network, call_handler, call_found, call_registered, handle_network,
}
use goactor.Core.Actor.Frame.{Kept, run_script-Kept}
use goactor.Core.Actor.Again.{Handled, handle_network-Handled}
use goactor.Core.Actor.Trigger.{IsTimer, by_deadline}

-- The script sets at most `k` timers.
abbrev pub IsWithin : ℕ → Script → Type 0
IsWithin k (returns done) = Unit
IsWithin k panics = Unit
IsWithin k (set_state state rest) = IsWithin k rest
IsWithin zero (new_timer key cmd payload when rest) = ⊥
IsWithin (suc k) (new_timer key cmd payload when rest) = IsWithin k rest
IsWithin k (new_message receiver_id receiver_type command payload rest) =
    (m : Message) → IsWithin k (rest m)

-- There are sequence numbers left for `k` timers.
pub record HasRoom (k : ℕ) (t : Timer) : Type 0 where
  pub valid : IsTimer t
  pub room : t.heap.next_seq + k < 2 ^ 64

heap-calibration : (now : ℤ) (t : Timer) → (Timer.calibration now t).heap ≡ t.heap
unfolding Timer.calibration
heap-calibration now t = elim (Option-cases (Timer.peek t)) [
  | inl nothing ↦ rw (Timer.calibration, nothing) refl
  | inr (item, first) ↦ rw (Timer.calibration, first) refl
]

calibrated-HasRoom :
    (k : ℕ) (now : ℤ) (t : Timer) → HasRoom k t → HasRoom k (Timer.calibration now t)
calibrated-HasRoom k now t r =
    let same = sym (heap-calibration now t) in
    record {
      valid = subst (λ h. IsValid Str_discrete lt_ℤ eq_ℤ h) same r.valid;
      room = subst (λ (h : TimerHeap). h.next_seq + k < 2 ^ 64) same r.room;
    }

add-HasRoom :
    (k : ℕ) (now : ℤ) (t : Timer) (key : Str) (task : Message) (when : ℤ)
    → HasRoom (suc k) t
    → (t' : Timer) × (Timer.add now t key task when ≡ ok t') × HasRoom k t'
unfolding Timer.add Timer.upsert
add-HasRoom k now t key task when r =
    let entered =
      upsert_refines Str_discrete lt_ℤ eq_ℤ by_deadline t.heap r.valid task when key
        (omega (arith, r.room)) in
    let t1 = record t { heap = entered.heap } in
    let fits : HasRoom k t1 = record {
      valid = entered.valid;
      room = omega (arith, r.room, entered.next);
    } in
    let calibrated = calibrated-HasRoom k now t1 fits in
    elim (Option-cases (Timer.peek t)) [
      | inl first ↦ (
        Timer.calibration now t1,
        rw (Timer.add, Timer.upsert, entered.returned, first) refl,
        calibrated,
      )
      | inr (item, there) ↦ elim (Bool-cases (le_ℤ item.when when)) [
        | inl later ↦ (t1, rw (Timer.add, Timer.upsert, entered.returned, there, later) refl, fits)
        | inr sooner ↦ (
          Timer.calibration now t1,
          rw (Timer.add, Timer.upsert, entered.returned, there, sooner) refl,
          calibrated,
        )
      ]
    ]

module _ (digest : Str → Str) (clock : ℕ → ℤ) where
  pub run_script-returns :
      (k : ℕ) (c : Context) (a : Actor) (s : Script)
      → IsWithin k s
      → HasRoom k a.timer
      → (a' : Actor) × (e : Ending) × (run_script digest clock c a s ≡ ok (a', e))
  unfolding run_script add_timer read_clock timer_message
  run_script-returns k c a (returns done) w r = (a, returned done, refl)
  run_script-returns k c a panics w r = (a, panicked, refl)
  run_script-returns k c a (set_state state rest) w r =
      run_script-returns k c (record a { state = state }) rest w r
  run_script-returns zero c a (new_timer key cmd payload when rest) w r = absurd w
  run_script-returns (suc k) c a (new_timer key cmd payload when rest) w r =
      let (t, added, r1) =
        add-HasRoom k (clock a.readings) a.timer key (timer_message digest a key cmd payload when)
          when r in
      let (a', e, ran) =
        run_script-returns k c (record a { readings = suc a.readings; timer = t }) rest w r1 in
      (a', e, rw (add_timer, added) ran)
  run_script-returns k c a (new_message rid rtyp command payload rest) w r =
      let (c', m) = context_message digest c a rid rtyp command payload in
      run_script-returns k c' a (rest m) (w m) r

  settled :
      (a : Actor) (n : ℕ) (q : List Str) (h : Handlers) (m : Message) (handler : Handler)
      → (r : Remembers n q a.dedup) → (pos_n : 0 < n) → (table : a.handler ≡ some h)
      → get_handler h m.command ≡ some handler
      → (a1 : Actor) (e : Ending) → Kept a a1
      → handle_network digest clock a m ≡ settle_network m (a1, e)
      → (a' : Actor) × ((handle_network digest clock a m ≡ ok (a', false)) × Kept a a'
          ⊎ (handle_network digest clock a m ≡ ok (a', true))
            × Handled digest clock a n q r pos_n h table m a')
  unfolding settle_network
  settled a n q h m handler r pos_n table known a1 panicked kept next = (a1, inl (next, kept))
  settled a n q h m handler r pos_n table known a1 (returned x) kept next =
      let r1 : Remembers n q a1.dedup = subst (λ (x : Actor). Remembers n q x.dedup) (sym kept) r in
      let (d', added, _) = add_refines r1 m.message_id pos_n in
      let a' = record a1 { dedup = d'; offset = m.offset } in
      let is : settle_network m (a1, returned x) ≡ ok (a', true) =
        rw (settle_network, added) refl in
      (
        a',
        inr (
          next ∙ is,
          handle_network-Handled digest clock a n q r pos_n h table m handler a' known (next ∙ is),
        ),
      )

  -- For a Dedup of positive capacity that remembers a list of ids and a valid timer, handleNetwork of a
  -- message whose command has a handler returns, if there are sequence numbers for the timers that the
  -- handler sets. Either the handler panics, and only the state, the timer and the readings of the clock
  -- may have changed; or the id is now remembered, the offset is the message's unless the id was known,
  -- nothing was sent, the mailbox is as before, and a message with this id will change nothing.
  pub handle_network-returns :
      (a : Actor) (n : ℕ) (q : List Str) (h : Handlers) (m : Message) (handler : Handler) (k : ℕ)
      → (r : Remembers n q a.dedup) → (pos_n : 0 < n) → (table : a.handler ≡ some h)
      → get_handler h m.command ≡ some handler
      → IsWithin k (handler a.id a.state m)
      → HasRoom k a.timer
      → (a' : Actor) × ((handle_network digest clock a m ≡ ok (a', false)) × Kept a a'
          ⊎ (handle_network digest clock a m ≡ ok (a', true))
            × Handled digest clock a n q r pos_n h table m a')
  unfolding handle_network call_registered call_found call_handler settle_network
  handle_network-returns a n q h m handler k r pos_n table known w room =
      elim (Bool-cases (seen q m.message_id)) [
        | inl old ↦
            let is : handle_network digest clock a m ≡ ok (a, true) =
              rw (handle_network, has-seen r m.message_id, old) refl in
            (
              a,
              inr (
                is,
                handle_network-Handled digest clock a n q r pos_n h table m handler a known is,
              ),
            )
        | inr new ↦
            let called = call_found digest clock (settle_network m) in
            let is : handle_network digest clock a m
                ≡ (call_handler digest clock a m handler >>= settle_network m) =
              rw (handle_network, has-seen r m.message_id, new) refl
              ∙ ap (λ t. call_registered digest clock (settle_network m) t a m) table
              ∙ ap (λ f. called f a m) known in
            let (a1, e, ran) =
              run_script-returns k (new_context m) a (handler a.id a.state m) w room in
            let kept =
              run_script-Kept digest clock (new_context m) a a1 (handler a.id a.state m) e ran in
            let next : handle_network digest clock a m ≡ settle_network m (a1, e) =
              is ∙ ap (λ x. x >>= settle_network m) ran in
            settled a n q h m handler r pos_n table known a1 e kept next
      ]
