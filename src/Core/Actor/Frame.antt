-- ===== src/Core/Actor/Frame.antt =====
-- core/actor.go, core/context.go: what a handler of the application cannot change in its actor.
use goactor.Prelude.{
  ℕ, suc, ◌≡◌, refl, sym, ◌∙◌, ap, Bool, true, false, arith, ℤ, pos, lt_ℤ, ltb, Bool-cases,
  Option-cases, inl, inr, zero, Str, Run, ok, panic, ◌>>=◌,
}
use goactor.Message.{Payload}
use goactor.Core.Timer
use goactor.Core.Handlers.{Script, returns, panics, set_state, new_timer, new_message}
use goactor.Core.Actor.{Actor, read_clock}
use goactor.Prelude.Assoc.{length, ◌∷ʳ◌}
use goactor.Core.Timer.{seconds}
use goactor.Core.Actor.Handle.{move_due}
use goactor.Core.Actor.Context.{
  Context, Ending, run_script, add_timer, context_message, timer_message,
}

-- Only the state, the timer and the count of readings may differ.
abbrev pub Kept : Actor → Actor → Type 0
Kept a a' = a' ≡ record a { state = a'.state; timer = a'.timer; readings = a'.readings }

pub Kept-trans : (a b c : Actor) → Kept a b → Kept b c → Kept a c
Kept-trans a b c p q =
    q
    ∙ ap {B = Actor}
        (λ (x : Actor). record x { state = c.state; timer = c.timer; readings = c.readings }) p

pub bind-returned :
    {A B : Type 0} (r : Run A) (f : A → Run B) (b : B)
    → (r >>= f) ≡ ok b
    → (a : A) × (r ≡ ok a) × (f a ≡ ok b)
bind-returned (ok a) f b h = (a, refl, h)
bind-returned panic f b h = absurd (ground arith)

module _ (digest : Str → Str) (clock : ℕ → ℤ) where
  add_timer-Kept :
      (a a' : Actor) (key cmd : Str) (payload : Payload) (when : ℤ)
      → add_timer digest clock a key cmd payload when ≡ ok a'
      → Kept a a'
  unfolding add_timer read_clock timer_message
  add_timer-Kept a a' key cmd payload when h =
      let (t, added, made) =
        bind-returned
          (Timer.add (clock a.readings) a.timer key (timer_message digest a key cmd payload when)
            when)
          (λ t. ok (record a { readings = suc a.readings; timer = t })) a' h in
      ground arith

  pub run_script-Kept :
      (c : Context) (a a' : Actor) (s : Script) (e : Ending)
      → run_script digest clock c a s ≡ ok (a', e)
      → Kept a a'
  unfolding run_script
  run_script-Kept c a a' (returns done) e h = ground arith
  run_script-Kept c a a' panics e h = ground arith
  run_script-Kept c a a' (set_state state rest) e h =
      run_script-Kept c (record a { state = state }) a' rest e h
  run_script-Kept c a a' (new_timer key cmd payload when rest) e h =
      let (a1, added, ran) =
        bind-returned (add_timer digest clock a key cmd payload when)
          (λ a1. run_script digest clock c a1 rest) (a', e) h in
      let k = run_script-Kept c a1 a' rest e ran in
      let k1 = add_timer-Kept a a1 key cmd payload when added in Kept-trans a a1 a' k1 k
  run_script-Kept c a a' (new_message rid rtyp command payload rest) e h =
      let (c', m) = context_message digest c a rid rtyp command payload in
      run_script-Kept c' a a' (rest m) e h

-- Only the mailbox and the timer change.
abbrev pub Refilled : Actor → Actor → Type 0
Refilled a a' = a' ≡ record a { mailbox = a'.mailbox; timer = a'.timer }

pub move_due-Refilled :
    (fuel : ℕ) (now : ℤ) (a a' : Actor) (done : Bool)
    → move_due fuel now a ≡ ok (a', done)
    → Refilled a a'
unfolding move_due
move_due-Refilled zero now a a' done h = ground arith
move_due-Refilled (suc fuel) now a a' done h = elim (Option-cases (Timer.peek a.timer)) [
  | inl nothing ↦
      let is : move_due (suc fuel) now a ≡ ok (a, true) = rw (move_due, nothing) refl in
      let ends : ok (a, true) ≡ ok (a', done) = sym is ∙ h in ground arith
  | inr (item, first) ↦ elim (Bool-cases (lt_ℤ now item.when)) [
    | inl later ↦
        let is : move_due (suc fuel) now a ≡ ok (a, true) = rw (move_due, first, later) refl in
        let ends : ok (a, true) ≡ ok (a', done) = sym is ∙ h in ground arith
    | inr due ↦ elim (Bool-cases (ltb (length a.mailbox) a.channel_cap)) [
      | inr full ↦
          let retried = record a { timer = Timer.retry_after a.timer (seconds (pos 1)) } in
          let is : move_due (suc fuel) now a ≡ ok (retried, false) =
            rw (move_due, first, due, full) refl in
          let ends : ok (retried, false) ≡ ok (a', done) = sym is ∙ h in ground arith
      | inl space ↦
          let next : Timer.Timer → Actor =
            λ t. record a { mailbox = a.mailbox ∷ʳ item.value; timer = t } in
          let is : move_due (suc fuel) now a
              ≡ (Timer.remove a.timer item.key >>= λ t. move_due fuel now (next t)) =
            rw (move_due, first, due, space) refl in
          let (t, removed, rest) =
            bind-returned (Timer.remove a.timer item.key) (λ t. move_due fuel now (next t))
              (a', done) (sym is ∙ h) in
          move_due-Refilled fuel now (next t) a' done rest
    ]
  ]
]
