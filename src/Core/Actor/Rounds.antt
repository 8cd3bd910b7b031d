-- ===== src/Core/Actor/Rounds.antt =====
-- core/actor.go: what every round of an actor's loop keeps, and the actors that the rounds reach.
use mathlib.Core.Path.{subst}
use goactor.Prelude.{
  ℕ, zero, suc, ◌<◌, ◌≤◌, ◌≡◌, refl, sym, ◌∙◌, ap, Bool, true, false, List, [], ◌∷◌, Option, none,
  some, arith, if◌then◌else◌, ℤ, Str, Run, ok, Bool-cases, inl, inr,
}
use goactor.Prelude.Assoc.{length}
use goactor.Message.{Message, MessageType, memory, timer, network, other}
use goactor.Core.Dedup
use goactor.Core.Handlers.{Handlers, Handler, get_handler}
use goactor.Core.Actor.{Actor}
use goactor.Core.Actor.Context.{Ending, returned, panicked, new_context}
use goactor.Core.Actor.Handle.{
  check_mailbox, settle_network, settle_timer, call_handler, call_found, call_registered,
  handle_network, handle_timer, handle_memory, dispatch, handle, drain_next, drain,
}
use goactor.Core.Actor.Frame.{Kept, bind-returned, run_script-Kept}
use goactor.Core.Actor.Latest.{
  Tracks, Tracks-Kept, mailbox-check_mailbox, check_mailbox-Tracks, settle_network-Tracks,
}

module _ (P : Message → Type 0) where
  -- A message that is handled as one of the network is one that `P` holds of.
  abbrev pub Fit : Message → Type 0
  Fit m = m.message_type ≡ network → P m

  abbrev pub AllFit : List Message → Type 0
  AllFit [] = Unit
  AllFit (m ∷ rest) = Fit m × AllFit rest

module _ (n : ℕ) (pos_n : 0 < n) (P : Message → Type 0) (digest : Str → Str) (clock : ℕ → ℤ) where
  -- The facts are kept, and so is the mailbox.
  abbrev Keeps : Actor → Actor → Type 0
  Keeps a a' = Tracks n P a' × (a'.mailbox ≡ a.mailbox)

  unchanged :
      (a a' : Actor) (b done : Bool) (r : Run (Actor × Bool))
      → Tracks n P a
      → r ≡ ok (a', done)
      → r ≡ ok (a, b)
      → Keeps a a'
  unchanged a a' b done r t h is =
      let both : ok (a, b) ≡ ok (a', done) = sym is ∙ h in
      let same : a ≡ a' = ground arith in
      subst (λ x. Tracks n P x × (x.mailbox ≡ a.mailbox)) same (t, refl)

  -- The lookup and the call of a handler, given what follows a call.
  module _ (settle : Actor × Ending → Run (Actor × Bool)) (a a' : Actor) (done : Bool) (m : Message)
      (t : Tracks n P a)
      (after : (a1 : Actor) (e : Ending)
        → Kept a a1
        → Tracks n P a1
        → settle (a1, e) ≡ ok (a', done)
        → Keeps a1 a') where
    call_found-Keeps :
        (f : Option Handler) → call_found digest clock settle f a m ≡ ok (a', done) → Keeps a a'
    unfolding call_found call_handler
    call_found-Keeps none h = unchanged a a' true done (ok (a, true)) t h refl
    call_found-Keeps (some handler) h =
        let ((a1, e), ran, settled) =
          bind-returned (call_handler digest clock a m handler) settle (a', done) h in
        let kept =
          run_script-Kept digest clock (new_context m) a a1 (handler a.id a.state m) e ran in
        let (t', box) = after a1 e kept (Tracks-Kept n P a a1 t kept) settled in
        (t', box ∙ ap (λ (x : Actor). x.mailbox) kept)

    call_registered-Keeps :
        (table : Option Handlers)
        → call_registered digest clock settle table a m ≡ ok (a', done)
        → Keeps a a'
    unfolding call_registered
    call_registered-Keeps none h = unchanged a a' false done (ok (a, false)) t h refl
    call_registered-Keeps (some table) h = call_found-Keeps (get_handler table m.command) h

  handle_network-Keeps :
      (m : Message) (a a' : Actor) (done : Bool)
      → P m
      → Tracks n P a
      → handle_network digest clock a m ≡ ok (a', done)
      → Keeps a a'
  unfolding handle_network
  handle_network-Keeps m a a' done p t h = elim (Bool-cases (Dedup.has a.dedup m.message_id)) [
    | inl old ↦
        unchanged a a' true done (handle_network digest clock a m) t h
          (rw (handle_network, old) refl)
    | inr new ↦
        let calls : handle_network digest clock a m
            ≡ call_registered digest clock (settle_network m) a.handler a m =
          rw (handle_network, new) refl in
        call_registered-Keeps (settle_network m) a a' done m t
          (λ a1 e kept t1 settled.
            let same : a1.dedup ≡ a.dedup = ap (λ (x : Actor). x.dedup) kept in
            settle_network-Tracks n P m a1 a' e done pos_n p
              (ap (λ d. Dedup.has d m.message_id) same ∙ new) t1 settled)
          a.handler (sym calls ∙ h)
  ]

  settle_timer-Keeps :
      (a a' : Actor) (e : Ending) (done : Bool)
      → Tracks n P a
      → settle_timer (a, e) ≡ ok (a', done)
      → Keeps a a'
  unfolding settle_timer
  settle_timer-Keeps a a' panicked done t h = unchanged a a' false done (ok (a, false)) t h refl
  settle_timer-Keeps a a' (returned x) done t h = unchanged a a' true done (ok (a, true)) t h refl

  handle_timer-Keeps :
      (m : Message) (a a' : Actor) (done : Bool)
      → Tracks n P a
      → handle_timer digest clock a m ≡ ok (a', done)
      → Keeps a a'
  unfolding handle_timer
  handle_timer-Keeps m a a' done t h =
      call_registered-Keeps settle_timer a a' done m t
        (λ a1 e kept t1 settled. settle_timer-Keeps a1 a' e done t1 settled) a.handler h

  dispatch-Keeps :
      (type : MessageType) (m : Message) (a a' : Actor) (done : Bool)
      → m.message_type ≡ type
      → Fit P m
      → Tracks n P a
      → dispatch digest clock type a m ≡ ok (a', done)
      → Keeps a a'
  unfolding dispatch handle_memory
  dispatch-Keeps network m a a' done is fit t h = handle_network-Keeps m a a' done (fit is) t h
  dispatch-Keeps memory m a a' done is fit t h = unchanged a a' true done (ok (a, true)) t h refl
  dispatch-Keeps timer m a a' done is fit t h = handle_timer-Keeps m a a' done t h
  dispatch-Keeps (other k) m a a' done is fit t h = unchanged a a' true done (ok (a, true)) t h refl

  pub handle-Keeps :
      (m : Message) (a a' : Actor) (done : Bool)
      → Fit P m
      → Tracks n P a
      → handle digest clock a m ≡ ok (a', done)
      → Keeps a a'
  unfolding handle
  handle-Keeps m a a' done fit t h =
      let (t', box) =
        dispatch-Keeps m.message_type m (check_mailbox a) a' done refl fit
          (check_mailbox-Tracks n P a t) h in
      (t', box ∙ mailbox-check_mailbox n P a)

  -- drain with as much fuel as there are messages empties the mailbox, unless a handler panics.
  abbrev Drained : Actor → Bool → Type 0
  Drained a done = Tracks n P a × (done ≡ true → a.mailbox ≡ [])

  none_of : (box : List Message) → length box ≤ 0 → box ≡ []
  none_of [] h = refl
  none_of (m ∷ rest) h = absurd (omega arith)

  drained :
      (a a' : Actor) (done : Bool) (r : Run (Actor × Bool))
      → a.mailbox ≡ []
      → Tracks n P a
      → r ≡ ok (a', done)
      → r ≡ ok (a, true)
      → Drained a' done
  drained a a' done r none_left t h is =
      let (t', box) = unchanged a a' true done r t h is in (t', λ _. box ∙ none_left)

  -- drain on less fuel, as far as its result is this one.
  abbrev Rest : ℕ → Actor → Bool → Type 0
  Rest fuel a' done =
      (a1 : Actor)
      → length a1.mailbox ≤ fuel
      → AllFit P a1.mailbox
      → Tracks n P a1
      → drain digest clock fuel a1 ≡ ok (a', done)
      → Drained a' done

  drain-Rest-Tracks :
      (fuel : ℕ) (a1 a' : Actor) (more done : Bool)
      → Rest fuel a' done
      → length a1.mailbox ≤ fuel
      → AllFit P a1.mailbox
      → Tracks n P a1
      → (if more then drain digest clock fuel a1 else ok (a1, false)) ≡ ok (a', done)
      → Drained a' done
  drain-Rest-Tracks fuel a1 a' true done ih enough fits t h = ih a1 enough fits t h
  drain-Rest-Tracks fuel a1 a' false done ih enough fits t h =
      let (t', _) = unchanged a1 a' false done (ok (a1, false)) t h refl in
      (t', λ is. absurd (ground arith))

  drain_next-Tracks :
      (fuel : ℕ) (box : List Message) (a a' : Actor) (done : Bool)
      → Rest fuel a' done
      → a.mailbox ≡ box
      → length box ≤ suc fuel
      → AllFit P box
      → Tracks n P a
      → drain_next digest clock (drain digest clock fuel) box a ≡ ok (a', done)
      → Drained a' done
  unfolding drain_next
  drain_next-Tracks fuel [] a a' done ih is enough fit t h =
      drained a a' done (ok (a, true)) is t h refl
  drain_next-Tracks fuel (m ∷ rest) a a' done ih is enough (fit, fits) t h =
      let ((a1, more), handled, continued) =
        bind-returned (handle digest clock (record a { mailbox = rest }) m)
          (λ (x, more). if more then drain digest clock fuel x else ok (x, false)) (a', done) h in
      let (t1, box) = handle-Keeps m (record a { mailbox = rest }) a1 more fit t handled in
      drain-Rest-Tracks fuel a1 a' more done ih (omega (arith, ap length box))
        (subst (AllFit P) (sym box) fits) t1 continued

  pub drain-Tracks :
      (fuel : ℕ) (a a' : Actor) (done : Bool)
      → length a.mailbox ≤ fuel
      → AllFit P a.mailbox
      → Tracks n P a
      → drain digest clock fuel a ≡ ok (a', done)
      → Drained a' done
  unfolding drain
  drain-Tracks zero a a' done enough fit t h =
      drained a a' done (ok (a, true)) (none_of a.mailbox enough) t h refl
  drain-Tracks (suc fuel) a a' done enough fit t h =
      drain_next-Tracks fuel a.mailbox a a' done (λ a1. drain-Tracks fuel a1 a' done) refl enough
        fit t h

  -- On as many rounds as the mailbox holds messages, drain of an actor whose Dedup and snapshots are in
  -- order leaves the mailbox empty, unless a handler panics, and leaves them in order.
  pub mailbox-drain :
      (fuel : ℕ) (a a' : Actor)
      → length a.mailbox ≤ fuel
      → AllFit P a.mailbox
      → Tracks n P a
      → drain digest clock fuel a ≡ ok (a', true)
      → (a'.mailbox ≡ []) × Tracks n P a'
  mailbox-drain fuel a a' enough fit t h =
      let (t', empties) = drain-Tracks fuel a a' true enough fit t h in (empties refl, t')
