-- ===== src/Core/Actor/Again.antt =====
-- core/actor.go:handleNetwork: a message that was handled is not handled again.
use mathlib.Core.Path.{subst}
use goactor.Prelude.{
  ℕ, ◌<◌, ◌≡◌, refl, sym, ◌∙◌, ap, Bool, true, false, List, some, arith, ℤ, Str, ok, if◌then◌else◌,
  Bool-cases, inl, inr, ◌>>=◌,
}
use goactor.Message.{Message}
use goactor.Core.Dedup.Refine.{Remembers, remember, seen, seen-remember, has-seen, add_refines}
use goactor.Core.Handlers.{Handlers, Handler, get_handler}
use goactor.Core.Actor.{Actor}
use goactor.Core.Actor.Context.{Ending, returned, panicked, new_context}
use goactor.Core.Actor.Handle.{
  settle_network, call_handler, call_found, call_registered, handle_network,
}
use goactor.Core.Actor.Frame.{Kept, bind-returned, run_script-Kept}

module _ (digest : Str → Str) (clock : ℕ → ℤ) (a : Actor) (n : ℕ) (q : List Str)
    (r : Remembers n q a.dedup) (pos_n : 0 < n) (h : Handlers) (table : a.handler ≡ some h) where
  -- What the call on a message with a handler leaves, unless the handler panics.
  pub record Handled (m : Message) (a' : Actor) : Type 0 where
    pub remembers : Remembers n (remember n q m.message_id) a'.dedup
    pub offset : a'.offset ≡ (if seen q m.message_id then a.offset else m.offset)
    pub mailbox : a'.mailbox ≡ a.mailbox
    pub sent : a'.sent ≡ a.sent
    pub again :
        (m' : Message)
        → m'.message_id ≡ m.message_id
        → handle_network digest clock a' m' ≡ ok (a', true)

  dropped :
      (b : Actor) (ids : List Str) (id : Str)
      → Remembers n ids b.dedup
      → seen ids id ≡ true
      → (m' : Message) → m'.message_id ≡ id
      → handle_network digest clock b m' ≡ ok (b, true)
  unfolding handle_network
  dropped b ids id rb is m' same = rw (handle_network, has-seen rb m'.message_id, same, is) refl

  Handled-before : (m : Message) (d : Bool) → seen q m.message_id ≡ true → Handled m a
  unfolding remember
  Handled-before m d old = record {
    remembers = rw (remember, old) r;
    offset = rw old refl;
    mailbox = refl;
    sent = refl;
    again = dropped a q m.message_id r old;
  }

  Handled-now :
      (m : Message) (a1 : Actor) (e : Ending) (a' : Actor)
      → seen q m.message_id ≡ false
      → Kept a a1
      → settle_network m (a1, e) ≡ ok (a', true)
      → Handled m a'
  unfolding settle_network
  Handled-now m a1 panicked a' new kept h = absurd (ground arith)
  Handled-now m a1 (returned x) a' new kept h =
      let r1 : Remembers n q a1.dedup = subst (λ (x : Actor). Remembers n q x.dedup) (sym kept) r in
      let (d', added, remembers) = add_refines r1 m.message_id pos_n in
      let settled : settle_network m (a1, returned x)
          ≡ ok (record a1 { dedup = d'; offset = m.offset }, true) =
        rw (settle_network, added) refl in
      let both : ok (record a1 { dedup = d'; offset = m.offset }, true) ≡ ok (a', true) =
        sym settled ∙ h in
      let same : record a1 { dedup = d'; offset = m.offset } ≡ a' = ground arith in
      subst (Handled m) same (record {
        remembers = remembers;
        offset = rw new refl;
        mailbox = ap (λ (x : Actor). x.mailbox) kept;
        sent = ap (λ (x : Actor). x.sent) kept;
        again =
            dropped (record a1 { dedup = d'; offset = m.offset }) (remember n q m.message_id)
              m.message_id remembers (seen-remember n q m.message_id new);
      })

  pub handle_network-Handled :
      (m : Message) (handler : Handler) (a' : Actor)
      → get_handler h m.command ≡ some handler
      → handle_network digest clock a m ≡ ok (a', true)
      → Handled m a'
  unfolding handle_network call_registered call_found call_handler
  handle_network-Handled m handler a' known handled = elim (Bool-cases (seen q m.message_id)) [
    | inl old ↦
        let is : handle_network digest clock a m ≡ ok (a, true) =
          rw (handle_network, has-seen r m.message_id, old) refl in
        let both : ok (a, true) ≡ ok (a', true) = sym is ∙ handled in
        let same : a ≡ a' = ground arith in subst (Handled m) same (Handled-before m true old)
    | inr new ↦
        let is : handle_network digest clock a m
            ≡ call_registered digest clock (settle_network m) a.handler a m =
          rw (handle_network, has-seen r m.message_id, new) refl in
        let finds : call_registered digest clock (settle_network m) a.handler a m
            ≡ call_found digest clock (settle_network m) (get_handler h m.command) a m =
          ap (λ t. call_registered digest clock (settle_network m) t a m) table in
        let calls : call_found digest clock (settle_network m) (get_handler h m.command) a m
            ≡ (call_handler digest clock a m handler >>= settle_network m) =
          ap (λ f. call_found digest clock (settle_network m) f a m) known in
        let ((a1, e), ran, settled) =
          bind-returned (call_handler digest clock a m handler) (settle_network m) (a', true)
            (sym calls ∙ sym finds ∙ sym is ∙ handled) in
        Handled-now m a1 e a' new
          (run_script-Kept digest clock (new_context m) a a1 (handler a.id a.state m) e ran) settled
  ]
