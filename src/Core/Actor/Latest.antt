-- ===== src/Core/Actor/Latest.antt =====
-- core/actor.go: the offset and the ids of an actor's snapshots, and what it counts between them.
-- `n` is the capacity of its Dedup, and `P` holds of the network messages that are handled.
use mathlib.Core.Path.{subst}
use goactor.Prelude.{
  ℕ, ◌-◌, ◌/◌, ◌<◌, ◌≡◌, ◌⊎◌, refl, sym, ◌∙◌, Bool, true, false, List, [], ◌∷◌, arith, leb, ◌==◌,
  ◌&&◌, ℤ, pos, Str, ok, Bool-cases, inl, inr,
}
use goactor.Prelude.Assoc.{length, drop, ◌∷ʳ◌}
use goactor.Message.{
  Message, Payload, actor_snapshot, actor_idle, actor_alive, actor_ready, actor_stopped, absent,
  any_other, raw, cmd_actor_snapshot,
}
use goactor.Core.Dedup
use goactor.Core.Dedup.{Dedup}
use goactor.Core.Dedup.Refine.{Remembers, remember, seen, has-seen, add_refines, ids_refines}
use goactor.Core.Actor.{Actor, signal, signal_snapshot}
use goactor.Core.Actor.Context.{Ending, returned, panicked}
use goactor.Core.Actor.Handle.{mark_full, announce_ready, check_mailbox, settle_network}
use goactor.Core.Actor.Frame.{Kept}

module _ (n : ℕ) (P : Message → Type 0) where
  -- Nothing was handled yet, or the newest id is that of a message with this offset.
  abbrev pub Latest : List Str → ℤ → Type 0
  Latest q offset =
      (q ≡ []) × (offset ≡ pos 0)
      ⊎ (m : Message) × P m × (older : List Str) × (q ≡ older ∷ʳ m.message_id) × (offset ≡ m.offset)

  abbrev pub Agrees : Payload → Type 0
  Agrees (actor_snapshot s) = Latest s.dedup s.offset
  Agrees actor_idle = Unit
  Agrees (actor_alive t) = Unit
  Agrees actor_ready = Unit
  Agrees actor_stopped = Unit
  Agrees (raw x) = Unit
  Agrees absent = Unit
  Agrees (any_other x) = Unit

  -- Every snapshot among the messages that were sent agrees.
  abbrev pub AllAgree : List Message → Type 0
  AllAgree [] = Unit
  AllAgree (m ∷ rest) = Agrees m.payload × AllAgree rest

  pub record TracksOf (d : Dedup) (offset advanced : ℤ) (sent : List Message) : Type 0 where
    pub ids : List Str
    pub remembers : Remembers n ids d
    pub latest : Latest ids offset
    pub unadvanced : advanced ≡ pos 0
    pub agree : AllAgree sent

  abbrev pub Tracks : Actor → Type 0
  Tracks a = TracksOf a.dedup a.offset a.offset_advanced a.sent

  pub Tracks-Kept : (a a' : Actor) → Tracks a → Kept a a' → Tracks a'
  Tracks-Kept a a' t k = subst Tracks (sym k) t

  abbrev told :
      (d : Dedup) (offset advanced : ℤ) (sent : List Message) (m : Message)
      → Agrees m.payload
      → TracksOf d offset advanced sent
      → TracksOf d offset advanced (m ∷ sent)
  told d offset advanced sent m agrees t = record {
    ids = t.ids;
    remembers = t.remembers;
    latest = t.latest;
    unadvanced = t.unadvanced;
    agree = (agrees, t.agree);
  }

  pub signal_snapshot-Tracks :
      (a : Actor)
      → Tracks a
      → (a' : Actor) × (signal_snapshot a ≡ ok a') × Tracks a' × (a'.mailbox ≡ a.mailbox)
  unfolding signal_snapshot signal
  signal_snapshot-Tracks a t =
      let recorded = ids_refines t.remembers in
      (
        signal a cmd_actor_snapshot (
            actor_snapshot (record {
              actor_id = a.id;
              actor_type = [];
              version = a.version;
              offset = a.offset;
              state = a.state;
              dedup = t.ids;
            })),
        rw (signal_snapshot, recorded) refl,
        record {
          ids = t.ids;
          remembers = t.remembers;
          latest = t.latest;
          unadvanced = t.unadvanced;
          agree = (t.latest, t.agree);
        },
        refl,
      )

  mark_full-Tracks : (a : Actor) → Tracks a → Tracks (mark_full a)
  unfolding mark_full
  mark_full-Tracks a t = elim (Bool-cases (leb (a.channel_cap - 1) (length a.mailbox))) [
    | inl near ↦ rw near t
    | inr far ↦ rw far t
  ]

  announce_ready-Tracks : (a : Actor) → Tracks a → Tracks (announce_ready a)
  unfolding announce_ready signal
  announce_ready-Tracks a t =
      elim (Bool-cases (a.mail_full && leb (length a.mailbox) (a.channel_cap / 2))) [
        | inl calm ↦ rw calm record {
          ids = t.ids;
          remembers = t.remembers;
          latest = t.latest;
          unadvanced = t.unadvanced;
          agree = (tt, t.agree);
        }
        | inr busy ↦ rw busy t
      ]

  pub check_mailbox-Tracks : (a : Actor) → Tracks a → Tracks (check_mailbox a)
  unfolding check_mailbox
  check_mailbox-Tracks a t = announce_ready-Tracks (mark_full a) (mark_full-Tracks a t)

  pub mailbox-check_mailbox : (a : Actor) → (check_mailbox a).mailbox ≡ a.mailbox
  unfolding check_mailbox mark_full announce_ready signal
  mailbox-check_mailbox a = ground arith

  -- A new id comes last.
  remember-last :
      (q : List Str) (id : Str)
      → seen q id ≡ false
      → (older : List Str) × (remember n q id ≡ older ∷ʳ id)
  unfolding remember
  remember-last q id new = elim (Bool-cases (length q == n)) [
    | inl full ↦ (drop 1 q, rw (new, full) refl)
    | inr room ↦ (q, rw (new, room) refl)
  ]

  pub settle_network-Tracks :
      (m : Message) (a a' : Actor) (e : Ending) (done : Bool)
      → 0 < n
      → P m
      → Dedup.has a.dedup m.message_id ≡ false
      → Tracks a
      → settle_network m (a, e) ≡ ok (a', done)
      → Tracks a' × (a'.mailbox ≡ a.mailbox)
  unfolding settle_network
  settle_network-Tracks m a a' panicked done pos_n p new t h =
      let same : a ≡ a' = ground arith in
      subst (λ x. Tracks x × (x.mailbox ≡ a.mailbox)) same (t, refl)
  settle_network-Tracks m a a' (returned x) done pos_n p new t h =
      let (d', added, kept) = add_refines t.remembers m.message_id pos_n in
      let (older, last) =
        remember-last t.ids m.message_id (sym (has-seen t.remembers m.message_id) ∙ new) in
      let settled : settle_network m (a, returned x)
          ≡ ok (record a { dedup = d'; offset = m.offset }, true) =
        rw (settle_network, added) refl in
      let ends : ok (record a { dedup = d'; offset = m.offset }, true) ≡ ok (a', done) =
        sym settled ∙ h in
      let same : record a { dedup = d'; offset = m.offset } ≡ a' = ground arith in
      subst (λ x. Tracks x × (x.mailbox ≡ a.mailbox)) same
        (
          record {
            ids = remember n t.ids m.message_id;
            remembers = kept;
            latest = inr (m, p, older, last, refl);
            unadvanced = t.unadvanced;
            agree = t.agree;
          },
          refl,
        )
