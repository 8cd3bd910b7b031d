-- ===== src/Core/Actor/Reach.antt =====
-- core/actor.go: the rounds of an actor's loop, the actors that they reach, and how a run ends.
use mathlib.Core.Path.{subst}
use goactor.Prelude.{
  ℕ, suc, ◌<◌, ◌≡◌, refl, sym, ◌∙◌, ap, Bool, true, false, not, List, [], ◌∷◌, some, arith,
  if◌then◌else◌, ℤ, pos, Str, Run, ok, ◌>>=◌, Bool-cases, inl, inr,
}
use goactor.Prelude.Assoc.{length}
use goactor.Structs.Status
use goactor.Structs.QuadHeap.{len}
use goactor.Message.{Message, ActorSnapshot, actor_snapshot, actor_stopped, cmd_actor_snapshot}
use goactor.Core.Dedup
use goactor.Core.Dedup.Refine.{ids_refines}
use goactor.Core.Timer
use goactor.Core.Timer.{seconds}
use goactor.Core.Actor.{
  Actor, ActorStatus_discrete, stopping, signal, signal_snapshot, signal_stopped, signal_idle,
  signal_alive, read_clock, reset_idle, alive, alive_time, finish, is_advanced_enough,
}
use goactor.Core.Actor.Handle.{handle, drain, move_due, handle_timer_trigger}
use goactor.Core.Actor.Loop.{
  Event, mailbox_ready, idle_fired, alive_fired, timer_fired, stop_ready, Phase, looping, ended,
  end_run, receive, stop_round, round,
}
use goactor.Core.Actor.Frame.{bind-returned, move_due-Refilled}
use goactor.Core.Actor.Latest.{Tracks, signal_snapshot-Tracks}
use goactor.Core.Actor.Rounds.{AllFit, handle-Keeps, drain-Tracks}

-- What a snapshot of an actor says.
abbrev pub saved_state : Actor → List Str → ActorSnapshot
saved_state a ids = record {
  actor_id = a.id;
  actor_type = [];
  version = a.version;
  offset = a.offset;
  state = a.state;
  dedup = ids;
}

-- The last messages that an actor sent are a snapshot of what it is now, and then that it stopped.
pub record Closes (a : Actor) : Type 0 where
  pub ids : List Str
  pub older : List Message
  pub stopped : Message
  pub saved : Message
  pub sent : a.sent ≡ stopped ∷ saved ∷ older
  pub says : stopped.payload ≡ actor_stopped
  pub holds : saved.payload ≡ actor_snapshot (saved_state a ids)
  pub remembered : Dedup.ids a.dedup ≡ ok ids
  pub cancelled : a.cancelled ≡ true

module _ (n : ℕ) (pos_n : 0 < n) (P : Message → Type 0) where
  -- After a round in a phase.
  abbrev pub After : Actor → Phase → Type 0
  After a looping = Tracks n P a
  After a ended = Tracks n P a × Closes a

  end_run-After :
      (a : Actor) → Tracks n P a → (a' : Actor) × (end_run a ≡ ok (a', ended)) × After a' ended
  unfolding end_run finish signal_snapshot signal_stopped signal
  end_run-After a t =
      let recorded = ids_refines t.remembers in
      let saved =
        signal (record a { cancelled = true }) cmd_actor_snapshot
          (actor_snapshot (saved_state a t.ids)) in
      (
        signal_stopped saved,
        rw (end_run, finish, signal_snapshot, recorded) refl,
        (
          record {
            ids = t.ids;
            remembers = t.remembers;
            latest = t.latest;
            unadvanced = t.unadvanced;
            agree = (tt, (t.latest, t.agree));
          },
          record {
            ids = t.ids;
            older = a.sent;
            stopped = _;
            saved = _;
            sent = refl;
            says = refl;
            holds = refl;
            remembered = recorded;
            cancelled = refl;
          },
        ),
      )

  lands :
      (a a' : Actor) (q p : Phase) (r : Run (Actor × Phase))
      → After a q
      → r ≡ ok (a', p)
      → r ≡ ok (a, q)
      → After a' p
  lands a a' q p r t h is =
      let both : ◌≡◌ {A = Run (Actor × Phase)} (ok (a, q)) (ok (a', p)) = sym is ∙ h in
      let same : ◌≡◌ {A = Actor × Phase} (a, q) (a', p) = ground arith in
      subst (λ (x : Actor × Phase). After x.0 x.1) same t

  closes : (a a' : Actor) (p : Phase) → Tracks n P a → end_run a ≡ ok (a', p) → After a' p
  closes a a' p t h =
      let (a1, ends, t1) = end_run-After a t in lands a1 a' ended p (end_run a) t1 h ends

  -- An actor never counts its progress, so alive sends nothing and only sets its timer again.
  pub alive-quiet :
      (clock : ℕ → ℤ) (a : Actor)
      → a.offset_advanced ≡ pos 0
      → alive clock a
        ≡ ok (record a { readings = suc a.readings; alive_timer = some (seconds (pos alive_time)) })
  unfolding alive read_clock is_advanced_enough
  alive-quiet clock a none_counted =
      let still : is_advanced_enough (record a { readings = suc a.readings }) (clock a.readings)
          ≡ false =
        ground (arith, none_counted) in
      rw (alive, still) refl

  -- The end of handleTimerTrigger.
  abbrev calibrated : (ℕ → ℤ) → Actor → Bool → Actor
  calibrated clock a left =
      if left
      then record a {
        timer = Timer.calibration (clock a.readings) a.timer;
        readings = suc a.readings;
      }
      else a

  calibrated-Tracks :
      (clock : ℕ → ℤ) (a : Actor) (left : Bool)
      → Tracks n P a
      → Tracks n P (calibrated clock a left)
  calibrated-Tracks clock a true t = t
  calibrated-Tracks clock a false t = t

  module _ (digest : Str → Str) (clock : ℕ → ℤ) where
    resumed :
        (a a' : Actor) (more : Bool) (p : Phase)
        → Tracks n P a
        → (if more then ok (a, looping) else end_run a) ≡ ok (a', p)
        → After a' p
    resumed a a' true p t h = lands a a' looping p (ok (a, looping)) t h refl
    resumed a a' false p t h = closes a a' p t h

    receive-After :
        (box : List Message) (a a' : Actor) (p : Phase)
        → AllFit P box
        → Tracks n P a
        → receive digest clock box a ≡ ok (a', p)
        → After a' p
    unfolding receive reset_idle
    receive-After [] a a' p fit t h = lands a a' looping p (ok (a, looping)) t h refl
    receive-After (m ∷ rest) a a' p (fit, fits) t h =
        let ((a1, more), handled, continued) =
          bind-returned (handle digest clock (reset_idle (record a { mailbox = rest })) m)
            (λ (x, more). if more then ok (x, looping) else end_run x) (a', p) h in
        let (t1, _) =
          handle-Keeps n pos_n P digest clock m (reset_idle (record a { mailbox = rest })) a1 more
            fit t handled in
        resumed a1 a' more p t1 continued

    trigger-Tracks :
        (a a' : Actor) → Tracks n P a → handle_timer_trigger clock a ≡ ok a' → Tracks n P a'
    unfolding handle_timer_trigger read_clock
    trigger-Tracks a a' t h =
        elim (Bool-cases (Status.is_status ActorStatus_discrete a.status stopping)) [
          | inl over ↦
              let is : handle_timer_trigger clock a ≡ ok a = rw (handle_timer_trigger, over) refl in
              let both : ok a ≡ ok a' = sym is ∙ h in
              let same : a ≡ a' = ground arith in subst (Tracks n P) same t
          | inr running ↦
              let a1 = record a { readings = suc a.readings } in
              let moved = move_due (len a.timer.heap) (clock a.readings) a1 in
              let is : handle_timer_trigger clock a
                  ≡ (moved >>= λ (a2, left). ok (calibrated clock a2 left)) =
                rw (handle_timer_trigger, running) refl in
              let ((a2, left), ran, ends) =
                bind-returned moved (λ (a2, left). ok (calibrated clock a2 left)) a' (sym is ∙ h) in
              let t2 : Tracks n P a2 =
                subst (Tracks n P)
                  (sym (move_due-Refilled (len a.timer.heap) (clock a.readings) a1 a2 left ran))
                  t in
              let same : calibrated clock a2 left ≡ a' = ground arith in
              subst (Tracks n P) same (calibrated-Tracks clock a2 left t2)
        ]

    stop-After :
        (a a' : Actor) (p : Phase)
        → AllFit P a.mailbox
        → Tracks n P a
        → stop_round digest clock a ≡ ok (a', p)
        → After a' p
    unfolding stop_round
    stop-After a a' p fit t h =
        let a1 = record a { stop = false; status = Status.set_status a.status stopping } in
        let ((a2, done), drained, ends) =
          bind-returned (drain digest clock (length a.mailbox) a1) (λ (x, _). end_run x) (a', p)
            h in
        closes a2 a' p
          (drain-Tracks n pos_n P digest clock (length a.mailbox) a1 a2 done (omega arith) fit t
            drained).0
          ends

    pub round-After :
        (a a' : Actor) (e : Event) (p : Phase)
        → AllFit P a.mailbox
        → Tracks n P a
        → round digest clock a e ≡ ok (a', p)
        → After a' p
    unfolding round reset_idle signal_idle signal_alive signal read_clock
    round-After a a' mailbox_ready p fit t h = receive-After a.mailbox a a' p fit t h
    round-After a a' idle_fired p fit t h =
        let (a1, saved, t1, _) = signal_snapshot-Tracks n P (reset_idle a) t in
        let is : round digest clock a idle_fired ≡ ok (signal_idle a1, looping) =
          rw (round, saved) refl in
        lands (signal_idle a1) a' looping p (round digest clock a idle_fired)
          (record {
            ids = t1.ids;
            remembers = t1.remembers;
            latest = t1.latest;
            unadvanced = t1.unadvanced;
            agree = (tt, t1.agree);
          })
          h is
    round-After a a' alive_fired p fit t h =
        let a1 = record a {
          readings = suc a.readings;
          alive_timer = some (seconds (pos alive_time));
        } in
        let is : round digest clock a alive_fired ≡ ok (signal_alive clock a1, looping) =
          rw (round, alive-quiet clock a t.unadvanced) refl in
        lands (signal_alive clock a1) a' looping p (round digest clock a alive_fired)
          (record {
            ids = t.ids;
            remembers = t.remembers;
            latest = t.latest;
            unadvanced = t.unadvanced;
            agree = (tt, t.agree);
          })
          h is
    round-After a a' timer_fired p fit t h =
        let (a1, triggered, rest) =
          bind-returned (handle_timer_trigger clock a) (λ x. ok (x, looping)) (a', p) h in
        lands a1 a' looping p (ok (a1, looping)) (trigger-Tracks a a1 t triggered) rest refl
    round-After a a' stop_ready p fit t h = elim (Bool-cases a.stop) [
      | inr none_asked ↦
          lands a a' looping p (round digest clock a stop_ready) t h
            (ap (λ b. if not b then ok (a, looping) else stop_round digest clock a) none_asked)
      | inl asked ↦
          let is : round digest clock a stop_ready ≡ stop_round digest clock a =
            ap (λ b. if not b then ok (a, looping) else stop_round digest clock a) asked in
          stop-After a a' p fit t (sym is ∙ h)
    ]
