-- ===== src/Core/Actor/Runs.antt =====
-- core/actor.go, core/factory.go: the actors that a run reaches, and what holds of all of them.
use goactor.Prelude.{
  ℕ, suc, ◌<◌, ◌≡◌, refl, [], Option, some, arith, ℤ, pos, pos_part, Str, ok, inl,
}
use goactor.Prelude.Assoc.{length, ◌∷ʳ◌}
use goactor.Structs.Status
use goactor.Message.{Message}
use goactor.Core.Dedup.Refine.{new_dedup-Remembers}
use goactor.Core.Timer.{seconds}
use goactor.Core.Handlers.{Handlers}
use goactor.Core.Actor.{
  Actor, ActorConfig, actor_config_ensure, new_actor, stop_actor, alive, alive_time,
  ActorStatus_discrete,
}
use goactor.Core.Actor.Loop.{start, before_start, Event, Phase, looping, ended, round}
use goactor.Core.Actor.Latest.{Tracks, AllAgree}
use goactor.Core.Actor.Rounds.{AllFit}
use goactor.Core.Actor.Reach.{Closes, After, round-After, alive-quiet}
use goactor.Core.Factory.{factory_warp}

-- The capacity of the Dedup of an actor.
abbrev pub dedup_cap_of : ActorConfig → ℕ
dedup_cap_of config = pos_part (actor_config_ensure config).dedup_cap

dedup_cap_pos : (config : ActorConfig) → 0 < dedup_cap_of config
unfolding actor_config_ensure
dedup_cap_pos config = ground arith

-- The actors that a factory makes, started, sent messages, asked to stop, and run round by round. In
-- every round, `P` holds of the network messages in the mailbox.
pub data Reaches (P : Message → Type 0) (digest : Str → Str) (clock : ℕ → ℤ) (zero_state : Str)
    (handler : Option Handlers) (config : ActorConfig) : Actor → Phase → Type 0 where
  started :
      Reaches P digest clock zero_state handler config
        (start (factory_warp zero_state handler config)).0
        looping
  delivered :
      {a : Actor} (m : Message)
      → Reaches P digest clock zero_state handler config a looping
      → length a.mailbox < a.channel_cap
      → Reaches P digest clock zero_state handler config
          (record a { mailbox = a.mailbox ∷ʳ m })
          looping
  asked :
      {a : Actor}
      → Reaches P digest clock zero_state handler config a looping
      → Reaches P digest clock zero_state handler config (stop_actor a) looping
  rounded :
      {a a' : Actor} {p : Phase} (e : Event)
      → Reaches P digest clock zero_state handler config a looping
      → AllFit P a.mailbox
      → round digest clock a e ≡ ok (a', p)
      → Reaches P digest clock zero_state handler config a' p

module _ (P : Message → Type 0) (digest : Str → Str) (clock : ℕ → ℤ) (zero_state : Str)
    (handler : Option Handlers) (config : ActorConfig) where
  abbrev n : ℕ
  n = dedup_cap_of config

  started-Tracks : Tracks n P (start (factory_warp zero_state handler config)).0
  unfolding start before_start factory_warp new_actor Status.new_status Status.is_status
      Status.set_status ActorStatus_discrete
  started-Tracks = record {
    ids = [];
    remembers = new_dedup-Remembers (actor_config_ensure config).dedup_cap;
    latest = inl (refl, refl);
    unadvanced = refl;
    agree = tt;
  }

  Reaches-After :
      {a : Actor} {p : Phase}
      → Reaches P digest clock zero_state handler config a p
      → After n (dedup_cap_pos config) P a p
  unfolding stop_actor
  Reaches-After started = started-Tracks
  Reaches-After (delivered m r room) = Reaches-After r
  Reaches-After (asked r) = Reaches-After r
  Reaches-After (rounded {a} {a'} {p} e r fit h) =
      round-After n (dedup_cap_pos config) P digest clock a a' e p fit (Reaches-After r) h

  pub Reaches-Tracks :
      {a : Actor} (p : Phase) → Reaches P digest clock zero_state handler config a p → Tracks n P a
  Reaches-Tracks {a} looping r = Reaches-After r
  Reaches-Tracks {a} ended r = (Reaches-After r).0

  -- In every actor that a factory makes and that is then started, sent messages, asked to stop and run by
  -- rounds that return, where a predicate holds of the network messages in its mailbox at each round,
  -- every snapshot that it has sent either has no ids and the offset 0, or its newest id and its offset
  -- are those of one message that the predicate holds of.
  pub Reaches-AllAgree :
      {a : Actor} (p : Phase)
      → Reaches P digest clock zero_state handler config a p
      → AllAgree n P a.sent
  Reaches-AllAgree p r = (Reaches-Tracks p r).agree

  -- When the run of an actor that was reached so has ended, by its stop or by a panic of a handler, its
  -- context is cancelled, and the last two messages it sent are a snapshot of its final offset, state and
  -- ids, and then that it has stopped.
  pub Reaches-Closes :
      {a : Actor} → Reaches P digest clock zero_state handler config a ended → Closes a
  Reaches-Closes r = (Reaches-After r).1

  -- In every actor that was reached so and whose loop goes on, alive sends nothing: it reads the clock
  -- and sets its timer again.
  pub alive_lem :
      {a : Actor}
      → Reaches P digest clock zero_state handler config a looping
      → alive clock a
        ≡ ok (record a { readings = suc a.readings; alive_timer = some (seconds (pos alive_time)) })
  alive_lem {a} r =
      alive-quiet n (dedup_cap_pos config) P clock a (Reaches-Tracks looping r).unadvanced
