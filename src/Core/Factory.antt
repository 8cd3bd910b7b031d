-- ===== src/Core/Factory.antt =====
-- core/factory.go: how the actors of each type are made.
use mathlib.Core.List.{lookup}
use goactor.Prelude.{List, [], Option, none, some, Str, Str_discrete}
use goactor.Prelude.Assoc.{insert}
use goactor.Core.Handlers.{Handlers}
use goactor.Core.Actor.{Actor, ActorConfig, new_actor}

abbrev pub Maker : Type 0
Maker = ActorConfig → Actor

pub record Factory : Type 0 where
  pub list : List (Str × Maker)

-- NewFactory
unfoldable pub new_factory : Factory
new_factory = record { list = [] }

-- FactoryWarp, for actors whose zero state is `zero_state`
unfoldable pub factory_warp : Str → Option Handlers → Maker
factory_warp zero_state handler config = record (new_actor zero_state config) { handler = handler }

-- Register
unfoldable pub register : Factory → Str → Maker → Factory
register r actor_type f = record { list = insert Str_discrete actor_type f r.list }

-- New: nothing if the type is not registered
unfoldable pub new : Factory → ActorConfig → Option Actor
new r config = elim (lookup Str_discrete config.typ r.list) [
  | none ↦ none
  | some f ↦ some (f config)
]
