-- ===== src/Core/Handlers.antt =====
-- core/handler.go: the handlers of an actor type, by command, and what a handler may do.
use goactor.Prelude.{Bool, Option, ℤ, Str, Str_discrete}
use goactor.Structs.Map
use goactor.Structs.Map.{Map}
use goactor.Message.{Message, Payload}

-- A handler is code of the application. It acts on its actor by the methods of its Context alone, so
-- one call of it is a script of these: a write through GetState, NewTimer, and NewMessage, on whose
-- result the rest may depend. It ends by returning, with `err == nil` or not, or in a panic.
pub data Script : Type 0 where
  returns : Bool → Script
  panics : Script
  set_state : Str → Script → Script
  new_timer : Str → Str → Payload → ℤ → Script → Script
  new_message : Str → Str → Str → Option Str → (Message → Script) → Script

-- Handler: the script of the actor's id, its state and the message.
abbrev pub Handler : Type 0
Handler = Str → Str → Message → Script

pub record Handlers : Type 0 where
  pub reg : Map Str Handler

-- NewHandlers
unfoldable pub new_handlers : Handlers
new_handlers = record { reg = Map.new_map 0 }

-- Register
unfoldable pub register : Handlers → Str → Handler → Handlers
register h cmd f = record { reg = Map.add_or_update Str_discrete h.reg cmd f }

-- GetHandler
unfoldable pub get_handler : Handlers → Str → Option Handler
get_handler h cmd = Map.get Str_discrete h.reg cmd
