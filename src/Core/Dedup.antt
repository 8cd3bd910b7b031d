-- ===== src/Core/Dedup.antt =====
-- core/dedup.go: the ids of the messages handled last, in a ring and in a set.
pub mod Refine
pub mod Restore
mod Tests
use goactor.Prelude.{
  Bool, true, false, List, [], ◌∷◌, Option, none, some, if◌then◌else◌, ℤ, pos_part, Str,
  Str_discrete, Run, ok, panic, ◌>>=◌,
}
use goactor.Structs.Ring
use goactor.Structs.Ring.{Ring}
use goactor.Structs.Set
use goactor.Structs.Set.{Set}

pub record Dedup : Type 0 where
  pub queue : Option (Ring Str)
  pub queued : Set Str

-- NewDedup
unfoldable pub new_dedup : ℤ → Dedup
new_dedup limit = record {
  queue = some (Ring.new_ring [] limit);
  queued = Set.new_set (pos_part limit);
}

-- `if ok { d.queued.Del(value) }`
unfoldable pub forget : Set Str → Option Str → Set Str
forget queued none = queued
forget queued (some value) = Set.del Str_discrete queued value

-- The part of Add that makes room: the oldest id leaves the ring and the set.
unfoldable pub make_room : Dedup → Run Dedup
make_room d =
    if Ring.full d.queue
    then (do
      (queue, oldest) ← Ring.pop [] d.queue
      ok (record { queue = queue; queued = forget d.queued oldest }))
    else ok d

-- Add: the new state, and whether the id was new.
unfoldable pub add : Dedup → Str → Run (Dedup × Bool)
add d id = if Set.has Str_discrete d.queued id then ok (d, false) else (do
  roomy ← make_room d
  (queue, _) ← Ring.push roomy.queue id
  ok (record { queue = queue; queued = Set.add Str_discrete roomy.queued id }, true))

unfoldable pub has : Dedup → Str → Bool
has d id = Set.has Str_discrete d.queued id

unfoldable pub reset : Dedup → Dedup
reset d = record { queue = Ring.clear [] d.queue; queued = Set.clear d.queued }

unfoldable pub ids : Dedup → Run (List Str)
ids d = Ring.values d.queue

-- The loop of Restore.
unfoldable pub add_all : Dedup → List Str → Run Dedup
add_all d [] = ok d
add_all d (id ∷ rest) = add d id >>= λ (d', _). add_all d' rest

unfoldable pub restore : Dedup → List Str → Run Dedup
restore d list = add_all (reset d) list
