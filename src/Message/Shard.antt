-- ===== src/Message/Shard.antt =====
-- message/mm/shard.go: the shard of an actor, by 32-bit FNV-1a.
use Prim.Native.Nat.{bit_xor}
use goactor.Prelude.{ℕ, ◌*◌, ◌%◌, ◌^◌, ◌≡◌, refl, [], ◌∷◌, arith, ℤ, pos, ◌≤ℤ◌, ◌<ℤ◌, Str, bytes}

abbrev pub shard_count : ℕ
shard_count = 1024

-- Go's hash/fnv: `New32a`, `Write` and `Sum32`.
unfoldable pub fnv1a : ℕ → Str → ℕ
fnv1a h [] = h
fnv1a h (b ∷ bs) = fnv1a ((bit_xor h b * 16777619) % 2 ^ 32) bs

-- ActorShardID
unfoldable pub actor_shard_id : Str → ℤ
unfolding fnv1a
actor_shard_id actor_id = pos (fnv1a 2166136261 actor_id % shard_count)

-- ActorShardID of every actor id is at least 0 and below ShardCount.
pub actor_shard_id_bounds :
    (actor_id : Str)
    → (pos 0 ≤ℤ actor_shard_id actor_id) × (actor_shard_id actor_id <ℤ pos shard_count)
unfolding actor_shard_id
actor_shard_id_bounds actor_id = omega arith

-- message/mm/shard_test.go
routing :
    (actor_shard_id [] ≡ pos 453)
    × (actor_shard_id (bytes "actor-1") ≡ pos 460)
    × (actor_shard_id (bytes "receiver") ≡ pos 624)
unfolding actor_shard_id
routing = (refl, refl, refl)
