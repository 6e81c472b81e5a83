-- ===== src/Storage/Partitioning.antt =====
-- redbit/src/storage/partitioning.rs: the shard of a key, its little-endian bytes modulo the number
-- of shards, and the shard of a value, its hash modulo that number. `none` is the panic of
-- `assert!(n > 0)`. The hash `xxh3_64` is a parameter. With it `inc_le` of redbit/src/utils.rs.
pub mod Shards
pub mod Increment
mod Tests
use redbit.Prelude.{
  ℕ, ◌+◌, ◌*◌, ◌%◌, Bool, Option, none, some, List, [], ◌∷◌, ◌==◌, ltb, if◌then◌else◌, u128_mod,
}

-- The loop of `le_mod_fold_chunk` over `pow` and `acc`, on `u128`.
unfoldable pub fold_bytes : ℕ → ℕ → ℕ → List ℕ → ℕ × ℕ
fold_bytes m p a [] = (p, a)
fold_bytes m p a (b ∷ chunk) =
    fold_bytes m ((p * 256) % u128_mod % m) ((a + b * p % u128_mod) % u128_mod % m) chunk

unfoldable pub le_mod_fold_chunk : ℕ → ℕ × ℕ → List ℕ → ℕ × ℕ
unfolding fold_bytes
le_mod_fold_chunk m (pow, acc) chunk = if m == 1 then (pow, acc) else fold_bytes m pow acc chunk

unfoldable pub partition_bytes_le : ℕ → List ℕ → ℕ
unfolding le_mod_fold_chunk
partition_bytes_le n bytes = if n == 1 then 0 else (le_mod_fold_chunk n (1, 0) bytes).1 % n

-- `new` of `BytesPartitioner` and `Xxh3Partitioner`, which hold the number of shards.
unfoldable pub new : ℕ → Option ℕ
new n = if ltb 0 n then some n else none

-- `partition_key_redb`, over the bytes of the key.
unfoldable pub partition_key_redb : ℕ → List ℕ → Option ℕ
partition_key_redb n bytes = if ltb 0 n then some (partition_bytes_le n bytes) else none

-- `Xxh3Partitioner::partition_bytes`
unfoldable pub partition_hash : (List ℕ → ℕ) → ℕ → List ℕ → ℕ
partition_hash xxh3_64 n bytes = xxh3_64 bytes % n

-- `inc_le`: the bytes after the increment.
unfoldable pub inc_le : List ℕ → List ℕ
inc_le [] = []
inc_le (b ∷ bytes) = if b == 0xFF then 0 ∷ inc_le bytes else ((b + 1) % 256) ∷ bytes
