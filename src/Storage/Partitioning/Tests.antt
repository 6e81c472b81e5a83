-- ===== src/Storage/Partitioning/Tests.antt =====
-- The partitioners and the increment on concrete bytes.
use redbit.Prelude.{ℕ, ◌≡◌, ◌%◌, refl, none, some, List, [], ◌∷◌, arith}
use redbit.Storage.Partitioning.{
  partition_bytes_le, partition_key_redb, fold_bytes, le_mod_fold_chunk, inc_le, new,
}
use redbit.Storage.Partitioning.Shards.{le_value, AllBytes, partition-le_value}

abbrev key : List ℕ
key = 7 ∷ 1 ∷ 2 ∷ 0 ∷ []

abbrev key-AllBytes : AllBytes key
key-AllBytes = (omega arith, (omega arith, (omega arith, (omega arith, tt))))

abbrev full : List ℕ
full = 255 ∷ 255 ∷ 3 ∷ []

abbrev full-AllBytes : AllBytes full
full-AllBytes = (omega arith, (omega arith, (omega arith, tt)))

new_zero : new 0 ≡ none
unfolding new
new_zero = refl

shard_of_key : partition_key_redb 5 key ≡ some 0
unfolding fold_bytes le_mod_fold_chunk partition_bytes_le partition_key_redb
shard_of_key = refl

carry_twice : inc_le full ≡ 0 ∷ 0 ∷ 4 ∷ []
unfolding inc_le
carry_twice = refl

partition-le_value_example : partition_bytes_le 5 key ≡ le_value key % 5
partition-le_value_example = partition-le_value 5 key (omega arith) (omega arith) key-AllBytes
