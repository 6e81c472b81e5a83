-- ===== src/Storage/Readers/Tests.antt =====
-- A table in memory of two shards.
use redbit.Prelude.{ℕ, ◌%◌, ◌≡◌, refl, true, Option, some, List, [], ◌∷◌, arith}
use redbit.Prelude.Equality.{nat_eq}
use redbit.Storage.Redb.Memory.{memory_table, memory_table-IsMap}
use redbit.Prelude.Order.{nat_order}
use redbit.Storage.PlainTable.{is_sorted_by_key}
use redbit.Storage.PlainTable.Contents.{written}
use redbit.Storage.Readers.{plain_get_value}
use redbit.Storage.Readers.Routed.{write_shards, plain_get_value-written}

abbrev some_pairs : List (ℕ × ℕ)
some_pairs = (4, 0) ∷ (5, 1) ∷ (8, 2) ∷ []

some_pairs-IsSorted : is_sorted_by_key nat_order some_pairs ≡ true
unfolding is_sorted_by_key
some_pairs-IsSorted = refl

abbrev two_shards : List (List (ℕ × ℕ))
two_shards = ((4, 7) ∷ []) ∷ [] ∷ []

plain_get_value-written_example :
    (shards' : List (List (ℕ × ℕ))) × (write_shards
        (memory_table ℕ)
        (memory_table-IsMap ℕ)
        true
        nat_order
        (λ k. k % 2)
        some_pairs
        0
        two_shards
      ≡ some shards')
    × ((k : ℕ)
        → (old : Option ℕ) × (plain_get_value (memory_table ℕ) (λ k. k % 2) two_shards k ≡ some old)
          × (plain_get_value (memory_table ℕ) (λ k. k % 2) shards' k
              ≡ some (written nat_eq some_pairs k old)))
plain_get_value-written_example =
    plain_get_value-written (memory_table ℕ) (memory_table-IsMap ℕ) true nat_order (λ k. k % 2)
      some_pairs two_shards some_pairs-IsSorted (λ k. omega arith)
