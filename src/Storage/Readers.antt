-- ===== src/Storage/Readers.antt =====
-- The look-ups over the shards of a table: redbit/src/storage/table_plain_read.rs,
-- table_index_read.rs and table_dict_read.rs. The partitioner is a function into shards; `none` is a
-- storage error, or the panic of a shard that is not there.
pub mod Routed
mod Tests
use redbit.Prelude.{
  ℕ, zero, suc, Bool, true, false, ◌==◌, Option, none, some, List, [], ◌∷◌, if◌then◌else◌, length,
  get_elem?, saturating_add,
}
use redbit.Storage.Redb.{Table}
use redbit.Storage.PlainTable.{◌>>=◌}
use redbit.Storage.IndexTable.{IndexStore, IndexTable}
use redbit.Storage.DictTable.{DictStore, DictTable, dict_keys}

-- The shard of a key or a value among the shards there are.
abbrev pub select_shard : {A S : Type 0} → (A → ℕ) → List S → A → Option S
select_shard f shards a = if length shards == 1 then get_elem? shards 0 else get_elem? shards (f a)

module _ {K V : Type 0} (T : Table K V) where
  unfoldable pub plain_get_value : (K → ℕ) → List T.State → K → Option (Option V)
  plain_get_value f shards key = do shard ← select_shard f shards key; T.get shard key

module _ {K V CK : Type 0} (S : IndexStore K V CK) where
  -- The first shard that has the key answers.
  unfoldable pub index_get_value : List (IndexTable S) → K → Option (Option V)
  index_get_value [] key = some none
  index_get_value (shard ∷ shards) key = do
    found ← S.index_by_pk.get shard.index_by_pk key
    elim found [ some value ↦ some (some value) | none ↦ index_get_value shards key ]

  unfoldable pub index_keys : (V → ℕ) → List (IndexTable S) → V → Option (List K)
  index_keys f shards value = do
    shard ← select_shard f shards value
    S.pk_by_index.get shard.pk_by_index value

module _ {K V CK : Type 0} (S : DictStore K V CK) where
  -- The first shard that has a birth id for the key answers.
  unfoldable pub dict_get_value : List (DictTable S) → K → Option (Option V)
  dict_get_value [] key = some none
  dict_get_value (shard ∷ shards) key = do
    birth ← S.dict_pk_by_key.get shard.dict_pk_by_key key
    elim birth [
      | some birth_id ↦ S.value_by_dict_pk.get shard.value_by_dict_pk birth_id
      | none ↦ dict_get_value shards key
    ]

  unfoldable pub sharded_dict_keys : (V → ℕ) → List (DictTable S) → V → Option (Option (List K))
  sharded_dict_keys f shards value = do shard ← select_shard f shards value; dict_keys S value shard
