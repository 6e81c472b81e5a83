-- ===== src/Storage/IndexTable.antt =====
-- redbit/src/storage/table_index_write.rs: `IndexTable`, the values of the keys and the keys of each
-- value, with an optional LRU cache from a value's cache key to a key. `none` is an error.
-- `V::cache_key` is a parameter, and the standard library's sort by value is an insertion sort.
pub mod Cache
pub mod Consistency
pub mod Operations
pub mod Batch
mod Tests
use redbit.Prelude.{Bool, true, false, not, Option, none, some, List, [], ◌∷◌, if◌then◌else◌}
use redbit.Prelude.Order.{KeyOrder}
use redbit.Prelude.Sorting.{sort_by}
use redbit.Storage.Redb.{Table, Multimap, Lru}
use redbit.Storage.PlainTable.{is_refused, ◌>>=◌}

-- The tables and the cache that an index uses.
pub record IndexStore (K V CK : Type 0) : Type 1 where
  pub index_by_pk : Table K V
  pub pk_by_index : Multimap V K
  pub cache : Lru CK K
  pub cache_key : V → CK

pub record IndexTable {K V CK : Type 0} (S : IndexStore K V CK) : Type 0 where
  pub index_by_pk : S.index_by_pk.State
  pub pk_by_index : S.pk_by_index.State
  pub cache : Option S.cache.State

module _ {CK K : Type 0} (C : Lru CK K) where
  -- `if let Some(c) = self.cache.as_mut() { c.put(..) }`, and the same with `pop` and `get`
  abbrev pub cache_put : CK → K → Option C.State → Option C.State
  cache_put ck k none = none
  cache_put ck k (some c) = some (C.put c ck k)

  abbrev pub cache_pop : CK → Option C.State → Option C.State
  cache_pop ck none = none
  cache_pop ck (some c) = some (C.pop c ck)

  abbrev pub cache_get : CK → Option C.State → Option C.State × Option K
  cache_get ck none = (none, none)
  cache_get ck (some c) = let (c', hit) = C.get c ck in (some c', hit)

module _ {K V CK : Type 0} (S : IndexStore K V CK) where
  unfoldable pub insert_kv : K → V → IndexTable S → Option (IndexTable S)
  insert_kv key value t = do
    index_by_pk ← S.index_by_pk.insert t.index_by_pk key value
    pk_by_index ← S.pk_by_index.insert t.pk_by_index value key
    some (record {
      index_by_pk = index_by_pk;
      pk_by_index = pk_by_index;
      cache = cache_put S.cache (S.cache_key value) key t.cache;
    })

  -- The first loop of `insert_many_sorted_by_key`, in the order of the keys.
  unfoldable pub insert_values : List (K × V) → IndexTable S → Option (IndexTable S)
  insert_values [] t = some t
  insert_values ((k, v) ∷ pairs) t = do
    index_by_pk ← S.index_by_pk.insert t.index_by_pk k v
    insert_values pairs (record t {
      index_by_pk = index_by_pk;
      cache = cache_put S.cache (S.cache_key v) k t.cache;
    })

  -- The second loop, in the order of the values.
  unfoldable pub insert_keys : List (K × V) → IndexTable S → Option (IndexTable S)
  insert_keys [] t = some t
  insert_keys ((k, v) ∷ pairs) t = do
    pk_by_index ← S.pk_by_index.insert t.pk_by_index v k
    insert_keys pairs (record t { pk_by_index = pk_by_index })

  unfoldable pub insert_many_sorted_by_key :
      Bool → KeyOrder K → KeyOrder V → List (K × V) → IndexTable S → Option (IndexTable S)
  insert_many_sorted_by_key cfg_test key_order value_order pairs t =
      if is_refused cfg_test key_order pairs then none else do
        t' ← insert_values pairs t
        insert_keys (sort_by (λ (p : K × V). p.1) value_order pairs) t'

  unfoldable pub delete_kv : K → IndexTable S → Option (IndexTable S × Bool)
  delete_kv key t = do
    (index_by_pk, found) ← S.index_by_pk.remove t.index_by_pk key
    let t' = record t { index_by_pk = index_by_pk }
    elim found [
      | none ↦ some (t', false)
      | some value ↦ do
        (pk_by_index, removed) ← S.pk_by_index.remove t.pk_by_index value key
        let cache : Option S.cache.State = elim removed [
          | true ↦ cache_pop S.cache (S.cache_key value) t.cache
          | false ↦ t.cache
        ]
        some (record t' { pk_by_index = pk_by_index; cache = cache }, removed)
    ]

  unfoldable pub get_any_for_index : V → IndexTable S → Option (IndexTable S × Option K)
  get_any_for_index value t = do
    let (cache, hit) = cache_get S.cache (S.cache_key value) t.cache
    let t' = record t { cache = cache }
    elim hit [
      | some k ↦ some (t', some k)
      | none ↦ do
        keys ← S.pk_by_index.get t.pk_by_index value
        some (t', elim keys [ [] ↦ none | k ∷ _ ↦ some k ])
    ]
