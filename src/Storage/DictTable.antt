-- ===== src/Storage/DictTable.antt =====
-- redbit/src/storage/table_dict_write.rs: `DictTable`, which stores each distinct value once, under
-- the first key that had it (its birth id), and of every key the birth id of its value; with an
-- optional LRU cache from a value's cache key to its birth id. Of table_dict_read.rs the look-ups of
-- one shard. `none` is an error; `V::cache_key` is a parameter.
mod Tests
pub mod Consistency
pub mod Removal
pub mod Lookup
pub mod Operations
pub mod Deletion
pub mod Reading
pub mod Batch
use redbit.Prelude.{if◌then◌else◌, Bool, true, false, Option, none, some, List, [], ◌∷◌, ◌++◌}
use redbit.Prelude.Order.{KeyOrder}
use redbit.Prelude.Sorting.{sort_by}
use redbit.Storage.Redb.{Table, Multimap, Lru}
use redbit.Storage.PlainTable.{is_refused, ◌>>=◌}
use redbit.Storage.IndexTable.{cache_put, cache_pop, cache_get}

-- The tables and the cache that a dictionary uses.
pub record DictStore (K V CK : Type 0) : Type 1 where
  pub dict_pk_to_keys : Multimap K K
  pub value_by_dict_pk : Table K V
  pub value_to_dict_pk : Table V K
  pub dict_pk_by_key : Table K K
  pub cache : Lru CK K
  pub cache_key : V → CK

pub record DictTable {K V CK : Type 0} (S : DictStore K V CK) : Type 0 where
  pub dict_pk_to_keys : S.dict_pk_to_keys.State
  pub value_by_dict_pk : S.value_by_dict_pk.State
  pub value_to_dict_pk : S.value_to_dict_pk.State
  pub dict_pk_by_key : S.dict_pk_by_key.State
  pub cache : Option S.cache.State

-- The writes that a batch defers: pairs of a birth id and a key, and of a value and its birth id.
pub record Deferred (K V : Type 0) : Type 0 where
  pub pk_to_keys_batch : List (K × K)
  pub value_to_pk_batch : List (V × K)

module _ {K V CK : Type 0} (S : DictStore K V CK) where
  -- A key gets the birth id of a value that the dictionary has.
  unfoldable pub link_key : K → K → DictTable S → Option (DictTable S)
  link_key key birth_id t = do
    dict_pk_by_key ← S.dict_pk_by_key.insert t.dict_pk_by_key key birth_id
    dict_pk_to_keys ← S.dict_pk_to_keys.insert t.dict_pk_to_keys birth_id key
    some (record t { dict_pk_by_key = dict_pk_by_key; dict_pk_to_keys = dict_pk_to_keys })

  -- A key becomes the birth id of a new value.
  unfoldable pub new_value : K → V → DictTable S → Option (DictTable S)
  new_value key value t = do
    value_to_dict_pk ← S.value_to_dict_pk.insert t.value_to_dict_pk value key
    value_by_dict_pk ← S.value_by_dict_pk.insert t.value_by_dict_pk key value
    dict_pk_by_key ← S.dict_pk_by_key.insert t.dict_pk_by_key key key
    dict_pk_to_keys ← S.dict_pk_to_keys.insert t.dict_pk_to_keys key key
    some (record {
      dict_pk_to_keys = dict_pk_to_keys;
      value_by_dict_pk = value_by_dict_pk;
      value_to_dict_pk = value_to_dict_pk;
      dict_pk_by_key = dict_pk_by_key;
      cache = cache_put S.cache (S.cache_key value) key t.cache;
    })

  unfoldable pub insert_kv : K → V → DictTable S → Option (DictTable S)
  insert_kv key value t = do
    let (cache, hit) = cache_get S.cache (S.cache_key value) t.cache
    let t' = record t { cache = cache }
    elim hit [
      | some birth_id ↦ link_key key birth_id t'
      | none ↦ do
        found ← S.value_to_dict_pk.get t.value_to_dict_pk value
        elim found [
          | some birth_id ↦
              link_key key birth_id
                (record t' { cache = cache_put S.cache (S.cache_key value) birth_id cache })
          | none ↦ new_value key value t'
        ]
    ]

  -- A key gets the birth id of a value that the dictionary has, in the first loop of a batch.
  unfoldable pub defer_key :
      K → K → DictTable S × Deferred K V → Option (DictTable S × Deferred K V)
  defer_key key birth_id (t, d) = do
    dict_pk_by_key ← S.dict_pk_by_key.insert t.dict_pk_by_key key birth_id
    some (
      record t { dict_pk_by_key = dict_pk_by_key },
      record d { pk_to_keys_batch = d.pk_to_keys_batch ++ (birth_id, key) ∷ [] },
    )

  -- A key becomes the birth id of a new value, in the first loop of a batch.
  unfoldable pub defer_value :
      K → V → DictTable S × Deferred K V → Option (DictTable S × Deferred K V)
  defer_value key value (t, d) = do
    dict_pk_by_key ← S.dict_pk_by_key.insert t.dict_pk_by_key key key
    value_by_dict_pk ← S.value_by_dict_pk.insert t.value_by_dict_pk key value
    some (
      record t {
        dict_pk_by_key = dict_pk_by_key;
        value_by_dict_pk = value_by_dict_pk;
        cache = cache_put S.cache (S.cache_key value) key t.cache;
      },
      record {
        pk_to_keys_batch = d.pk_to_keys_batch ++ (key, key) ∷ [];
        value_to_pk_batch = d.value_to_pk_batch ++ (value, key) ∷ [];
      },
    )

  -- One round of the first loop of `insert_many_sorted_by_key`.
  unfoldable pub defer_pair :
      K → V → DictTable S × Deferred K V → Option (DictTable S × Deferred K V)
  defer_pair key value (t, d) = do
    let (cache, hit) = cache_get S.cache (S.cache_key value) t.cache
    let t' = record t { cache = cache }
    elim hit [
      | some birth_id ↦ defer_key key birth_id (t', d)
      | none ↦ do
        found ← S.value_to_dict_pk.get t.value_to_dict_pk value
        elim found [
          | some birth_id ↦
              defer_key key birth_id
                (record t' { cache = cache_put S.cache (S.cache_key value) birth_id cache }, d)
          | none ↦ defer_value key value (t', d)
        ]
    ]

  unfoldable pub defer_pairs :
      List (K × V) → DictTable S × Deferred K V → Option (DictTable S × Deferred K V)
  defer_pairs [] s = some s
  defer_pairs ((k, v) ∷ pairs) s = do s' ← defer_pair k v s; defer_pairs pairs s'

  -- The second and the third loop.
  unfoldable pub flush_keys : List (K × K) → DictTable S → Option (DictTable S)
  flush_keys [] t = some t
  flush_keys ((birth_id, key) ∷ batch) t = do
    dict_pk_to_keys ← S.dict_pk_to_keys.insert t.dict_pk_to_keys birth_id key
    flush_keys batch (record t { dict_pk_to_keys = dict_pk_to_keys })

  unfoldable pub flush_values : List (V × K) → DictTable S → Option (DictTable S)
  flush_values [] t = some t
  flush_values ((value, birth_id) ∷ batch) t = do
    value_to_dict_pk ← S.value_to_dict_pk.insert t.value_to_dict_pk value birth_id
    flush_values batch (record t { value_to_dict_pk = value_to_dict_pk })

  unfoldable pub insert_many_sorted_by_key :
      Bool → KeyOrder K → KeyOrder V → List (K × V) → DictTable S → Option (DictTable S)
  insert_many_sorted_by_key cfg_test key_order value_order pairs t =
      if is_refused cfg_test key_order pairs then none else do
        (t1, d) ← defer_pairs pairs (t, record { pk_to_keys_batch = []; value_to_pk_batch = [] })
        t2 ← flush_keys (sort_by (λ (p : K × K). p.0) key_order d.pk_to_keys_batch) t1
        flush_values (sort_by (λ (p : V × K). p.0) value_order d.value_to_pk_batch) t2

  -- A value goes with its last key.
  unfoldable pub drop_value : K → DictTable S → Option (DictTable S)
  drop_value birth_id t = do
    (value_by_dict_pk, found) ← S.value_by_dict_pk.remove t.value_by_dict_pk birth_id
    let t' = record t { value_by_dict_pk = value_by_dict_pk }
    elim found [
      | none ↦ some t'
      | some value ↦ do
        (value_to_dict_pk, _) ← S.value_to_dict_pk.remove t.value_to_dict_pk value
        some (record t' {
          value_to_dict_pk = value_to_dict_pk;
          cache = cache_pop S.cache (S.cache_key value) t.cache;
        })
    ]

  unfoldable pub delete_kv : K → DictTable S → Option (DictTable S × Bool)
  delete_kv key t = do
    (dict_pk_by_key, found) ← S.dict_pk_by_key.remove t.dict_pk_by_key key
    let t1 = record t { dict_pk_by_key = dict_pk_by_key }
    elim found [
      | none ↦ some (t1, false)
      | some birth_id ↦ do
        (dict_pk_to_keys, was_removed) ← S.dict_pk_to_keys.remove t.dict_pk_to_keys birth_id key
        let t2 = record t1 { dict_pk_to_keys = dict_pk_to_keys }
        rest ← S.dict_pk_to_keys.get dict_pk_to_keys birth_id
        elim rest [
          | [] ↦ do t3 ← drop_value birth_id t2; some (t3, was_removed)
          | _ ∷ _ ↦ some (t2, was_removed)
        ]
    ]

  -- `get_value` and `dict_keys` of table_dict_read.rs, of one shard
  unfoldable pub get_value : K → DictTable S → Option (Option V)
  get_value key t = do
    birth ← S.dict_pk_by_key.get t.dict_pk_by_key key
    elim birth [
      | none ↦ some none
      | some birth_id ↦ S.value_by_dict_pk.get t.value_by_dict_pk birth_id
    ]

  unfoldable pub dict_keys : V → DictTable S → Option (Option (List K))
  dict_keys value t = do
    birth ← S.value_to_dict_pk.get t.value_to_dict_pk value
    elim birth [
      | none ↦ some none
      | some birth_id ↦ do keys ← S.dict_pk_to_keys.get t.dict_pk_to_keys birth_id; some (some keys)
    ]
