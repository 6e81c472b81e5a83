-- ===== src/Storage/IndexTable/Tests.antt =====
-- An index of numbers in memory.
use redbit.Prelude.{ℕ, ◌≡◌, ◌≢◌, refl, sym, ◌∙◌, subst, true, Option, none, some, List, [], ◌∷◌}
use mathlib.Core.Option.{some_inj, none-ne-some}
use mathlib.Core.Bool.{false≢true}
use redbit.Prelude.Equality.{nat_eq}
use redbit.Prelude.Order.{nat_order}
use redbit.Prelude.Sorting.{sort_by}
use redbit.Storage.Redb.{Removed}
use redbit.Storage.Redb.Memory.{
  memory_table, memory_multimap, memory_cache, memory_table-IsMap, memory_multimap-IsRelation,
  memory_cache-IsCache,
}
use redbit.Storage.PlainTable.{is_sorted_by_key}
use redbit.Storage.PlainTable.Contents.{written}
use redbit.Storage.IndexTable.{
  IndexStore, IndexTable, insert_kv, insert_values, insert_keys, insert_many_sorted_by_key,
  delete_kv, get_any_for_index,
}
use redbit.Storage.IndexTable.Operations.{
  insert_kv-Indexes, IsLawful, IsConsistent, value, delete_kv-Indexes, get_any_for_index_lem,
}
use redbit.Storage.IndexTable.Cache.{hit}
use redbit.Storage.IndexTable.Batch.{insert_many-Indexes}

abbrev numbers : IndexStore ℕ ℕ ℕ
numbers = record {
  index_by_pk = memory_table ℕ;
  pk_by_index = memory_multimap;
  cache = memory_cache;
  cache_key = λ v. v;
}

abbrev numbers-IsLawful : IsLawful numbers
numbers-IsLawful = record {
  keys = nat_eq;
  values = nat_eq;
  cache_keys = nat_eq;
  by_pk = memory_table-IsMap ℕ;
  by_value = memory_multimap-IsRelation;
  cached = memory_cache-IsCache;
  cache_key_inj = λ v w e. e;
}

abbrev empty : IndexTable numbers
empty = record { index_by_pk = []; pk_by_index = []; cache = some [] }

empty-IsConsistent : IsConsistent numbers-IsLawful [] empty
empty-IsConsistent = record {
  listed = λ k v h. absurd (none-ne-some v h);
  stored = λ k v h. absurd (false≢true h);
  cached = λ k v h. absurd (none-ne-some k h);
}

-- Two keys with the same value: the cache knows the last one, and its deletion leaves the other.
abbrev two_keys : List (ℕ × ℕ)
two_keys = (3, 7) ∷ (5, 7) ∷ []

two_keys-IsSorted : is_sorted_by_key nat_order two_keys ≡ true
unfolding is_sorted_by_key
two_keys-IsSorted = refl

-- As the test `inserting_in_wrong_order_should_fail` has it.
wrong_order_fails :
    insert_many_sorted_by_key numbers true nat_order nat_order ((4, 1) ∷ (3, 2) ∷ []) empty ≡ none
unfolding insert_many_sorted_by_key is_sorted_by_key
wrong_order_fails = refl

two_keys_cached :
    insert_many_sorted_by_key numbers true nat_order nat_order two_keys empty
    ≡ some (record {
      index_by_pk = (5, 7) ∷ (3, 7) ∷ [];
      pk_by_index = (7, 3 ∷ 5 ∷ []) ∷ [];
      cache = some ((7, 5) ∷ []);
    })
unfolding insert_many_sorted_by_key insert_values insert_keys sort_by is_sorted_by_key
two_keys_cached = refl

insert_many-Indexes_example :
    (t' : IndexTable numbers) × (insert_many_sorted_by_key numbers true nat_order nat_order two_keys
        empty
      ≡ some t')
    × ((j : ℕ)
        → value numbers-IsLawful t' j ≡ written nat_eq two_keys j (value numbers-IsLawful empty j))
    × IsConsistent numbers-IsLawful [] t'
insert_many-Indexes_example =
    insert_many-Indexes numbers-IsLawful true nat_order nat_order two_keys empty empty-IsConsistent
      two_keys-IsSorted (λ j w m. refl)

-- An index with one key.
abbrev one_key : IndexTable numbers
one_key = record {
  index_by_pk = (3, 7) ∷ [];
  pk_by_index = (7, 3 ∷ []) ∷ [];
  cache = some ((7, 3) ∷ []);
}

one_key_inserted : insert_kv numbers 3 7 empty ≡ some one_key
unfolding insert_kv
one_key_inserted = refl

one_key-IsConsistent : IsConsistent numbers-IsLawful [] one_key
one_key-IsConsistent =
    let (t', done, up, ok) = insert_kv-Indexes numbers-IsLawful 3 7 empty empty-IsConsistent refl in
    subst (IsConsistent numbers-IsLawful []) (some_inj.0 (sym done ∙ one_key_inserted)) ok

delete_kv-Indexes_example :
    (t' : IndexTable numbers) × (delete_kv numbers 3 one_key ≡ some (t', true))
    × Removed nat_eq (value numbers-IsLawful one_key) 3 (value numbers-IsLawful t')
    × IsConsistent numbers-IsLawful [] t'
delete_kv-Indexes_example = delete_kv-Indexes numbers-IsLawful 3 one_key one_key-IsConsistent

get_any_for_index_lem_example :
    (t' : IndexTable numbers) × (found : Option ℕ) × (get_any_for_index numbers 7 one_key
      ≡ some (t', found))
    × ((k : ℕ) → found ≡ some k → value numbers-IsLawful one_key k ≡ some 7)
    × (found ≡ none → (k : ℕ) → value numbers-IsLawful one_key k ≢ some 7)
    × (t'.index_by_pk ≡ one_key.index_by_pk)
    × (t'.pk_by_index ≡ one_key.pk_by_index)
    × ((ck : ℕ)
        → hit numbers-IsLawful.cached t'.cache ck ≡ hit numbers-IsLawful.cached one_key.cache ck)
    × IsConsistent numbers-IsLawful [] t'
get_any_for_index_lem_example =
    get_any_for_index_lem numbers-IsLawful 7 one_key one_key-IsConsistent
