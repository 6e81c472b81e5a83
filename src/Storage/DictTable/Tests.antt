-- ===== src/Storage/DictTable/Tests.antt =====
-- A dictionary of numbers in memory.
use redbit.Prelude.{ℕ, ◌≡◌, refl, sym, ◌∙◌, subst, true, none, some, inl, inr, ap, List, [], ◌∷◌}
use mathlib.Core.Option.{some_inj, none-ne-some}
use mathlib.Core.Bool.{false≢true}
use redbit.Prelude.Equality.{nat_eq}
use redbit.Prelude.Order.{nat_order}
use redbit.Storage.Redb.{Updated, Removed}
use redbit.Storage.Redb.Memory.{
  memory_table, memory_multimap, memory_cache, memory_table-IsMap, memory_multimap-IsRelation,
  memory_cache-IsCache,
}
use redbit.Storage.PlainTable.Contents.{written}
use redbit.Storage.DictTable.{
  DictStore, DictTable, new_value, insert_kv, insert_many_sorted_by_key, delete_kv, dict_keys,
  defer_pairs, defer_pair, defer_key, defer_value, flush_keys, flush_values,
}
use redbit.Storage.DictTable.Operations.{IsLawful, IsDict, value, insert_kv-IsDict}
use redbit.Storage.DictTable.Deletion.{delete_kv-IsDict}
use redbit.Storage.DictTable.Batch.{IsUnused, insert_many-IsDict}
use redbit.Storage.PlainTable.{is_sorted_by_key, ◌>>=◌}
use mathlib.Core.List.{Memᴰ}
use mathlib.Core.List.Memᴰ
use redbit.Prelude.Sorting.{sort_by}

abbrev numbers : DictStore ℕ ℕ ℕ
numbers = record {
  dict_pk_to_keys = memory_multimap;
  value_by_dict_pk = memory_table ℕ;
  value_to_dict_pk = memory_table ℕ;
  dict_pk_by_key = memory_table ℕ;
  cache = memory_cache;
  cache_key = λ v. v;
}

abbrev numbers-IsLawful : IsLawful numbers
numbers-IsLawful = record {
  keys = nat_eq;
  values = nat_eq;
  cache_keys = nat_eq;
  births = memory_table-IsMap ℕ;
  stored = memory_table-IsMap ℕ;
  ids = memory_table-IsMap ℕ;
  members = memory_multimap-IsRelation;
  cached = memory_cache-IsCache;
  cache_key_inj = λ v w e. e;
}

abbrev empty : DictTable numbers
empty = record {
  dict_pk_to_keys = [];
  value_by_dict_pk = [];
  value_to_dict_pk = [];
  dict_pk_by_key = [];
  cache = some [];
}

empty-IsDict : IsDict numbers-IsLawful empty
empty-IsDict = (
  record {
    keyed = λ k b h. absurd (none-ne-some b h);
    listed = λ k b h. absurd (false≢true h);
    valued = λ k b h. absurd (none-ne-some b h);
    born = λ v b h. absurd (none-ne-some b h);
    cached = λ v b h. absurd (none-ne-some b h);
  },
  record { found = λ b v h. absurd (none-ne-some v h) },
)

-- One key with a value, which is its birth id.
abbrev one_key : DictTable numbers
one_key = record {
  dict_pk_to_keys = (3, 3 ∷ []) ∷ [];
  value_by_dict_pk = (3, 7) ∷ [];
  value_to_dict_pk = (7, 3) ∷ [];
  dict_pk_by_key = (3, 3) ∷ [];
  cache = some ((7, 3) ∷ []);
}

one_key_inserted : insert_kv numbers 3 7 empty ≡ some one_key
unfolding insert_kv new_value
one_key_inserted = refl

insert_kv-IsDict_example :
    (t' : DictTable numbers) × (insert_kv numbers 3 7 empty ≡ some t')
    × Updated nat_eq (value numbers-IsLawful empty) 3 7 (value numbers-IsLawful t')
    × IsDict numbers-IsLawful t'
insert_kv-IsDict_example = insert_kv-IsDict numbers-IsLawful 3 7 empty empty-IsDict refl refl

one_key-IsDict : IsDict numbers-IsLawful one_key
one_key-IsDict =
    let (t', done, up, ok) = insert_kv-IsDict numbers-IsLawful 3 7 empty empty-IsDict refl refl in
    subst (IsDict numbers-IsLawful) (some_inj.0 (sym done ∙ one_key_inserted)) ok

delete_kv-IsDict_example :
    (t' : DictTable numbers) × (delete_kv numbers 3 one_key ≡ some (t', true))
    × Removed nat_eq (value numbers-IsLawful one_key) 3 (value numbers-IsLawful t')
    × IsDict numbers-IsLawful t'
delete_kv-IsDict_example = delete_kv-IsDict numbers-IsLawful 3 one_key one_key-IsDict

-- A key for the value that is there, and one for a new value.
abbrev two_keys : List (ℕ × ℕ)
two_keys = (5, 7) ∷ (6, 8) ∷ []

two_keys-IsSorted : is_sorted_by_key nat_order two_keys ≡ true
unfolding is_sorted_by_key
two_keys-IsSorted = refl

two_keys-IsUnused : (j w : ℕ) → Memᴰ (j, w) two_keys → IsUnused numbers-IsLawful one_key j
two_keys-IsUnused j w m = elim (Memᴰ.cases_cons m) [
  | inl e ↦ subst (IsUnused numbers-IsLawful one_key) (sym (ap (λ p. p.0) e)) (refl, refl)
  | inr m' ↦
      subst (IsUnused numbers-IsLawful one_key) (sym (ap (λ p. p.0) (Memᴰ.eq_of_singleton m')))
        (refl, refl)
]

insert_many-IsDict_example :
    (t' : DictTable numbers) × (insert_many_sorted_by_key numbers true nat_order nat_order two_keys
        one_key
      ≡ some t')
    × ((j : ℕ)
        → value numbers-IsLawful t' j
          ≡ written nat_eq two_keys j (value numbers-IsLawful one_key j))
    × IsDict numbers-IsLawful t'
insert_many-IsDict_example =
    insert_many-IsDict numbers-IsLawful true nat_order nat_order two_keys one_key one_key-IsDict
      two_keys-IsSorted two_keys-IsUnused
      (inl (3, refl), (inr (λ j w m. absurd (Memᴰ.not-nil m)), tt))

-- Without a cache a new value that stands twice in a batch gets two birth ids, and the keys of the
-- first one are not found by the value.
twice_loses_key :
    (do
      t ←
          insert_many_sorted_by_key numbers true nat_order nat_order
            ((3, 7) ∷ (5, 7) ∷ [])
            (record empty { cache = none })
      dict_keys numbers 7 t)
    ≡ some (some (5 ∷ []))
unfolding insert_many_sorted_by_key is_sorted_by_key dict_keys defer_pairs defer_pair defer_key
    defer_value flush_keys flush_values sort_by
twice_loses_key = refl
