-- ===== src/Storage/DictTable/Batch/Flushes.antt =====
-- The second and the third loop of `insert_many_sorted_by_key` of a dictionary.
use redbit.Prelude.{◌≡◌, refl, ap, ap₂, ◌∙◌, true, some, List, [], ◌∷◌}
use mathlib.Core.List.{Memᴰ}
use mathlib.Core.List.Memᴰ
use redbit.Storage.Redb.Views.{added_here, added_keeps}
use redbit.Storage.DictTable.{DictStore, DictTable, flush_keys, flush_values}
use redbit.Storage.DictTable.Consistency.{AreFound, key-Tables, born-Tables}
use redbit.Storage.DictTable.Operations.{
  IsLawful, birth, value_of, birth_of, lists, value, IsConsistent,
}
use redbit.Storage.DictTable.Batch.Pending.{ArePending, ArePending-AreFound, ArePending-flushed}

module _ {K V CK : Type 0} {S : DictStore K V CK} (L : IsLawful S) where
  -- The second loop lists each key for its birth id.
  pub flush_keys_lem :
      (batch pending : List (K × K)) (t : DictTable S)
      → IsConsistent L pending t
      → ((b k : K) → Memᴰ (b, k) batch → birth L t k ≡ some b)
      → (t' : DictTable S) × (flush_keys S batch t ≡ some t')
        × ((j : K) → value L t' j ≡ value L t j)
        × ((j : K) → value_of L t' j ≡ value_of L t j)
        × ((w : V) → birth_of L t' w ≡ birth_of L t w)
        × ((b k : K) → lists L t b k ≡ true → lists L t' b k ≡ true)
        × ((b k : K) → Memᴰ (b, k) batch → lists L t' b k ≡ true)
        × IsConsistent L pending t'
  unfolding flush_keys
  flush_keys_lem [] pending t ok there =
      (t, refl, λ j. refl, λ j. refl, λ w. refl, λ b k h. h, λ b k m. absurd (Memᴰ.not-nil m), ok)
  flush_keys_lem ((b, k) ∷ batch) pending t ok there =
      let (to_keys, done, add) = L.members.insert_ok t.dict_pk_to_keys b k in
      let t1 : DictTable S = record t { dict_pk_to_keys = to_keys } in
      let ok1 : IsConsistent L pending t1 =
        key-Tables S.cache_key L.keys (there b k (Memᴰ.head refl)) add ok in
      let (t2, done', same, same', ids, kept, listed, ok2) =
        flush_keys_lem batch pending t1 ok1 (λ c j m. there c j (Memᴰ.tail m)) in
      rw (flush_keys, done)
        (
          t2,
          done',
          same,
          same',
          ids,
          λ c j h. kept c j (added_keeps L.keys L.keys add h),
          λ c j m. elim m [
            | Memᴰ.head e ↦ kept c j (
                ap₂ (lists L t1) (ap (λ p. p.0) e) (ap (λ p. p.1) e) ∙ added_here L.keys L.keys add)
            | Memᴰ.tail m' ↦ listed c j m'
          ],
          ok2,
        )

  -- The third loop gives each value a birth id.
  pub flush_values_lem :
      (batch : List (V × K)) (t : DictTable S)
      → IsConsistent L [] t
      → ((v : V) (b : K) → Memᴰ (v, b) batch → value_of L t b ≡ some v)
      → ArePending (value_of L t) (birth_of L t) batch
      → (t' : DictTable S) × (flush_values S batch t ≡ some t')
        × ((j : K) → value L t' j ≡ value L t j)
        × IsConsistent L [] t'
        × AreFound (value_of L t') (birth_of L t')
  unfolding flush_values
  flush_values_lem [] t ok there wait = (t, refl, λ j. refl, ok, ArePending-AreFound wait)
  flush_values_lem ((v, b) ∷ batch) t ok there wait =
      let (to_pk, done, up) = L.ids.insert_ok t.value_to_dict_pk v b in
      let t1 : DictTable S = record t { value_to_dict_pk = to_pk } in
      let ok1 : IsConsistent L [] t1 =
        born-Tables S.cache_key L.values (there v b (Memᴰ.head refl)) up ok in
      let (t2, done', same, ok2, all) =
        flush_values_lem batch t1 ok1 (λ w c m. there w c (Memᴰ.tail m))
          (ArePending-flushed L.values up wait) in
      rw (flush_values, done) (t2, done', same, ok2, all)
