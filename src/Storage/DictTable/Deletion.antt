-- ===== src/Storage/DictTable/Deletion.antt =====
-- What `delete_kv` does to the values of the keys of a dictionary and to the agreement of its tables.
use redbit.Prelude.{
  ◌≡◌, inl, inr, refl, sym, ap, ◌∙◌, subst, true, false, some, Option-cases, List-cases, List, [],
}
use mathlib.Core.Bool.{false≢true}
use mathlib.Core.List.Memᴰ
use redbit.Prelude.Equality.{Eq}
use redbit.Storage.Redb.{Removed, contains}
use redbit.Storage.Redb.Views.{not-same, removed_other, removed_absent}
use redbit.Storage.PlainTable.{is_some}
use redbit.Storage.IndexTable.{cache_pop}
use redbit.Storage.IndexTable.Cache.{hit, pop-hit}
use redbit.Storage.DictTable.{DictStore, DictTable, drop_value, delete_kv}
use redbit.Storage.DictTable.Consistency.{Tables}
use redbit.Storage.DictTable.Removal.{unlinked-Tables, forgotten-Tables, forgotten-AreFound}
use redbit.Storage.DictTable.Lookup.{lookup-Removed}
use redbit.Storage.DictTable.Operations.{
  IsLawful, birth, value_of, birth_of, lists, value, IsConsistent, IsDict,
}

module _ {K : Type 0} (keys : Eq K) where
  none_contained : (ks : List K) → ks ≡ [] → (k : K) → contains keys ks k ≡ false
  none_contained ks e k = ap (λ l. contains keys l k) e

module _ {K V CK : Type 0} {S : DictStore K V CK} (L : IsLawful S) where
  listed_here :
      (t : DictTable S) → IsDict L t → {k b : K} → birth L t k ≡ some b → lists L t b k ≡ true
  listed_here t (ok, all) {k} {b} at = elim (ok.keyed k b at) [
    | inl l ↦ l
    | inr m ↦ absurd (Memᴰ.not-nil m)
  ]

  -- A value without keys goes, and no key sees it.
  drop_value_lem :
      (b : K) (v : V) (t : DictTable S)
      → IsDict L t
      → value_of L t b ≡ some v
      → ((j : K) → lists L t b j ≡ false)
      → (t' : DictTable S) × (drop_value S b t ≡ some t')
        × ((j : K) → birth L t' j ≡ birth L t j)
        × ((j c : K) → birth L t j ≡ some c → value_of L t' c ≡ value_of L t c)
        × IsDict L t'
  unfolding drop_value
  drop_value_lem b v t (ok, all) at bare =
      let (by_pk, done, gone) = L.stored.remove_ok t.value_by_dict_pk b in
      let (to_pk, done', gone') = L.ids.remove_ok t.value_to_dict_pk v in
      rw (drop_value, done, at, done')
        (
          record t {
            value_by_dict_pk = by_pk;
            value_to_dict_pk = to_pk;
            cache = cache_pop S.cache (S.cache_key v) t.cache;
          },
          refl,
          λ j. refl,
          λ j c h. removed_other L.keys gone (
              not-same L.keys (λ bc.
                false≢true
                  (sym (bare j) ∙ ap (λ x. lists L t x j) bc ∙ listed_here t (ok, all) h))),
          (
            forgotten-Tables S.cache_key L.keys L.values L.cache_keys at gone gone' bare
                (λ j w. pop-hit L.cached t.cache (S.cache_key v) (S.cache_key w) j) ok,
            forgotten-AreFound L.keys L.values at gone gone' all,
          ),
        )

  -- A dictionary forgets a key, and with its last key a value; it says whether it had the key, keeps
  -- the values of the other keys and stays a dictionary.
  pub delete_kv-IsDict :
      (k : K) (t : DictTable S)
      → IsDict L t
      → (t' : DictTable S) × (delete_kv S k t ≡ some (t', is_some (value L t k)))
        × Removed L.keys (value L t) k (value L t')
        × IsDict L t'
  unfolding delete_kv
  delete_kv-IsDict k t (ok, all) =
      let (by_key, done, gone) = L.births.remove_ok t.dict_pk_by_key k in
      elim (Option-cases (birth L t k)) [
        | inl absent ↦
            let t1 : DictTable S = record t { dict_pk_by_key = by_key } in
            rw (delete_kv, done, absent)
              (
                t1,
                refl,
                lookup-Removed L.keys (value_of L t) (value_of L t) gone (λ j c h. refl),
                (
                  subst
                      (λ f.
                        Tables S.cache_key [] f (value_of L t) (birth_of L t) (lists L t)
                          (hit L.cached t.cache))
                      (λ i j. sym (removed_absent L.keys gone absent j) i) ok,
                  all,
                ),
              )
        | inr (b, at) ↦
            let (v, stored) = ok.valued k b at in
            let (to_keys, done', drop) = L.members.remove_ok t.dict_pk_to_keys b k in
            let removed = done' ∙ ap (λ w. some (to_keys, w)) (listed_here t (ok, all) at) in
            let t2 : DictTable S = record t {
              dict_pk_by_key = by_key;
              dict_pk_to_keys = to_keys;
            } in
            let ok2 : IsConsistent L [] t2 = unlinked-Tables S.cache_key L.keys at gone drop ok in
            elim (List-cases (L.members.values to_keys b)) [
              | inl bare ↦
                  let (t3, done3, births, values, dict) =
                    drop_value_lem b v t2 (ok2, all) stored (none_contained L.keys _ bare) in
                  rw (delete_kv, done, at, removed, L.members.get_ok to_keys b, bare, done3, stored)
                    (
                      t3,
                      refl,
                      lookup-Removed L.keys (value_of L t) (value_of L t3)
                          (record { at = λ j. births j ∙ gone.at j })
                          (λ j c h. values j c (sym (births j) ∙ h)),
                      dict,
                    )
              | inr (j, js, more) ↦
                  rw (delete_kv, done, at, removed, L.members.get_ok to_keys b, more, stored)
                    (
                      t2,
                      refl,
                      lookup-Removed L.keys (value_of L t) (value_of L t) gone (λ j c h. refl),
                      (ok2, all),
                    )
            ]
      ]
