-- ===== src/Storage/IndexTable/Operations.antt =====
-- What the operations of an index do to the values of the keys and to the agreement of its tables.
use redbit.Prelude.{
  ◌≡◌, ◌≢◌, ◌⊎◌, inl, inr, refl, sym, ap, ap₂, ◌∙◌, Bool, true, false, Option, none, some,
  Option-cases, List, [], ◌∷◌,
}
use mathlib.Core.Option.{some_inj, none-ne-some}
use mathlib.Core.Bool.{false≢true}
use mathlib.Core.List.Memᴰ
use redbit.Prelude.Equality.{Eq}
use redbit.Storage.Redb.Views.{same_of_eq, updated_here, added_here, removed_absent}
use redbit.Storage.Redb.{IsMap, IsRelation, IsCache, Updated, Removed, contains}
use redbit.Storage.PlainTable.{is_some}
use redbit.Storage.IndexTable.{
  IndexStore, IndexTable, insert_kv, delete_kv, get_any_for_index, cache_put, cache_pop, cache_get,
}
use redbit.Storage.IndexTable.Cache.{hit, put-hit, pop-hit, get-hit, get-kept}
use redbit.Storage.IndexTable.Consistency.{
  Indexes, value-Indexes, key-Indexes, settled-Indexes, same-Indexes, remove-Indexes,
}

-- While redb has no error: its tables are a map and a relation, the cache never has what was not put
-- in, and different values have different cache keys.
pub record IsLawful {K V CK : Type 0} (S : IndexStore K V CK) : Type 0 where
  pub keys : Eq K
  pub values : Eq V
  pub cache_keys : Eq CK
  pub by_pk : IsMap keys S.index_by_pk
  pub by_value : IsRelation values keys S.pk_by_index
  pub cached : IsCache cache_keys S.cache
  pub cache_key_inj : (v w : V) → S.cache_key v ≡ S.cache_key w → v ≡ w

abbrev first : {K : Type 0} → List K → Option K
first [] = none
first (k ∷ _) = some k

module _ {K : Type 0} (keys : Eq K) where
  contains-first : (ks : List K) (k : K) → first ks ≡ some k → contains keys ks k ≡ true
  contains-first [] k e = absurd (none-ne-some k e)
  contains-first (j ∷ ks) k e = rw (same_of_eq keys (some_inj.0 e)) refl

  contains-none : (ks : List K) → first ks ≡ none → (k : K) → contains keys ks k ≡ false
  contains-none [] e k = refl
  contains-none (j ∷ ks) e k = absurd (none-ne-some j (sym e))

module _ {K V CK : Type 0} {S : IndexStore K V CK} (L : IsLawful S) where
  abbrev pub value : IndexTable S → K → Option V
  value t = L.by_pk.view t.index_by_pk

  abbrev pub lists : IndexTable S → V → K → Bool
  lists t v = contains L.keys (L.by_value.values t.pk_by_index v)

  -- The tables agree, but for pending pairs.
  abbrev pub IsConsistent : List (K × V) → IndexTable S → Type 0
  IsConsistent pending t = Indexes S.cache_key pending (value t) (lists t) (hit L.cached t.cache)

  pub cache_put_lem :
      (v : V) (k : K) (c : Option S.cache.State) (j : K) (w : V)
      → hit L.cached (cache_put S.cache (S.cache_key v) k c) (S.cache_key w) ≡ some j
      → ((v ≡ w) × (k ≡ j)) ⊎ (hit L.cached c (S.cache_key w) ≡ some j)
  cache_put_lem v k c j w h = elim (put-hit L.cached c (S.cache_key v) k (S.cache_key w) j h) [
    | inl (e, kj) ↦ inl (L.cache_key_inj v w e, kj)
    | inr old ↦ inr old
  ]

  listed_here :
      (t : IndexTable S)
      → IsConsistent [] t
      → {k : K} {v : V} → value t k ≡ some v
      → lists t v k ≡ true
  listed_here t ok {k} {v} at = elim (ok.listed k v at) [
    | inl l ↦ l
    | inr m ↦ absurd (Memᴰ.not-nil m)
  ]

  -- A consistent index takes a key that it does not have, with its value, and stays consistent.
  pub insert_kv-Indexes :
      (k : K) (v : V) (t : IndexTable S)
      → IsConsistent [] t
      → value t k ≡ none
      → (t' : IndexTable S) × (insert_kv S k v t ≡ some t')
        × Updated L.keys (value t) k v (value t')
        × IsConsistent [] t'
  unfolding insert_kv
  insert_kv-Indexes k v t ok fresh =
      let (by_pk, done, up) = L.by_pk.insert_ok t.index_by_pk k v in
      let (by_value, done', add) = L.by_value.insert_ok t.pk_by_index v k in
      let c = cache_put S.cache (S.cache_key v) k t.cache in
      let ok' =
        key-Indexes S.cache_key L.keys L.values (updated_here L.keys up) add
          (value-Indexes S.cache_key L.keys fresh up (cache_put_lem v k t.cache) ok) in
      rw (insert_kv, done, done')
        (
          record { index_by_pk = by_pk; pk_by_index = by_value; cache = c },
          refl,
          up,
          settled-Indexes S.cache_key
              (λ j w m. elim (Memᴰ.cases_cons m) [
                | inl e ↦
                    ap₂ (lists (record { index_by_pk = by_pk; pk_by_index = by_value; cache = c }))
                      (ap (λ p. p.1) e) (ap (λ p. p.0) e)
                    ∙ added_here L.values L.keys add
                | inr m' ↦ absurd (Memᴰ.not-nil m')
              ])
              ok',
        )

  -- A consistent index forgets a key and its value, says whether it had it, and stays consistent.
  pub delete_kv-Indexes :
      (k : K) (t : IndexTable S)
      → IsConsistent [] t
      → (t' : IndexTable S) × (delete_kv S k t ≡ some (t', is_some (value t k)))
        × Removed L.keys (value t) k (value t')
        × IsConsistent [] t'
  unfolding delete_kv
  delete_kv-Indexes k t ok =
      let (by_pk, done, gone) = L.by_pk.remove_ok t.index_by_pk k in
      elim (Option-cases (value t k)) [
        | inl absent ↦
            rw (delete_kv, done, absent)
              (
                record t { index_by_pk = by_pk },
                refl,
                gone,
                same-Indexes S.cache_key (removed_absent L.keys gone absent) (λ ck. refl) ok,
              )
        | inr (v, at) ↦
            let (by_value, done', drop) = L.by_value.remove_ok t.pk_by_index v k in
            let was = listed_here t ok at in
            let ok' =
              remove-Indexes S.cache_key L.keys L.values L.cache_keys at gone drop
                (λ j w. pop-hit L.cached t.cache (S.cache_key v) (S.cache_key w) j) ok in
            rw (delete_kv, done, at, done', was)
              (
                record {
                  index_by_pk = by_pk;
                  pk_by_index = by_value;
                  cache = cache_pop S.cache (S.cache_key v) t.cache;
                },
                refl,
                gone,
                ok',
              )
      ]

  -- `get_any_for_index` of a consistent index returns a key that has the value, or `none` if no key
  -- has it; it leaves both tables as they are, and the cache has the same entry, or none, for every
  -- cache key as before.
  pub get_any_for_index_lem :
      (v : V) (t : IndexTable S)
      → IsConsistent [] t
      → (t' : IndexTable S) × (found : Option K) × (get_any_for_index S v t ≡ some (t', found))
        × ((k : K) → found ≡ some k → value t k ≡ some v)
        × (found ≡ none → (k : K) → value t k ≢ some v)
        × (t'.index_by_pk ≡ t.index_by_pk)
        × (t'.pk_by_index ≡ t.pk_by_index)
        × ((ck : CK) → hit L.cached t'.cache ck ≡ hit L.cached t.cache ck)
        × IsConsistent [] t'
  unfolding get_any_for_index
  get_any_for_index_lem v t ok =
      let ck = S.cache_key v in
      let c = (cache_get S.cache ck t.cache).0 in
      let t' : IndexTable S = record t { cache = c } in
      let ok' : IsConsistent [] t' =
        same-Indexes S.cache_key (λ k. refl) (get-kept L.cached t.cache ck) ok in
      elim (Option-cases (hit L.cached t.cache ck)) [
        | inl miss ↦
            let looked : get_any_for_index S v t
                ≡ some (t', first (L.by_value.values t.pk_by_index v)) =
              rw
                (
                  get_any_for_index,
                  get-hit L.cached t.cache ck,
                  miss,
                  L.by_value.get_ok t.pk_by_index v,
                )
                refl in
            (
              t',
              first (L.by_value.values t.pk_by_index v),
              looked,
              λ k e. ok.stored k v (contains-first L.keys _ k e),
              λ e k h. false≢true (sym (contains-none L.keys _ e k) ∙ listed_here t ok h),
              refl,
              refl,
              get-kept L.cached t.cache ck,
              ok',
            )
        | inr (k, found) ↦ (
          t',
          some k,
          rw (get_any_for_index, get-hit L.cached t.cache ck, found) refl,
          λ j e. ok.cached j v (found ∙ e),
          λ e. absurd (none-ne-some k (sym e)),
          refl,
          refl,
          get-kept L.cached t.cache ck,
          ok',
        )
      ]
