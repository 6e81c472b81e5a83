-- ===== src/Storage/DictTable/Operations.antt =====
-- What `insert_kv` does to the values of the keys of a dictionary and to the agreement of its tables,
-- and what the look-ups return.
use redbit.Prelude.{
  ◌≡◌, inl, inr, refl, sym, ap, ap₂, ◌∙◌, Bool, Option, none, some, Option-cases, List, [],
  if◌then◌else◌,
}
use mathlib.Core.List.{Memᴰ}
use mathlib.Core.List.Memᴰ
use redbit.Prelude.Equality.{Eq}
use redbit.Storage.Redb.{IsMap, IsRelation, IsCache, Updated, contains}
use redbit.Storage.Redb.Views.{updated_here, updated_inv, updated_keeps, added_here}
use redbit.Storage.IndexTable.{cache_put, cache_get}
use redbit.Storage.IndexTable.Cache.{hit, put-hit, get-hit, get-kept}
use redbit.Storage.DictTable.{DictStore, DictTable, link_key, new_value, insert_kv}
use redbit.Storage.DictTable.Consistency.{
  Tables, AreFound, birth-Tables, key-Tables, settled-Tables, value-Tables, born-Tables,
  cached-Tables,
}
use redbit.Storage.DictTable.Lookup.{lookup, lookup_same, lookup-Updated}

-- While redb has no error: its tables are maps and a relation, the cache never has what was not put
-- in, and different values have different cache keys.
pub record IsLawful {K V CK : Type 0} (S : DictStore K V CK) : Type 0 where
  pub keys : Eq K
  pub values : Eq V
  pub cache_keys : Eq CK
  pub births : IsMap keys S.dict_pk_by_key
  pub stored : IsMap keys S.value_by_dict_pk
  pub ids : IsMap values S.value_to_dict_pk
  pub members : IsRelation keys keys S.dict_pk_to_keys
  pub cached : IsCache cache_keys S.cache
  pub cache_key_inj : (v w : V) → S.cache_key v ≡ S.cache_key w → v ≡ w

module _ {K V CK : Type 0} {S : DictStore K V CK} (L : IsLawful S) where
  abbrev pub birth : DictTable S → K → Option K
  birth t = L.births.view t.dict_pk_by_key

  abbrev pub value_of : DictTable S → K → Option V
  value_of t = L.stored.view t.value_by_dict_pk

  abbrev pub birth_of : DictTable S → V → Option K
  birth_of t = L.ids.view t.value_to_dict_pk

  abbrev pub lists : DictTable S → K → K → Bool
  lists t b = contains L.keys (L.members.values t.dict_pk_to_keys b)

  -- The value of a key.
  abbrev pub value : DictTable S → K → Option V
  value t = lookup (birth t) (value_of t)

  -- The tables agree, but for pending pairs.
  abbrev pub IsConsistent : List (K × K) → DictTable S → Type 0
  IsConsistent pending t =
      Tables S.cache_key pending (birth t) (value_of t) (birth_of t) (lists t)
        (hit L.cached t.cache)

  -- The tables agree, and every value is found by its value.
  abbrev pub IsDict : DictTable S → Type 0
  IsDict t = IsConsistent [] t × AreFound (value_of t) (birth_of t)

  pub cache_put-IsConsistent :
      {pending : List (K × K)} (t : DictTable S) (v : V) (b : K) (c : Option S.cache.State)
      → value_of t b ≡ some v
      → ((ck : CK) → hit L.cached c ck ≡ hit L.cached t.cache ck)
      → IsConsistent pending t
      → IsConsistent pending (record t { cache = cache_put S.cache (S.cache_key v) b c })
  cache_put-IsConsistent t v b c at same ok =
      cached-Tables S.cache_key
        (λ w j h. elim (put-hit L.cached c (S.cache_key v) b (S.cache_key w) j h) [
          | inl (e, bj) ↦ inl (ap (value_of t) (sym bj) ∙ at ∙ ap some (L.cache_key_inj v w e))
          | inr old ↦ inr (sym (same (S.cache_key w)) ∙ old)
        ])
        ok

  pub cache_get-IsConsistent :
      {pending : List (K × K)} (t : DictTable S) (ck : CK)
      → IsConsistent pending t
      → IsConsistent pending (record t { cache = (cache_get S.cache ck t.cache).0 })
  cache_get-IsConsistent t ck ok =
      cached-Tables S.cache_key
        (λ w j h. inr (sym (get-kept L.cached t.cache ck (S.cache_key w)) ∙ h)) ok

  link_key_lem :
      (k b : K) (v : V) (t : DictTable S)
      → IsDict t
      → birth t k ≡ none
      → value_of t b ≡ some v
      → (t' : DictTable S) × (link_key S k b t ≡ some t')
        × Updated L.keys (value t) k v (value t')
        × IsDict t'
  unfolding link_key
  link_key_lem k b v t (ok, all) fresh at =
      let (by_key, done, up) = L.births.insert_ok t.dict_pk_by_key k b in
      let (to_keys, done', add) = L.members.insert_ok t.dict_pk_to_keys b k in
      let t' : DictTable S = record t { dict_pk_by_key = by_key; dict_pk_to_keys = to_keys } in
      let ok' =
        key-Tables S.cache_key L.keys (updated_here L.keys up) add
          (birth-Tables S.cache_key L.keys fresh at up (λ p m. Memᴰ.tail m) (Memᴰ.head refl) ok) in
      rw (link_key, done, done')
        (
          t',
          refl,
          lookup-Updated L.keys (value_of t) (value_of t) up at (λ j c h. refl),
          (
            settled-Tables S.cache_key
                (λ c j m. elim (Memᴰ.cases_cons m) [
                  | inl e ↦
                      ap₂ (lists t') (ap (λ p. p.0) e) (ap (λ p. p.1) e)
                      ∙ added_here L.keys L.keys add
                  | inr m' ↦ absurd (Memᴰ.not-nil m')
                ])
                ok',
            all,
          ),
        )

  new_value_lem :
      (k : K) (v : V) (t : DictTable S)
      → IsDict t
      → birth t k ≡ none
      → value_of t k ≡ none
      → birth_of t v ≡ none
      → (t' : DictTable S) × (new_value S k v t ≡ some t')
        × Updated L.keys (value t) k v (value t')
        × IsDict t'
  unfolding new_value link_key
  new_value_lem k v t (ok, all) fresh unused new =
      let (to_pk, done, born) = L.ids.insert_ok t.value_to_dict_pk v k in
      let (by_pk, done', stored) = L.stored.insert_ok t.value_by_dict_pk k v in
      let t1 : DictTable S = record t {
        value_to_dict_pk = to_pk;
        value_by_dict_pk = by_pk;
        cache = cache_put S.cache (S.cache_key v) k t.cache;
      } in
      let at : value_of t1 k ≡ some v = updated_here L.keys stored in
      let ok1 : IsConsistent [] t1 =
        cache_put-IsConsistent (record t { value_to_dict_pk = to_pk; value_by_dict_pk = by_pk }) v k
          t.cache at (λ ck. refl)
          (born-Tables S.cache_key L.values at born
            (value-Tables S.cache_key L.keys unused stored ok)) in
      let all1 : AreFound (value_of t1) (birth_of t1) = record {
        found = λ b w h. elim (updated_inv L.keys stored h) [
          | inl (kb, vw) ↦ ap (birth_of t1) (sym vw) ∙ updated_here L.values born ∙ ap some kb
          | inr old ↦ updated_keeps L.values born new (all.found b w old)
        ];
      } in
      let (t2, linked, up, dict) = link_key_lem k k v t1 (ok1, all1) fresh at in
      let same : (j : K) → value t1 j ≡ value t j = λ j.
        lookup_same (birth t) (value_of t) (value_of t1) j (λ c h.
          let (w, old) = ok.valued j c h in updated_keeps L.keys stored unused old ∙ sym old) in
      rw (new_value, done, done')
        (
          t2,
          linked,
          record { at = λ j. up.at j ∙ ap (λ x. if L.keys.same k j then some v else x) (same j) },
          dict,
        )

  -- A dictionary takes a key that it does not have and that is no birth id, with its value, and stays
  -- a dictionary.
  pub insert_kv-IsDict :
      (k : K) (v : V) (t : DictTable S)
      → IsDict t
      → birth t k ≡ none
      → value_of t k ≡ none
      → (t' : DictTable S) × (insert_kv S k v t ≡ some t')
        × Updated L.keys (value t) k v (value t')
        × IsDict t'
  unfolding insert_kv
  insert_kv-IsDict k v t (ok, all) fresh unused =
      let ck = S.cache_key v in
      let t1 : DictTable S = record t { cache = (cache_get S.cache ck t.cache).0 } in
      let ok1 : IsConsistent [] t1 = cache_get-IsConsistent t ck ok in
      elim (Option-cases (hit L.cached t.cache ck)) [
        | inr (b, found) ↦
            rw (insert_kv, get-hit L.cached t.cache ck, found)
              (link_key_lem k b v t1 (ok1, all) fresh (ok.cached v b found))
        | inl miss ↦ elim (Option-cases (birth_of t v)) [
          | inr (b, born) ↦
              let at : value_of t b ≡ some v = ok.born v b born in
              rw
                (
                  insert_kv,
                  get-hit L.cached t.cache ck,
                  miss,
                  L.ids.get_ok t.value_to_dict_pk v,
                  born,
                )
                (link_key_lem k b v (record t { cache = cache_put S.cache ck b t1.cache })
                  (cache_put-IsConsistent t v b t1.cache at (get-kept L.cached t.cache ck) ok, all)
                  fresh at)
          | inl new ↦
              rw
                (
                  insert_kv,
                  get-hit L.cached t.cache ck,
                  miss,
                  L.ids.get_ok t.value_to_dict_pk v,
                  new,
                )
                (new_value_lem k v t1 (ok1, all) fresh unused new)
        ]
      ]
