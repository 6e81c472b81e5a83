-- ===== src/Storage/DictTable/Batch/Rounds.antt =====
-- The first loop of `insert_many_sorted_by_key` of a dictionary.
use redbit.Prelude.{
  ◌≡◌, ◌⊎◌, inl, inr, refl, sym, ◌∙◌, subst, false, Option, none, some, Option-cases, List, [], ◌∷◌,
  ◌++◌,
}
use mathlib.Core.List.{Memᴰ}
use mathlib.Core.List.Memᴰ
use redbit.Storage.Redb.{Updated}
use redbit.Storage.Redb.Views.{updated_here, updated_keeps, updated_other}
use redbit.Storage.IndexTable.{cache_put, cache_get}
use redbit.Storage.IndexTable.Cache.{hit, get-hit, get-kept}
use redbit.Storage.DictTable.{DictStore, DictTable, Deferred, defer_key, defer_value, defer_pair}
use redbit.Storage.DictTable.Consistency.{birth-Tables, value-Tables}
use redbit.Storage.DictTable.Lookup.{lookup, lookup-Updated}
use redbit.Storage.DictTable.Operations.{
  IsLawful, birth, value_of, birth_of, value, IsConsistent, cache_put-IsConsistent,
  cache_get-IsConsistent,
}

module _ {A : Type 0} {P : A → Type 0} (xs : List A) (y : A) where
  -- What holds of a list and of one more element.
  all-append : ((x : A) → Memᴰ x xs → P x) → P y → (x : A) → Memᴰ x (xs ++ y ∷ []) → P x
  all-append all here x m = elim (Memᴰ.append_cases xs m) [
    | inl m' ↦ all x m'
    | inr m' ↦ subst P (sym (Memᴰ.eq_of_singleton m')) here
  ]

module _ {K V CK : Type 0} {S : DictStore K V CK} (L : IsLawful S) where
  -- Between two rounds: the deferred keys are pending with their birth ids, and the deferred values
  -- have theirs.
  pub record IsRunning (t : DictTable S) (d : Deferred K V) : Type 0 where
    pub consistent : IsConsistent L d.pk_to_keys_batch t
    pub keys : (p : K × K) → Memᴰ p d.pk_to_keys_batch → birth L t p.1 ≡ some p.0
    pub values : (p : V × K) → Memᴰ p d.value_to_pk_batch → value_of L t p.1 ≡ some p.0

  -- What one round does for a key and its value.
  pub record Round (k : K) (v : V) (birth0 : K → Option K) (value0 : K → Option V)
      (ids0 : V → Option K) (batch0 : List (V × K)) (t' : DictTable S) (d' : Deferred K V)
      : Type 0 where
    pub running : IsRunning t' d'
    pub ids : (w : V) → birth_of L t' w ≡ ids0 w
    -- Nothing is stored but the value, if it is new, and then it is deferred.
    pub stores :
        ((d'.value_to_pk_batch ≡ batch0) × ((j : K) → value_of L t' j ≡ value0 j))
        ⊎ ((ids0 v ≡ none)
            × (d'.value_to_pk_batch ≡ batch0 ++ (v, k) ∷ [])
            × Updated L.keys value0 k v (value_of L t'))
    pub updated : Updated L.keys (lookup birth0 value0) k v (value L t')
    pub others :
        (j : K) → L.keys.same k j ≡ false → (birth L t' j ≡ birth0 j) × (value_of L t' j ≡ value0 j)

  defer_key_lem :
      (k b : K) (v : V) (t : DictTable S) (d : Deferred K V)
      → IsRunning t d
      → birth L t k ≡ none
      → value_of L t b ≡ some v
      → (t' : DictTable S) × (d' : Deferred K V) × (defer_key S k b (t, d) ≡ some (t', d'))
        × Round k v (birth L t) (value_of L t) (birth_of L t) d.value_to_pk_batch t' d'
  unfolding defer_key
  defer_key_lem k b v t d run fresh at =
      let (by_key, done, up) = L.births.insert_ok t.dict_pk_by_key k b in
      let t' : DictTable S = record t { dict_pk_by_key = by_key } in
      let batch = d.pk_to_keys_batch ++ (b, k) ∷ [] in
      rw (defer_key, done)
        (
          t',
          record d { pk_to_keys_batch = batch },
          refl,
          record {
            running = record {
              consistent =
                  birth-Tables S.cache_key L.keys fresh at up (λ p m. Memᴰ.append_left _ m)
                    (Memᴰ.append_right d.pk_to_keys_batch (Memᴰ.head refl)) run.consistent;
              keys =
                  all-append d.pk_to_keys_batch (b, k)
                    (λ p m. updated_keeps L.keys up fresh (run.keys p m)) (updated_here L.keys up);
              values = run.values;
            };
            ids = λ w. refl;
            stores = inl (refl, λ j. refl);
            updated = lookup-Updated L.keys (value_of L t) (value_of L t) up at (λ j c h. refl);
            others = λ j other. (updated_other L.keys up other, refl);
          },
        )

  defer_value_lem :
      (k : K) (v : V) (t : DictTable S) (d : Deferred K V)
      → IsRunning t d
      → birth L t k ≡ none
      → value_of L t k ≡ none
      → birth_of L t v ≡ none
      → (t' : DictTable S) × (d' : Deferred K V) × (defer_value S k v (t, d) ≡ some (t', d'))
        × Round k v (birth L t) (value_of L t) (birth_of L t) d.value_to_pk_batch t' d'
  unfolding defer_value
  defer_value_lem k v t d run fresh unused new =
      let (by_key, done, up) = L.births.insert_ok t.dict_pk_by_key k k in
      let (by_pk, done', stored) = L.stored.insert_ok t.value_by_dict_pk k v in
      let t1 : DictTable S = record t { value_by_dict_pk = by_pk } in
      let at : value_of L t1 k ≡ some v = updated_here L.keys stored in
      let c = cache_put S.cache (S.cache_key v) k t.cache in
      let ok1 : IsConsistent L d.pk_to_keys_batch (record t1 { cache = c }) =
        cache_put-IsConsistent L t1 v k t.cache at (λ ck. refl)
          (value-Tables S.cache_key L.keys unused stored run.consistent) in
      rw (defer_value, done, done')
        (
          record t1 { dict_pk_by_key = by_key; cache = c },
          record {
            pk_to_keys_batch = d.pk_to_keys_batch ++ (k, k) ∷ [];
            value_to_pk_batch = d.value_to_pk_batch ++ (v, k) ∷ [];
          },
          refl,
          record {
            running = record {
              consistent =
                  birth-Tables S.cache_key L.keys fresh at up (λ p m. Memᴰ.append_left _ m)
                    (Memᴰ.append_right d.pk_to_keys_batch (Memᴰ.head refl)) ok1;
              keys =
                  all-append d.pk_to_keys_batch (k, k)
                    (λ p m. updated_keeps L.keys up fresh (run.keys p m)) (updated_here L.keys up);
              values =
                  all-append d.value_to_pk_batch (v, k)
                    (λ p m. updated_keeps L.keys stored unused (run.values p m)) at;
            };
            ids = λ w. refl;
            stores = inr (new, refl, stored);
            updated = lookup-Updated L.keys (value_of L t) (value_of L t1) up at (λ j b h.
                let (w, old) = run.consistent.valued j b h in
                updated_keeps L.keys stored unused old ∙ sym old);
            others = λ j other. (updated_other L.keys up other, updated_other L.keys stored other);
          },
        )

  -- One round gives a key that has no birth id and is none its value.
  pub defer_pair_lem :
      (k : K) (v : V) (t : DictTable S) (d : Deferred K V)
      → IsRunning t d
      → birth L t k ≡ none
      → value_of L t k ≡ none
      → (t' : DictTable S) × (d' : Deferred K V) × (defer_pair S k v (t, d) ≡ some (t', d'))
        × Round k v (birth L t) (value_of L t) (birth_of L t) d.value_to_pk_batch t' d'
  unfolding defer_pair
  defer_pair_lem k v t d run fresh unused =
      let ck = S.cache_key v in
      let t1 : DictTable S = record t { cache = (cache_get S.cache ck t.cache).0 } in
      let run1 : IsRunning t1 d = record {
        consistent = cache_get-IsConsistent L t ck run.consistent;
        keys = run.keys;
        values = run.values;
      } in
      elim (Option-cases (hit L.cached t.cache ck)) [
        | inr (b, found) ↦
            rw (defer_pair, get-hit L.cached t.cache ck, found)
              (defer_key_lem k b v t1 d run1 fresh (run.consistent.cached v b found))
        | inl miss ↦ elim (Option-cases (L.ids.view t.value_to_dict_pk v)) [
          | inr (b, born) ↦
              let at : value_of L t b ≡ some v = run.consistent.born v b born in
              let t2 : DictTable S = record t { cache = cache_put S.cache ck b t1.cache } in
              let run2 : IsRunning t2 d = record {
                consistent =
                    cache_put-IsConsistent L t v b t1.cache at (get-kept L.cached t.cache ck)
                      run.consistent;
                keys = run.keys;
                values = run.values;
              } in
              rw
                (
                  defer_pair,
                  get-hit L.cached t.cache ck,
                  miss,
                  L.ids.get_ok t.value_to_dict_pk v,
                  born,
                )
                (defer_key_lem k b v t2 d run2 fresh at)
          | inl new ↦
              rw
                (
                  defer_pair,
                  get-hit L.cached t.cache ck,
                  miss,
                  L.ids.get_ok t.value_to_dict_pk v,
                  new,
                )
                (defer_value_lem k v t1 d run1 fresh unused new)
        ]
      ]
