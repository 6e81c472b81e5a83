-- ===== src/Storage/IndexTable/Batch.antt =====
-- `insert_many_sorted_by_key` of an index.
use redbit.Prelude.{
  ◌≡◌, ◌⊎◌, inl, inr, refl, sym, ap, ap₂, ◌∙◌, subst, true, Bool, Option, none, some, List, [], ◌∷◌,
  if◌then◌else◌,
}
use mathlib.Core.List.{Memᴰ}
use mathlib.Core.List.Memᴰ
use redbit.Prelude.Equality.{Eq}
use redbit.Prelude.Order.{KeyOrder}
use redbit.Storage.Redb.{Updated}
use redbit.Storage.Redb.Views.{updated_here, updated_keeps, added_here, added_keeps}
use redbit.Storage.PlainTable.{is_sorted_by_key}
use redbit.Storage.PlainTable.Contents.{written}
use redbit.Storage.PlainTable.Strict.{is_less-apart, sorted-rest, sorted-below, sorted-accepted}
use redbit.Storage.IndexTable.{
  IndexStore, IndexTable, cache_put, insert_values, insert_keys, insert_many_sorted_by_key,
}
use redbit.Storage.IndexTable.Consistency.{value-Indexes, key-Indexes, settled-Indexes}
use redbit.Storage.IndexTable.Operations.{IsLawful, value, lists, IsConsistent, cache_put_lem}
use redbit.Prelude.Sorting.{sort_by, mem-sort_by, mem_of_sort_by}

module _ {K V : Type 0} (keys : Eq K) where
  -- Each key of a batch has no value when its turn comes.
  abbrev pub AreFresh : List (K × V) → (K → Option V) → Type 0
  AreFresh [] f = Unit
  AreFresh ((k, v) ∷ pairs) f =
      (f k ≡ none) × AreFresh pairs (λ j. if keys.same k j then some v else f j)

  pub AreFresh-Updated :
      {f f' : K → Option V} {k : K} {v : V} (pairs : List (K × V))
      → Updated keys f k v f'
      → AreFresh pairs (λ j. if keys.same k j then some v else f j)
      → AreFresh pairs f'
  AreFresh-Updated pairs up fresh = subst (AreFresh pairs) (λ i j. sym (up.at j) i) fresh

  -- In a sorted batch the keys are different, so each is new when its turn comes if it is at first.
  pub sorted-AreFresh :
      (order : KeyOrder K) (pairs : List (K × V)) (f : K → Option V)
      → is_sorted_by_key order pairs ≡ true
      → ((j : K) (w : V) → Memᴰ (j, w) pairs → f j ≡ none)
      → AreFresh pairs f
  sorted-AreFresh order [] f sorted new = tt
  sorted-AreFresh order ((k, v) ∷ pairs) f sorted new = (
    new k v (Memᴰ.head refl),
    sorted-AreFresh order pairs (λ j. if keys.same k j then some v else f j)
        (sorted-rest order (k, v) pairs sorted)
        (λ j w m.
          ap (λ b. if b then some v else f j)
            (is_less-apart order keys k j (sorted-below order k v pairs sorted m))
          ∙ new j w (Memᴰ.tail m)),
  )

abbrev later : {A : Type 0} → List A → List A → List A
later [] pending = pending
later (x ∷ xs) pending = later xs (x ∷ pending)

mem_of_later :
    {A : Type 0} {x : A} (xs pending : List A)
    → Memᴰ x (later xs pending)
    → Memᴰ x xs ⊎ Memᴰ x pending
mem_of_later [] pending m = inr m
mem_of_later (y ∷ xs) pending m = elim (mem_of_later xs (y ∷ pending) m) [
  | inl m' ↦ inl (Memᴰ.tail m')
  | inr (Memᴰ.head e) ↦ inl (Memᴰ.head e)
  | inr (Memᴰ.tail m') ↦ inr m'
]

module _ {K V CK : Type 0} {S : IndexStore K V CK} (L : IsLawful S) where
  -- The first loop gives each key its value and leaves all pairs pending.
  insert_values_lem :
      (pairs pending : List (K × V)) (t : IndexTable S)
      → IsConsistent L pending t
      → AreFresh L.keys pairs (value L t)
      → (t' : IndexTable S) × (insert_values S pairs t ≡ some t')
        × ((j : K) → value L t' j ≡ written L.keys pairs j (value L t j))
        × ((j : K) (w : V) → value L t j ≡ some w → value L t' j ≡ some w)
        × ((j : K) (w : V) → Memᴰ (j, w) pairs → value L t' j ≡ some w)
        × IsConsistent L (later pairs pending) t'
  unfolding insert_values
  insert_values_lem [] pending t ok fresh =
      (t, refl, λ j. refl, λ j w h. h, λ j w m. absurd (Memᴰ.not-nil m), ok)
  insert_values_lem ((k, v) ∷ pairs) pending t ok (fresh, rest) =
      let (by_pk, done, up) = L.by_pk.insert_ok t.index_by_pk k v in
      let t1 : IndexTable S = record t {
        index_by_pk = by_pk;
        cache = cache_put S.cache (S.cache_key v) k t.cache;
      } in
      let ok1 = value-Indexes S.cache_key L.keys fresh up (cache_put_lem L v k t.cache) ok in
      let (t2, done', after, kept, there, ok2) =
        insert_values_lem pairs ((k, v) ∷ pending) t1 ok1 (AreFresh-Updated L.keys pairs up rest) in
      rw (insert_values, done)
        (
          t2,
          done',
          λ j. rw (← up.at j) (after j),
          λ j w h. kept j w (updated_keeps L.keys up fresh h),
          λ j w m. elim m [
            | Memᴰ.head e ↦ kept j w (
                ap (value L t1) (ap (λ p. p.0) e)
                ∙ updated_here L.keys up
                ∙ ap some (sym (ap (λ p. p.1) e)))
            | Memᴰ.tail m' ↦ there j w m'
          ],
          ok2,
        )

  -- The second loop lists each key for its value.
  insert_keys_lem :
      (pairs pending : List (K × V)) (t : IndexTable S)
      → IsConsistent L pending t
      → ((j : K) (w : V) → Memᴰ (j, w) pairs → value L t j ≡ some w)
      → (t' : IndexTable S) × (insert_keys S pairs t ≡ some t')
        × ((j : K) → value L t' j ≡ value L t j)
        × ((j : K) (w : V) → lists L t w j ≡ true → lists L t' w j ≡ true)
        × ((j : K) (w : V) → Memᴰ (j, w) pairs → lists L t' w j ≡ true)
        × IsConsistent L pending t'
  unfolding insert_keys
  insert_keys_lem [] pending t ok there =
      (t, refl, λ j. refl, λ j w h. h, λ j w m. absurd (Memᴰ.not-nil m), ok)
  insert_keys_lem ((k, v) ∷ pairs) pending t ok there =
      let (by_value, done, add) = L.by_value.insert_ok t.pk_by_index v k in
      let t1 : IndexTable S = record t { pk_by_index = by_value } in
      let ok1 : IsConsistent L pending t1 =
        key-Indexes S.cache_key L.keys L.values (there k v (Memᴰ.head refl)) add ok in
      let (t2, done', same, kept, listed, ok2) =
        insert_keys_lem pairs pending t1 ok1 (λ j w m. there j w (Memᴰ.tail m)) in
      rw (insert_keys, done)
        (
          t2,
          done',
          same,
          λ j w h. kept j w (added_keeps L.values L.keys add h),
          λ j w m. elim m [
            | Memᴰ.head e ↦ kept j w (
                ap₂ (lists L t1) (ap (λ p. p.1) e) (ap (λ p. p.0) e)
                ∙ added_here L.values L.keys add)
            | Memᴰ.tail m' ↦ listed j w m'
          ],
          ok2,
        )

  -- An index whose tables and cache agree takes a batch that is sorted by key, of keys that it does
  -- not have, whether or not the test for that is compiled in; they get their values, the other keys
  -- keep theirs, and the tables, which are written one after the other, and the cache agree again.
  pub insert_many-Indexes :
      (cfg_test : Bool) (key_order : KeyOrder K) (value_order : KeyOrder V) (pairs : List (K × V))
      (t : IndexTable S)
      → IsConsistent L [] t
      → is_sorted_by_key key_order pairs ≡ true
      → ((j : K) (w : V) → Memᴰ (j, w) pairs → value L t j ≡ none)
      → (t' : IndexTable S) × (insert_many_sorted_by_key S cfg_test key_order value_order pairs t
          ≡ some t')
        × ((j : K) → value L t' j ≡ written L.keys pairs j (value L t j))
        × IsConsistent L [] t'
  unfolding insert_many_sorted_by_key
  insert_many-Indexes cfg_test key_order order pairs t ok sorted new =
      let fresh = sorted-AreFresh L.keys key_order pairs (value L t) sorted new in
      let (t1, done, after, kept, there, ok1) = insert_values_lem pairs [] t ok fresh in
      let (t2, done', same, kept', listed, ok2) =
        insert_keys_lem (sort_by (λ (p : K × V). p.1) order pairs) (later pairs []) t1 ok1
          (λ j w m. there j w (mem_of_sort_by (λ (p : K × V). p.1) order pairs m)) in
      rw (insert_many_sorted_by_key, sorted-accepted key_order cfg_test pairs sorted, done)
        (
          t2,
          done',
          λ j. same j ∙ after j,
          settled-Indexes S.cache_key
              (λ j w m. elim (mem_of_later pairs [] m) [
                | inl m' ↦ listed j w (mem-sort_by (λ (p : K × V). p.1) order pairs m')
                | inr m' ↦ absurd (Memᴰ.not-nil m')
              ])
              ok2,
        )
