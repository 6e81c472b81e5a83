-- ===== src/Storage/DictTable/Batch.antt =====
-- `insert_many_sorted_by_key` of a dictionary.
pub mod Pending
pub mod Rounds
pub mod Flushes
use redbit.Prelude.{
  ◌≡◌, ◌≢◌, ◌⊎◌, inl, inr, refl, sym, ap, subst, ◌∙◌, Bool, true, false, ◌++◌, Option, none, some,
  List, [], ◌∷◌, if◌then◌else◌, Bool-cases,
}
use mathlib.Core.List.{Memᴰ}
use mathlib.Core.List.Memᴰ
use mathlib.Core.Option.{none-ne-some}
use redbit.Prelude.Equality.{Eq, same_refl}
use redbit.Prelude.Order.{KeyOrder}
use redbit.Prelude.Sorting.{sort_by, mem-sort_by, mem_of_sort_by}
use redbit.Storage.Redb.Views.{not-same}
use redbit.Storage.PlainTable.{◌>>=◌}
use redbit.Storage.PlainTable.Contents.{written}
use redbit.Storage.IndexTable.Batch.{AreFresh, sorted-AreFresh}
use redbit.Storage.DictTable.{
  DictStore, DictTable, Deferred, defer_pairs, insert_many_sorted_by_key,
}
use redbit.Storage.DictTable.Consistency.{settled-Tables}
use redbit.Storage.DictTable.Operations.{
  IsLawful, birth, value_of, birth_of, value, IsConsistent, IsDict,
}
use redbit.Storage.PlainTable.{is_sorted_by_key}
use redbit.Storage.PlainTable.Strict.{sorted-accepted}
use Pending.{ArePending, AreFound-ArePending, ArePending-same, ArePending-new}
use Rounds.{IsRunning, Round, defer_pair_lem}
use Flushes.{flush_keys_lem, flush_values_lem}

module _ {K V : Type 0} (keys : Eq K) where
  -- The keys of a batch are all different from a key that came before.
  AreFresh-apart :
      (pairs : List (K × V)) (f : K → Option V) {k j : K} {v w : V}
      → AreFresh keys pairs f
      → f k ≡ some v
      → Memᴰ (j, w) pairs
      → keys.same k j ≡ false
  AreFresh-apart [] f fresh at m = absurd (Memᴰ.not-nil m)
  AreFresh-apart ((i, u) ∷ pairs) f {k} {j} {v} {w} (absent, rest) at m = elim m [
    | Memᴰ.head e ↦
        not-same keys (λ kj. none-ne-some v (sym absent ∙ ap f (sym (kj ∙ ap (λ p. p.0) e)) ∙ at))
    | Memᴰ.tail m' ↦
        let ik : keys.same i k ≡ false =
          not-same keys (λ e. none-ne-some v (sym absent ∙ ap f e ∙ at)) in
        AreFresh-apart pairs (λ x. if keys.same i x then some u else f x) rest
          (ap (λ b. if b then some u else f k) ik ∙ at) m'
  ]

module _ {K V CK : Type 0} {S : DictStore K V CK} (L : IsLawful S) where
  -- A key that has no birth id and is none.
  abbrev pub IsUnused : DictTable S → K → Type 0
  IsUnused t k = (birth L t k ≡ none) × (value_of L t k ≡ none)

  -- Each value of a batch has a birth id already, or stands in the batch once.
  abbrev pub AreOnce : (V → Option K) → List (K × V) → Type 0
  AreOnce ids [] = Unit
  AreOnce ids ((k, v) ∷ pairs) =
      (((b : K) × (ids v ≡ some b)) ⊎ ((j : K) (w : V) → Memᴰ (j, w) pairs → v ≢ w))
      × AreOnce ids pairs

  -- A value that is not deferred, or need not be.
  abbrev IsFree : (V → Option K) → List (V × K) → V → Type 0
  IsFree ids batch v = ((b : K) × (ids v ≡ some b)) ⊎ ((b : K) → Memᴰ (v, b) batch → ⊥)

  module _ (ids : V → Option K) (t : DictTable S) (d : Deferred K V) {k : K} {v : V}
      {t' : DictTable S} {d' : Deferred K V} (known : (w : V) → birth_of L t w ≡ ids w)
      (round : Round L k v
        (birth L t)
        (value_of L t)
        (birth_of L t)
        d.value_to_pk_batch
        t'
        d') where
    Round-ArePending :
        IsFree ids d.value_to_pk_batch v
        → ArePending (value_of L t) (birth_of L t) d.value_to_pk_batch
        → ArePending (value_of L t') (birth_of L t') d'.value_to_pk_batch
    Round-ArePending free wait = elim round.stores [
      | inl (same, values) ↦
          ArePending-same values round.ids (λ p m. subst (Memᴰ p) (sym same) m)
            (λ p m. subst (Memᴰ p) same m) wait
      | inr (new, grown, up) ↦
          let apart : (b : K) → Memᴰ (v, b) d.value_to_pk_batch → ⊥ = elim free [
            | inl (b, at) ↦ absurd (none-ne-some b (sym new ∙ known v ∙ at))
            | inr none_there ↦ none_there
          ] in
          subst (ArePending (value_of L t') (birth_of L t')) (sym grown)
            (ArePending-new L.keys new apart up round.ids wait)
    ]

    Round-IsFree :
        {w : V}
        → ((b : K) × (ids v ≡ some b)) ⊎ (v ≢ w)
        → IsFree ids d.value_to_pk_batch w
        → IsFree ids d'.value_to_pk_batch w
    Round-IsFree {w} once free = elim free [
      | inl at ↦ inl at
      | inr apart ↦ elim round.stores [
        | inl (same, values) ↦ inr (λ b m. apart b (subst (Memᴰ (w, b)) same m))
        | inr (new, grown, up) ↦ inr (λ b m.
            elim (Memᴰ.append_cases d.value_to_pk_batch (subst (Memᴰ (w, b)) grown m)) [
              | inl m' ↦ apart b m'
              | inr m' ↦
                  let wv : w ≡ v = ap (λ p. p.0) (Memᴰ.eq_of_singleton m') in
                  elim once [
                    | inl (c, at) ↦ none-ne-some c (sym new ∙ known v ∙ at)
                    | inr ne ↦ ne (sym wv)
                  ]
            ])
      ]
    ]

  -- The first loop gives each key its value.
  defer_pairs_lem :
      (ids : V → Option K) (pairs : List (K × V)) (f : K → Option V) (t : DictTable S)
      (d : Deferred K V)
      → IsRunning L t d
      → AreFresh L.keys pairs f
      → ((j : K) (w : V) → Memᴰ (j, w) pairs → IsUnused t j)
      → ((w : V) → birth_of L t w ≡ ids w)
      → AreOnce ids pairs
      → ((j : K) (w : V) → Memᴰ (j, w) pairs → IsFree ids d.value_to_pk_batch w)
      → ArePending (value_of L t) (birth_of L t) d.value_to_pk_batch
      → (t' : DictTable S) × (d' : Deferred K V) × (defer_pairs S pairs (t, d) ≡ some (t', d'))
        × ((j : K) → value L t' j ≡ written L.keys pairs j (value L t j))
        × IsRunning L t' d'
        × ArePending (value_of L t') (birth_of L t') d'.value_to_pk_batch
  unfolding defer_pairs
  defer_pairs_lem ids [] f t d run fresh unused known once free wait =
      (t, d, refl, λ j. refl, run, wait)
  defer_pairs_lem ids ((k, v) ∷ pairs) f t d run (absent, fresh) unused known once free wait =
      let (t1, d1, done, round) =
        defer_pair_lem L k v t d run (unused k v (Memᴰ.head refl)).0
          (unused k v (Memᴰ.head refl)).1 in
      let f1 : K → Option V = λ j. if L.keys.same k j then some v else f j in
      let still : (j : K) (w : V) → Memᴰ (j, w) pairs → IsUnused t1 j = λ j w m.
        let (same, same') = round.others j (
          AreFresh-apart L.keys pairs f1 fresh
            (ap (λ b. if b then some v else f k) (same_refl L.keys k)) m) in
        let (no_birth, no_value) = unused j w (Memᴰ.tail m) in
        (same ∙ no_birth, same' ∙ no_value) in
      let (t2, d2, done', after, run2, wait2) =
        defer_pairs_lem ids pairs f1 t1 d1 round.running fresh still (λ w. round.ids w ∙ known w)
          once.1
          (λ j w m.
            Round-IsFree ids t d known round
              (elim once.0 [ inl at ↦ inl at | inr apart ↦ inr (apart j w m) ])
              (free j w (Memᴰ.tail m)))
          (Round-ArePending ids t d known round (free k v (Memᴰ.head refl)) wait) in
      rw (defer_pairs, done) (t2, d2, done', λ j. rw (← round.updated.at j) (after j), run2, wait2)

  -- A dictionary whose tables and cache agree, and find every value by its value, takes a batch that is
  -- sorted by key, whether or not the test for that is compiled in, of keys that it does not have and
  -- that are no birth ids, with values each of which it has or which stands in the batch once; they get
  -- their values, the other keys keep theirs, and all agree again and find every value.
  pub insert_many-IsDict :
      (cfg_test : Bool) (key_order : KeyOrder K) (value_order : KeyOrder V) (pairs : List (K × V))
      (t : DictTable S)
      → IsDict L t
      → is_sorted_by_key key_order pairs ≡ true
      → ((j : K) (w : V) → Memᴰ (j, w) pairs → IsUnused t j)
      → AreOnce (birth_of L t) pairs
      → (t' : DictTable S) × (insert_many_sorted_by_key S cfg_test key_order value_order pairs t
          ≡ some t')
        × ((j : K) → value L t' j ≡ written L.keys pairs j (value L t j))
        × IsDict L t'
  unfolding insert_many_sorted_by_key
  insert_many-IsDict cfg_test key_order value_order pairs t (ok, all) sorted unused once =
      let run : IsRunning L t (record { pk_to_keys_batch = []; value_to_pk_batch = [] }) = record {
        consistent = ok;
        keys = λ p m. absurd (Memᴰ.not-nil m);
        values = λ p m. absurd (Memᴰ.not-nil m);
      } in
      let fresh = sorted-AreFresh L.keys key_order pairs (λ j. none) sorted (λ j w m. refl) in
      let (t1, d, done, after, run1, wait1) =
        defer_pairs_lem (birth_of L t) pairs (λ j. none) t
          (record { pk_to_keys_batch = []; value_to_pk_batch = [] }) run fresh unused (λ w. refl)
          once (λ j w m. inr (λ b m'. Memᴰ.not-nil m')) (AreFound-ArePending all) in
      let (t2, done2, same, same', ids, kept, listed, ok2) =
        flush_keys_lem L (sort_by (λ (p : K × K). p.0) key_order d.pk_to_keys_batch)
          d.pk_to_keys_batch t1 run1.consistent
          (λ b k m.
            run1.keys (b, k)
              (mem_of_sort_by (λ (p : K × K). p.0) key_order d.pk_to_keys_batch m)) in
      let ok2' : IsConsistent L [] t2 =
        settled-Tables S.cache_key
          (λ b k m. listed b k (mem-sort_by (λ (p : K × K). p.0) key_order d.pk_to_keys_batch m))
          ok2 in
      let (t3, done3, same3, ok3, all3) =
        flush_values_lem L (sort_by (λ (p : V × K). p.0) value_order d.value_to_pk_batch) t2 ok2'
          (λ v b m.
            same' b
            ∙ run1.values (v, b)
                (mem_of_sort_by (λ (p : V × K). p.0) value_order d.value_to_pk_batch m))
          (ArePending-same same' ids
            (λ p m. mem-sort_by (λ (p : V × K). p.0) value_order d.value_to_pk_batch m)
            (λ p m. mem_of_sort_by (λ (p : V × K). p.0) value_order d.value_to_pk_batch m) wait1) in
      rw (insert_many_sorted_by_key, sorted-accepted key_order cfg_test pairs sorted, done, done2)
        (t3, done3, λ j. same3 j ∙ same j ∙ after j, (ok3, all3))
