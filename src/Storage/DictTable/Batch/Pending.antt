-- ===== src/Storage/DictTable/Batch/Pending.antt =====
-- When every stored value is found by its value, but for those of which the birth id is deferred.
use redbit.Prelude.{
  ◌≡◌, ◌⊎◌, inl, inr, refl, sym, ap, ap₂, ◌∙◌, Bool-cases, Option, none, some, List, [], ◌∷◌, ◌++◌,
}
use mathlib.Core.List.{Memᴰ}
use mathlib.Core.List.Memᴰ
use mathlib.Core.Option.{none-ne-some}
use redbit.Prelude.Equality.{Eq}
use redbit.Storage.Redb.{Updated}
use redbit.Storage.Redb.Views.{updated_here, updated_other, updated_inv}
use redbit.Storage.DictTable.Consistency.{AreFound}

module _ {K V : Type 0} where
  -- A value is found, or is deferred with its birth id, and then it has no other one.
  pub record ArePending (value_of : K → Option V) (birth_of : V → Option K) (batch : List (V × K))
      : Type 0 where
    pub found : (b : K) (v : V) → value_of b ≡ some v → (birth_of v ≡ some b) ⊎ Memᴰ (v, b) batch
    pub one : (v : V) (b c : K) → Memᴰ (v, b) batch → value_of c ≡ some v → c ≡ b

  pub AreFound-ArePending :
      {value_of : K → Option V} {birth_of : V → Option K}
      → AreFound value_of birth_of
      → ArePending value_of birth_of []
  AreFound-ArePending all = record {
    found = λ b v h. inl (all.found b v h);
    one = λ v b c m h. absurd (Memᴰ.not-nil m);
  }

  pub ArePending-AreFound :
      {value_of : K → Option V} {birth_of : V → Option K}
      → ArePending value_of birth_of []
      → AreFound value_of birth_of
  ArePending-AreFound wait = record {
    found = λ b v h. elim (wait.found b v h) [ inl e ↦ e | inr m ↦ absurd (Memᴰ.not-nil m) ];
  }

  -- The same of tables with the same contents, and of a batch with the same pairs.
  pub ArePending-same :
      {value_of value_of' : K → Option V} {birth_of birth_of' : V → Option K}
      {batch batch' : List (V × K)}
      → ((b : K) → value_of' b ≡ value_of b)
      → ((v : V) → birth_of' v ≡ birth_of v)
      → ((p : V × K) → Memᴰ p batch → Memᴰ p batch')
      → ((p : V × K) → Memᴰ p batch' → Memᴰ p batch)
      → ArePending value_of birth_of batch
      → ArePending value_of' birth_of' batch'
  ArePending-same values ids there back wait = record {
    found = λ b v h. elim (wait.found b v (sym (values b) ∙ h)) [
      | inl e ↦ inl (ids v ∙ e)
      | inr m ↦ inr (there (v, b) m)
    ];
    one = λ v b c m h. wait.one v b c (back (v, b) m) (sym (values c) ∙ h);
  }

  -- A new value, neither found nor deferred, is deferred.
  pub ArePending-new :
      (keys : Eq K) {value_of value_of' : K → Option V} {birth_of birth_of' : V → Option K}
      {batch : List (V × K)} {k : K} {v : V}
      → birth_of v ≡ none
      → ((b : K) → Memᴰ (v, b) batch → ⊥)
      → Updated keys value_of k v value_of'
      → ((w : V) → birth_of' w ≡ birth_of w)
      → ArePending value_of birth_of batch
      → ArePending value_of' birth_of' (batch ++ (v, k) ∷ [])
  ArePending-new keys {value_of} {value_of'} {birth_of} {birth_of'} {batch} {k} {v} new free up ids
        wait =
      record {
        found = λ b w h. elim (updated_inv keys up h) [
          | inl (kb, vw) ↦ inr (
              Memᴰ.cast (ap₂ (λ x y. (x, y)) (sym vw) (sym kb))
                (Memᴰ.append_right batch (Memᴰ.head refl)))
          | inr old ↦ elim (wait.found b w old) [
            | inl e ↦ inl (ids w ∙ e)
            | inr m ↦ inr (Memᴰ.append_left _ m)
          ]
        ];
        one = λ w b c m h. elim (Memᴰ.append_cases batch m) [
          | inl m' ↦ elim (updated_inv keys up h) [
            | inl (kc, vw) ↦ absurd (free b (Memᴰ.cast (ap (λ x. (x, b)) vw) m'))
            | inr old ↦ wait.one w b c m' old
          ]
          | inr m' ↦
              let is = Memᴰ.eq_of_singleton m' in
              elim (updated_inv keys up h) [
                | inl (kc, vw) ↦ sym kc ∙ sym (ap (λ p. p.1) is)
                | inr old ↦ elim (wait.found c w old) [
                  | inl e ↦
                      absurd (none-ne-some c (sym new ∙ ap birth_of (sym (ap (λ p. p.0) is)) ∙ e))
                  | inr m'' ↦
                      absurd (free c (Memᴰ.cast (ap (λ x. (x, c)) (sym (ap (λ p. p.0) is))) m''))
                ]
              ]
        ];
      }

  -- A deferred value gets its birth id.
  pub ArePending-flushed :
      (values : Eq V) {value_of : K → Option V} {birth_of birth_of' : V → Option K}
      {batch : List (V × K)} {b : K} {v : V}
      → Updated values birth_of v b birth_of'
      → ArePending value_of birth_of ((v, b) ∷ batch)
      → ArePending value_of birth_of' batch
  ArePending-flushed values {value_of} {birth_of} {birth_of'} {batch} {b} {v} up wait = record {
    found = λ c w h. elim (wait.found c w h) [
      | inl e ↦ elim (Bool-cases (values.same v w)) [
        | inl here ↦
            let vw : v ≡ w = (values.same_iff v w).0 here in
            let same : c ≡ b = wait.one v b c (Memᴰ.head refl) (h ∙ ap some (sym vw)) in
            inl (ap birth_of' (sym vw) ∙ updated_here values up ∙ ap some (sym same))
        | inr other ↦ inl (updated_other values up other ∙ e)
      ]
      | inr m ↦ elim (Memᴰ.cases_cons m) [
        | inl is ↦ inl (
            ap birth_of' (ap (λ p. p.0) is)
            ∙ updated_here values up
            ∙ ap some (sym (ap (λ p. p.1) is)))
        | inr m' ↦ inr m'
      ]
    ];
    one = λ w c d m h. wait.one w c d (Memᴰ.tail m) h;
  }
