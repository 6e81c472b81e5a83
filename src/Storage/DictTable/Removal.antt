-- ===== src/Storage/DictTable/Removal.antt =====
-- How removals keep the tables of a dictionary in agreement.
use redbit.Prelude.{◌≡◌, inl, inr, sym, ap, ap₂, ◌∙◌, Bool, Bool-cases, false, Option, some, []}
use mathlib.Core.Option.{some_inj}
use mathlib.Core.Bool.{false≢true}
use mathlib.Core.List.Memᴰ
use redbit.Prelude.Equality.{Eq}
use redbit.Storage.Redb.{Removed, Dropped}
use redbit.Storage.Redb.Views.{
  same_of_eq, not-same, removed_inv, removed_other, dropped_inv, dropped_here, dropped_keeps,
}
use redbit.Storage.DictTable.Consistency.{Tables, AreFound}

module _ {K V CK : Type 0} (cache_key : V → CK) {birth : K → Option K} {value_of : K → Option V}
    {birth_of : V → Option K} {lists : K → K → Bool} {hit : CK → Option K} where
  -- A key goes, and is no longer listed for its birth id.
  pub unlinked-Tables :
      (keys : Eq K) {k b : K} {birth' : K → Option K} {lists' : K → K → Bool}
      → birth k ≡ some b
      → Removed keys birth k birth'
      → Dropped keys keys lists b k lists'
      → Tables cache_key [] birth value_of birth_of lists hit
      → Tables cache_key [] birth' value_of birth_of lists' hit
  unlinked-Tables keys {k} {b} {birth'} {lists'} at gone drop ok = record {
    keyed = λ j c h.
        let (other, old) = removed_inv keys gone h in
        elim (ok.keyed j c old) [
          | inl l ↦ inl (dropped_keeps keys keys drop other l)
          | inr m ↦ inr m
        ];
    listed = λ j c h.
        let old = ok.listed j c (dropped_inv keys keys drop h) in
        elim (Bool-cases (keys.same k j)) [
          | inl here ↦
              let kj : k ≡ j = (keys.same_iff k j).0 here in
              let bc : b ≡ c = some_inj.0 (sym at ∙ ap birth kj ∙ old) in
              absurd (false≢true (sym (dropped_here keys keys drop) ∙ ap₂ lists' bc kj ∙ h))
          | inr other ↦ removed_other keys gone other ∙ old
        ];
    valued = λ j c h. ok.valued j c (removed_inv keys gone h).1;
    born = ok.born;
    cached = ok.cached;
  }

module _ {K V : Type 0} (keys : Eq K) (values : Eq V) {value_of : K → Option V}
    {birth_of : V → Option K} {b : K} {v : V} {value_of' : K → Option V} {birth_of' : V → Option K}
    (at : value_of b ≡ some v) (gone : Removed keys value_of b value_of')
    (gone' : Removed values birth_of v birth_of') where
  -- A birth id for another value is another one, and keeps its value.
  kept_value :
      {c : K} {w : V} → values.same v w ≡ false → value_of c ≡ some w → value_of' c ≡ some w
  kept_value {c} {w} apart old = elim (Bool-cases (keys.same b c)) [
    | inl here ↦
        let vw : v ≡ w = some_inj.0 (sym at ∙ ap value_of ((keys.same_iff b c).0 here) ∙ old) in
        absurd (false≢true (sym apart ∙ same_of_eq values vw))
    | inr other ↦ removed_other keys gone other ∙ old
  ]

  pub forgotten-AreFound : AreFound value_of birth_of → AreFound value_of' birth_of'
  forgotten-AreFound all = record {
    found = λ c w h.
        let (other, old) = removed_inv keys gone h in
        removed_other values gone' (
          not-same values (λ vw.
            let bc : b ≡ c =
              some_inj.0 (sym (all.found b v at) ∙ ap birth_of vw ∙ all.found c w old) in
            false≢true (sym other ∙ same_of_eq keys bc)))
        ∙ all.found c w old;
  }

module _ {K V CK : Type 0} (cache_key : V → CK) (keys : Eq K) (values : Eq V) (cache_keys : Eq CK)
    {birth : K → Option K} {value_of : K → Option V} {birth_of : V → Option K}
    {lists : K → K → Bool} {hit : CK → Option K} {b : K} {v : V} {value_of' : K → Option V}
    {birth_of' : V → Option K} (at : value_of b ≡ some v) (gone : Removed keys value_of b value_of')
    (gone' : Removed values birth_of v birth_of') where
  -- A value without keys goes.
  pub forgotten-Tables :
      {hit' : CK → Option K}
      → ((j : K) → lists b j ≡ false)
      → ((j : K) (w : V)
          → hit' (cache_key w) ≡ some j
          → (cache_keys.same (cache_key v) (cache_key w) ≡ false) × (hit (cache_key w) ≡ some j))
      → Tables cache_key [] birth value_of birth_of lists hit
      → Tables cache_key [] birth value_of' birth_of' lists hit'
  forgotten-Tables none_listed pop ok = record {
    keyed = ok.keyed;
    listed = ok.listed;
    valued = λ j c h.
        let (w, old) = ok.valued j c h in
        elim (ok.keyed j c h) [
          | inl l ↦ (
            w,
            removed_other keys gone (
                  not-same keys
                    (λ bc. false≢true (sym (none_listed j) ∙ ap (λ x. lists x j) bc ∙ l)))
                ∙ old,
          )
          | inr m ↦ absurd (Memᴰ.not-nil m)
        ];
    born = λ w c h.
        let (apart, old) = removed_inv values gone' h in
        kept_value keys values at gone gone' apart (ok.born w c old);
    cached = λ w c h.
        let (apart, old) = pop c w h in
        kept_value keys values at gone gone'
          (not-same values (λ vw. false≢true (sym apart ∙ same_of_eq cache_keys (ap cache_key vw))))
          (ok.cached w c old);
  }
