-- ===== src/Storage/IndexTable/Consistency.antt =====
-- When the tables of an index agree with each other and with its cache, and how writes keep that.
use redbit.Prelude.{
  ◌≡◌, ◌⊎◌, inl, inr, sym, ap, ap₂, ◌∙◌, Bool, Bool-cases, true, false, Option, none, some, List,
  [], ◌∷◌,
}
use mathlib.Core.Option.{some_inj}
use mathlib.Core.Bool.{false≢true}
use mathlib.Core.List.{Memᴰ}
use redbit.Prelude.Equality.{Eq}
use redbit.Storage.Redb.{Updated, Removed, Added, Dropped}
use redbit.Storage.Redb.Views.{
  same_of_eq, updated_here, updated_inv, updated_keeps, removed_inv, removed_other, added_inv,
  added_keeps, dropped_inv, dropped_here, dropped_keeps,
}

-- The values of the keys, the keys listed for each value, and the key that the cache has for a
-- cache key. The keys of the pending pairs are not listed yet.
pub record Indexes {K V CK : Type 0} (cache_key : V → CK) (pending : List (K × V))
    (value : K → Option V) (lists : V → K → Bool) (hit : CK → Option K) : Type 0 where
  pub listed : (k : K) (v : V) → value k ≡ some v → (lists v k ≡ true) ⊎ Memᴰ (k, v) pending
  pub stored : (k : K) (v : V) → lists v k ≡ true → value k ≡ some v
  pub cached : (k : K) (v : V) → hit (cache_key v) ≡ some k → value k ≡ some v

module _ {K V CK : Type 0} (cache_key : V → CK) {pending : List (K × V)} {value : K → Option V}
    {lists : V → K → Bool} {hit : CK → Option K} where
  -- A new key has a value, which may be in the cache, and is pending.
  pub value-Indexes :
      (keys : Eq K) {k : K} {v : V} {value' : K → Option V} {hit' : CK → Option K}
      → value k ≡ none
      → Updated keys value k v value'
      → ((j : K) (w : V)
          → hit' (cache_key w) ≡ some j
          → ((v ≡ w) × (k ≡ j)) ⊎ (hit (cache_key w) ≡ some j))
      → Indexes cache_key pending value lists hit
      → Indexes cache_key ((k, v) ∷ pending) value' lists hit'
  value-Indexes keys {k} {v} {value'} {hit'} fresh up put ok = record {
    listed = λ j w h. elim (updated_inv keys up h) [
      | inl (kj, vw) ↦ inr (Memᴰ.head (ap₂ (λ a b. (a, b)) (sym kj) (sym vw)))
      | inr old ↦ elim (ok.listed j w old) [ inl l ↦ inl l | inr m ↦ inr (Memᴰ.tail m) ]
    ];
    stored = λ j w h. updated_keeps keys up fresh (ok.stored j w h);
    cached = λ j w h. elim (put j w h) [
      | inl (vw, kj) ↦ ap value' (sym kj) ∙ updated_here keys up ∙ ap some vw
      | inr old ↦ updated_keeps keys up fresh (ok.cached j w old)
    ];
  }

  -- A key is listed for its value.
  pub key-Indexes :
      (keys : Eq K) (values : Eq V) {k : K} {v : V} {lists' : V → K → Bool}
      → value k ≡ some v
      → Added values keys lists v k lists'
      → Indexes cache_key pending value lists hit
      → Indexes cache_key pending value lists' hit
  key-Indexes keys values {k} {v} at add ok = record {
    listed = λ j w h. elim (ok.listed j w h) [
      | inl l ↦ inl (added_keeps values keys add l)
      | inr m ↦ inr m
    ];
    stored = λ j w h. elim (added_inv values keys add h) [
      | inl (vw, kj) ↦ ap value (sym kj) ∙ at ∙ ap some vw
      | inr old ↦ ok.stored j w old
    ];
    cached = ok.cached;
  }

  pub same-Indexes :
      {value' : K → Option V} {hit' : CK → Option K}
      → ((k : K) → value' k ≡ value k)
      → ((ck : CK) → hit' ck ≡ hit ck)
      → Indexes cache_key pending value lists hit
      → Indexes cache_key pending value' lists hit'
  same-Indexes same same' ok = record {
    listed = λ j w h. ok.listed j w (sym (same j) ∙ h);
    stored = λ j w h. same j ∙ ok.stored j w h;
    cached = λ j w h. same j ∙ ok.cached j w (sym (same' (cache_key w)) ∙ h);
  }

  -- Nothing is pending once the keys of all pending pairs are listed.
  pub settled-Indexes :
      ((k : K) (v : V) → Memᴰ (k, v) pending → lists v k ≡ true)
      → Indexes cache_key pending value lists hit
      → Indexes cache_key [] value lists hit
  settled-Indexes all ok = record {
    listed = λ j w h. elim (ok.listed j w h) [ inl l ↦ inl l | inr m ↦ inl (all j w m) ];
    stored = ok.stored;
    cached = ok.cached;
  }

module _ {K V CK : Type 0} (cache_key : V → CK) {value : K → Option V} {lists : V → K → Bool}
    {hit : CK → Option K} where
  -- A key goes with its value.
  pub remove-Indexes :
      (keys : Eq K) (values : Eq V) (cache_keys : Eq CK) {k : K} {v : V} {value' : K → Option V}
      {lists' : V → K → Bool} {hit' : CK → Option K}
      → value k ≡ some v
      → Removed keys value k value'
      → Dropped values keys lists v k lists'
      → ((j : K) (w : V)
          → hit' (cache_key w) ≡ some j
          → (cache_keys.same (cache_key v) (cache_key w) ≡ false) × (hit (cache_key w) ≡ some j))
      → Indexes cache_key [] value lists hit
      → Indexes cache_key [] value' lists' hit'
  remove-Indexes keys values cache_keys {k} {v} {value'} {lists'} {hit'} at gone drop pop ok =
      record {
        listed = λ j w h.
            let (other, old) = removed_inv keys gone h in
            elim (ok.listed j w old) [
              | inl l ↦ inl (dropped_keeps values keys drop other l)
              | inr m ↦ inr m
            ];
        stored = λ j w h.
            let old = ok.stored j w (dropped_inv values keys drop h) in
            elim (Bool-cases (keys.same k j)) [
              | inl here ↦
                  let kj : k ≡ j = (keys.same_iff k j).0 here in
                  let vw : v ≡ w = some_inj.0 (sym at ∙ ap value kj ∙ old) in
                  absurd (false≢true (sym (dropped_here values keys drop) ∙ ap₂ lists' vw kj ∙ h))
              | inr other ↦ removed_other keys gone other ∙ old
            ];
        cached = λ j w h.
            let (apart, in_cache) = pop j w h in
            let old = ok.cached j w in_cache in
            elim (Bool-cases (keys.same k j)) [
              | inl here ↦
                  let vw : v ≡ w =
                    some_inj.0 (sym at ∙ ap value ((keys.same_iff k j).0 here) ∙ old) in
                  absurd (false≢true (sym apart ∙ same_of_eq cache_keys (ap cache_key vw)))
              | inr other ↦ removed_other keys gone other ∙ old
            ];
      }
