-- ===== src/Storage/DictTable/Consistency.antt =====
-- When the four tables of a dictionary agree with each other and with its cache, and how writes keep
-- that.
use redbit.Prelude.{◌≡◌, ◌⊎◌, inl, inr, sym, ap, ap₂, ◌∙◌, Bool, true, Option, none, some, List, []}
use mathlib.Core.List.{Memᴰ}
use mathlib.Core.List.Memᴰ
use redbit.Prelude.Equality.{Eq}
use redbit.Storage.Redb.{Updated, Added}
use redbit.Storage.Redb.Views.{updated_inv, updated_keeps, added_inv, added_keeps}

-- The birth ids of the keys, the values of the birth ids, the birth ids of the values, the keys
-- listed for each birth id, and the birth ids that the cache has. Pending pairs of a birth id and a
-- key are not listed yet.
pub record Tables {K V CK : Type 0} (cache_key : V → CK) (pending : List (K × K))
    (birth : K → Option K) (value_of : K → Option V) (birth_of : V → Option K)
    (lists : K → K → Bool) (hit : CK → Option K) : Type 0 where
  pub keyed : (k b : K) → birth k ≡ some b → (lists b k ≡ true) ⊎ Memᴰ (b, k) pending
  pub listed : (k b : K) → lists b k ≡ true → birth k ≡ some b
  pub valued : (k b : K) → birth k ≡ some b → (v : V) × (value_of b ≡ some v)
  pub born : (v : V) (b : K) → birth_of v ≡ some b → value_of b ≡ some v
  pub cached : (v : V) (b : K) → hit (cache_key v) ≡ some b → value_of b ≡ some v

-- Every value that is stored is found by its value.
pub record AreFound {K V : Type 0} (value_of : K → Option V) (birth_of : V → Option K)
    : Type 0 where
  pub found : (b : K) (v : V) → value_of b ≡ some v → birth_of v ≡ some b

module _ {K V CK : Type 0} (cache_key : V → CK) {pending : List (K × K)} {birth : K → Option K}
    {value_of : K → Option V} {birth_of : V → Option K} {lists : K → K → Bool}
    {hit : CK → Option K} where
  -- A new key gets the birth id of a value and is pending.
  pub birth-Tables :
      (keys : Eq K) {k b : K} {v : V} {pending' : List (K × K)} {birth' : K → Option K}
      → birth k ≡ none
      → value_of b ≡ some v
      → Updated keys birth k b birth'
      → ((p : K × K) → Memᴰ p pending → Memᴰ p pending')
      → Memᴰ (b, k) pending'
      → Tables cache_key pending birth value_of birth_of lists hit
      → Tables cache_key pending' birth' value_of birth_of lists hit
  birth-Tables keys {k} {b} {v} {pending'} fresh at up more here ok = record {
    keyed = λ j c h. elim (updated_inv keys up h) [
      | inl (kj, bc) ↦ inr (Memᴰ.cast (ap₂ (λ x y. (x, y)) (sym bc) (sym kj)) here)
      | inr old ↦ elim (ok.keyed j c old) [ inl l ↦ inl l | inr m ↦ inr (more (c, j) m) ]
    ];
    listed = λ j c h. updated_keeps keys up fresh (ok.listed j c h);
    valued = λ j c h. elim (updated_inv keys up h) [
      | inl (kj, bc) ↦ (v, ap value_of (sym bc) ∙ at)
      | inr old ↦ ok.valued j c old
    ];
    born = ok.born;
    cached = ok.cached;
  }

  -- A key is listed for its birth id.
  pub key-Tables :
      (keys : Eq K) {k b : K} {lists' : K → K → Bool}
      → birth k ≡ some b
      → Added keys keys lists b k lists'
      → Tables cache_key pending birth value_of birth_of lists hit
      → Tables cache_key pending birth value_of birth_of lists' hit
  key-Tables keys {k} {b} at add ok = record {
    keyed = λ j c h. elim (ok.keyed j c h) [
      | inl l ↦ inl (added_keeps keys keys add l)
      | inr m ↦ inr m
    ];
    listed = λ j c h. elim (added_inv keys keys add h) [
      | inl (bc, kj) ↦ ap birth (sym kj) ∙ at ∙ ap some bc
      | inr old ↦ ok.listed j c old
    ];
    valued = ok.valued;
    born = ok.born;
    cached = ok.cached;
  }

  -- Nothing is pending once the keys of all pending pairs are listed.
  pub settled-Tables :
      ((b k : K) → Memᴰ (b, k) pending → lists b k ≡ true)
      → Tables cache_key pending birth value_of birth_of lists hit
      → Tables cache_key [] birth value_of birth_of lists hit
  settled-Tables all ok = record {
    keyed = λ j c h. elim (ok.keyed j c h) [ inl l ↦ inl l | inr m ↦ inl (all c j m) ];
    listed = ok.listed;
    valued = ok.valued;
    born = ok.born;
    cached = ok.cached;
  }

  -- A key that is no birth id yet gets a value.
  pub value-Tables :
      (keys : Eq K) {b : K} {v : V} {value_of' : K → Option V}
      → value_of b ≡ none
      → Updated keys value_of b v value_of'
      → Tables cache_key pending birth value_of birth_of lists hit
      → Tables cache_key pending birth value_of' birth_of lists hit
  value-Tables keys {b} {v} {value_of'} fresh up ok = record {
    keyed = ok.keyed;
    listed = ok.listed;
    valued = λ j c h. let (w, at) = ok.valued j c h in (w, updated_keeps keys up fresh at);
    born = λ w c h. updated_keeps keys up fresh (ok.born w c h);
    cached = λ w c h. updated_keeps keys up fresh (ok.cached w c h);
  }

  -- A value gets its birth id.
  pub born-Tables :
      (values : Eq V) {b : K} {v : V} {birth_of' : V → Option K}
      → value_of b ≡ some v
      → Updated values birth_of v b birth_of'
      → Tables cache_key pending birth value_of birth_of lists hit
      → Tables cache_key pending birth value_of birth_of' lists hit
  born-Tables values {b} {v} at up ok = record {
    keyed = ok.keyed;
    listed = ok.listed;
    valued = ok.valued;
    born = λ w c h. elim (updated_inv values up h) [
      | inl (vw, bc) ↦ ap value_of (sym bc) ∙ at ∙ ap some vw
      | inr old ↦ ok.born w c old
    ];
    cached = ok.cached;
  }

  -- The cache has nothing new but a birth id of a value.
  pub cached-Tables :
      {hit' : CK → Option K}
      → ((w : V) (c : K)
          → hit' (cache_key w) ≡ some c
          → (value_of c ≡ some w) ⊎ (hit (cache_key w) ≡ some c))
      → Tables cache_key pending birth value_of birth_of lists hit
      → Tables cache_key pending birth value_of birth_of lists hit'
  cached-Tables put ok = record {
    keyed = ok.keyed;
    listed = ok.listed;
    valued = ok.valued;
    born = ok.born;
    cached = λ w c h. elim (put w c h) [ inl new ↦ new | inr old ↦ ok.cached w c old ];
  }
