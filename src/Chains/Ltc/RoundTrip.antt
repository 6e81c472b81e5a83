-- ===== src/Chains/Ltc/RoundTrip.antt =====
-- Which texts of Litecoin addresses read back to the bytes that they were written from.
use redbit.Prelude.{
  ℕ, ◌≤◌, ◌≡◌, ◌≢◌, ◌↔◌, ◌⊎◌, inl, inr, ap, ◌∙◌, subst, Bool, true, false, Option, none, some, [],
  ◌∷◌, ◌++◌, length, if◌then◌else◌, leb, ◌==◌, Bool-cases, arith,
}
use redbit.Chains.Codec.{Bytes, Text, AllBytes, CodecError, Coded, tag_segwit}
use redbit.Chains.Ltc.{
  Crates, hrp_ltc, looks_bech32_addr, is_odd_length, is_tagged, is_legacy, segwit_bytes,
  encode_tagged_segwit, base58_serialize, serialize_as, deserialize_as,
}

-- What the crates document.
pub record IsCrates (crates : Crates) : Type 0 where
  pub decode-encode :
      (bytes : Bytes)
      → AllBytes bytes
      → crates.decode_check (crates.encode_check bytes) ≡ some bytes
  pub starts :
      (v : ℕ) (program : Bytes) (text : Text)
      → crates.segwit_encode hrp_ltc v program ≡ some text
      → (rest : Text) × (text ≡ hrp_ltc ++ b'1' ∷ rest)
  pub decodes :
      (v : ℕ) (program : Bytes) (text : Text)
      → crates.segwit_encode hrp_ltc v program ≡ some text
      → crates.segwit_decode text ≡ some (hrp_ltc, v, program)

looks_ltc1 : (rest : Text) → looks_bech32_addr (hrp_ltc ++ b'1' ∷ rest) ≡ true
unfolding looks_bech32_addr
looks_ltc1 rest = ground arith

-- What is read from a text that looks like bech32 begins with the tag.
segwit_bytes-tagged :
    (read : Option (Text × ℕ × Bytes)) (v : ℕ) (hash : Bytes)
    → (v ≡ 0x30) ⊎ (v ≡ 0x32)
    → segwit_bytes read ≢ Coded.ok (v ∷ hash)
unfolding segwit_bytes
segwit_bytes-tagged none v hash known h = cc
segwit_bytes-tagged (some (hrp, ver, program)) v hash known h = ground arith

module _ (crates : Crates) where
  encode_tagged_segwit-ok :
      (tag ver : ℕ) (program : Bytes) {text : Text}
      → encode_tagged_segwit crates (tag ∷ ver ∷ program) ≡ Coded.ok text
      → (ver ≤ 1)
        × (is_odd_length program ≡ false)
        × (crates.segwit_encode hrp_ltc ver program ≡ some text)
  unfolding encode_tagged_segwit
  encode_tagged_segwit-ok tag ver program h = ground arith

  base58_serialize-ok :
      (v : ℕ) (hash : Bytes) {text : Text}
      → base58_serialize crates (v ∷ hash) ≡ Coded.ok text
      → ((v ≡ 0x30) ⊎ (v ≡ 0x32)) × (crates.encode_check (v ∷ hash) ≡ text)
  unfolding base58_serialize
  base58_serialize-ok v hash h = ground arith

module _ (crates : Crates) (laws : IsCrates crates) where
  segwit_roundtrip :
      (ver : ℕ) (program : Bytes) (text : Text)
      → ver ≤ 1
      → is_odd_length program ≡ false
      → crates.segwit_encode hrp_ltc ver program ≡ some text
      → deserialize_as crates text ≡ Coded.ok (tag_segwit ∷ ver ∷ program)
  unfolding deserialize_as
  segwit_roundtrip ver program text le even done =
      let (rest, e) = laws.starts ver program text done in
      let looks : looks_bech32_addr text ≡ true = ap looks_bech32_addr e ∙ looks_ltc1 rest in
      let small : leb ver 16 ≡ true = ground arith in
      rw (looks, laws.decodes ver program text done, even, small)

  legacy_roundtrip :
      (v : ℕ) (hash : Bytes)
      → AllBytes (v ∷ hash)
      → length hash ≡ 20
      → (v ≡ 0x30) ⊎ (v ≡ 0x32)
      → (deserialize_as crates (crates.encode_check (v ∷ hash)) ≡ Coded.ok (v ∷ hash))
        ↔ (looks_bech32_addr (crates.encode_check (v ∷ hash)) ≡ false)
  unfolding deserialize_as
  legacy_roundtrip v hash bytes n known =
      elim (Bool-cases (looks_bech32_addr (crates.encode_check (v ∷ hash)))) [
        | inl looks ↦ (
          λ h. absurd (
              segwit_bytes-tagged (crates.segwit_decode (crates.encode_check (v ∷ hash))) v hash
                known (rw looks at h)),
          λ h. absurd (cc),
        )
        | inr plain ↦
            let fits : is_legacy (v ∷ hash) ≡ true = ground arith in
            (λ h. plain, λ h. rw (plain, laws.decode-encode (v ∷ hash) bytes, fits))
      ]

  -- Bytes that the codec writes as a text are read back from it exactly when they are those of a witness
  -- program, or the text does not begin like a bech32 address, in whichever case of letters.
  pub deserialize_as-serialize_as_iff :
      (source : Bytes) {text : Text}
      → AllBytes source
      → serialize_as crates source ≡ Coded.ok text
      → (deserialize_as crates text ≡ Coded.ok source)
        ↔ ((is_tagged source ≡ true) ⊎ (looks_bech32_addr text ≡ false))
  unfolding serialize_as
  deserialize_as-serialize_as_iff source {text} bytes h = elim (Bool-cases (is_tagged source)) [
    | inl tagged ↦ (λ _. inl tagged, λ _. tagged_case source tagged (rw tagged at h))
    | inr plain ↦
        let (to, from) = plain_case source bytes (rw plain at h) in
        (λ e. inr (to e), λ c. from (untagged plain c))
  ]
    where
      untagged : {b c : Bool} → b ≡ false → (b ≡ true) ⊎ (c ≡ false) → c ≡ false
      untagged e (inl e') = cc
      untagged e (inr e') = e'

      tagged_case :
          (source : Bytes) {text : Text}
          → is_tagged source ≡ true
          → encode_tagged_segwit crates source ≡ Coded.ok text
          → deserialize_as crates text ≡ Coded.ok source
      tagged_case [] tagged h = absurd (cc)
      tagged_case (tag ∷ []) tagged h = absurd (ground arith)
      tagged_case (tag ∷ ver ∷ program) {text} tagged h =
          let is : tag ≡ tag_segwit = ground arith in
          let (le, even, done) = encode_tagged_segwit-ok crates tag ver program h in
          segwit_roundtrip ver program text le even done ∙ rw is

      plain_case :
          (source : Bytes) {text : Text}
          → AllBytes source
          → (if length source == 21
              then base58_serialize crates source
              else Coded.err CodecError.unsupported_layout)
            ≡ Coded.ok text
          → (deserialize_as crates text ≡ Coded.ok source) ↔ (looks_bech32_addr text ≡ false)
      plain_case [] bytes h = absurd (cc)
      plain_case (v ∷ hash) {text} bytes h = elim (Bool-cases (length (v ∷ hash) == 21)) [
        | inl n ↦
            let (known, e) = base58_serialize-ok crates v hash (rw n at h) in
            subst
              (λ t. (deserialize_as crates t ≡ Coded.ok (v ∷ hash)) ↔ (looks_bech32_addr t ≡ false))
              e (legacy_roundtrip v hash bytes (ground arith) known)
        | inr other ↦ let bad = rw other at h in absurd (cc)
      ]
