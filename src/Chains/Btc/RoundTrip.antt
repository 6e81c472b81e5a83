-- ===== src/Chains/Btc/RoundTrip.antt =====
-- Texts of addresses read back to the bytes that they were written from.
use redbit.Prelude.{
  ℕ, ◌≤◌, ◌≡◌, ◌⊎◌, inl, inr, refl, sym, ap, ◌∙◌, true, false, some, [], ◌∷◌, ◌++◌, length,
  if◌then◌else◌, ◌==◌, Bool-cases, arith,
}
use redbit.Chains.Codec.{
  Bytes, Text, AllBytes, Crates, IsCrates, Leads, CodecError, Coded, tag_segwit,
}
use redbit.Chains.Btc.Codec.{
  hrp_bc, looks_bech32_addr, is_odd_length, is_tagged, is_legacy, encode_tagged_segwit,
  base58_serialize, serialize_as, deserialize_as,
}

looks_bc1 : (rest : Text) → looks_bech32_addr (hrp_bc ++ b'1' ∷ rest) ≡ true
unfolding looks_bech32_addr
looks_bc1 rest = ground arith

looks_legacy_1 : (rest : Text) → looks_bech32_addr (b'1' ∷ rest) ≡ false
unfolding looks_bech32_addr
looks_legacy_1 rest = ground arith

looks_legacy_3 : (rest : Text) → looks_bech32_addr (b'3' ∷ rest) ≡ false
unfolding looks_bech32_addr
looks_legacy_3 rest = ground arith

is_odd_length-false :
    (program : Bytes)
    → is_odd_length program ≡ false
    → (length program ≡ 20) ⊎ (length program ≡ 32)
is_odd_length-false program h = ground arith

module _ (crates : Crates) where
  encode_tagged_segwit-ok :
      (tag ver : ℕ) (program : Bytes) {text : Text}
      → encode_tagged_segwit crates (tag ∷ ver ∷ program) ≡ Coded.ok text
      → ((v : ℕ) → v ≤ 16 → crates.witness_version v ≡ some v)
      → (ver ≤ 16)
        × (is_odd_length program ≡ false)
        × (crates.segwit_encode hrp_bc ver program ≡ some text)
  unfolding encode_tagged_segwit
  encode_tagged_segwit-ok tag ver program h versions = ground (arith, versions ver)

  base58_serialize-ok :
      (v : ℕ) (hash : Bytes) {text : Text}
      → base58_serialize crates (v ∷ hash) ≡ Coded.ok text
      → ((v ≡ 0x00) ⊎ (v ≡ 0x05)) × (crates.encode_check (v ∷ hash) ≡ text)
  unfolding base58_serialize
  base58_serialize-ok v hash h = ground arith

module _ (crates : Crates) (laws : IsCrates crates hrp_bc) where
  segwit_roundtrip :
      (ver : ℕ) (program : Bytes) (text : Text)
      → is_odd_length program ≡ false
      → crates.segwit_encode hrp_bc ver program ≡ some text
      → deserialize_as crates text ≡ Coded.ok (tag_segwit ∷ ver ∷ program)
  unfolding deserialize_as
  segwit_roundtrip ver program text even done =
      let (rest, e) = laws.starts ver program text done in
      let looks : looks_bech32_addr text ≡ true = ap looks_bech32_addr e ∙ looks_bc1 rest in
      rw (looks, laws.parses ver program text done, even)

  looks_legacy :
      (v : ℕ) (hash : Bytes)
      → AllBytes (v ∷ hash)
      → length hash ≡ 20
      → (v ≡ 0x00) ⊎ (v ≡ 0x05)
      → looks_bech32_addr (crates.encode_check (v ∷ hash)) ≡ false
  looks_legacy v hash bytes n (inl e) =
      let (rest, starts) = laws.leads v b'1' hash bytes n (Leads.p2pkh e refl) in
      ap looks_bech32_addr starts ∙ looks_legacy_1 rest
  looks_legacy v hash bytes n (inr e) =
      let (rest, starts) = laws.leads v b'3' hash bytes n (Leads.p2sh e refl) in
      ap looks_bech32_addr starts ∙ looks_legacy_3 rest

  legacy_roundtrip :
      (v : ℕ) (hash : Bytes)
      → AllBytes (v ∷ hash)
      → length hash ≡ 20
      → (v ≡ 0x00) ⊎ (v ≡ 0x05)
      → deserialize_as crates (crates.encode_check (v ∷ hash)) ≡ Coded.ok (v ∷ hash)
  unfolding deserialize_as
  legacy_roundtrip v hash bytes n known =
      let fits : is_legacy (v ∷ hash) ≡ true = ground arith in
      rw (looks_legacy v hash bytes n known, laws.decode-encode (v ∷ hash) bytes, fits)

  -- Bytes that the codec writes as a text are read back from it.
  pub deserialize_as-serialize_as :
      (source : Bytes) {text : Text}
      → AllBytes source
      → serialize_as crates source ≡ Coded.ok text
      → deserialize_as crates text ≡ Coded.ok source
  unfolding serialize_as
  deserialize_as-serialize_as source bytes h = elim (Bool-cases (is_tagged source)) [
    | inl tagged ↦ tagged_case source tagged (rw tagged at h)
    | inr plain ↦ plain_case source bytes (rw plain at h)
  ]
    where
      tagged_case :
          (source : Bytes) {text : Text}
          → is_tagged source ≡ true
          → encode_tagged_segwit crates source ≡ Coded.ok text
          → deserialize_as crates text ≡ Coded.ok source
      tagged_case [] tagged h = absurd (cc)
      tagged_case (tag ∷ []) tagged h = absurd (ground arith)
      tagged_case (tag ∷ ver ∷ program) {text} tagged h =
          let is : tag ≡ tag_segwit = ground arith in
          let (_, even, done) = encode_tagged_segwit-ok crates tag ver program h laws.version_le in
          segwit_roundtrip ver program text even done ∙ rw is

      plain_case :
          (source : Bytes) {text : Text}
          → AllBytes source
          → (if length source == 21
              then base58_serialize crates source
              else Coded.err CodecError.unsupported_layout)
            ≡ Coded.ok text
          → deserialize_as crates text ≡ Coded.ok source
      plain_case [] bytes h = absurd (cc)
      plain_case (v ∷ hash) bytes h = elim (Bool-cases (length (v ∷ hash) == 21)) [
        | inl n ↦
            let (known, e) = base58_serialize-ok crates v hash (rw n at h) in
            ap (deserialize_as crates) (sym e) ∙ legacy_roundtrip v hash bytes (ground arith) known
        | inr other ↦ let bad = rw other at h in absurd (cc)
      ]
