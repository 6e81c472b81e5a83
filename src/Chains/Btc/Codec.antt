-- ===== src/Chains/Btc/Codec.antt =====
-- chains/btc/src/codec.rs: `BaseOrBech`, the codec of addresses between the bytes of the index and
-- texts.
use redbit.Prelude.{
  ℕ, Bool, false, ◌&&◌, ◌||◌, not, Option, none, some, [], ◌∷◌, length, if◌then◌else◌, ltb, leb,
  ◌==◌,
}
use redbit.Chains.Codec.{Bytes, Text, Crates, CodecError, Coded, tag_segwit, has_prefix_icase}

abbrev pub hrp_bc : Text
hrp_bc = b'b' ∷ b'c' ∷ []

unfoldable pub looks_bech32_addr : Text → Bool
unfolding has_prefix_icase
looks_bech32_addr s =
    has_prefix_icase s (b'b' ∷ b'c' ∷ b'1' ∷ [])
    || has_prefix_icase s (b't' ∷ b'b' ∷ b'1' ∷ [])
    || has_prefix_icase s (b'b' ∷ b'c' ∷ b'r' ∷ b't' ∷ b'1' ∷ [])

-- `prog.len() != 20 && prog.len() != 32`
abbrev pub is_odd_length : Bytes → Bool
is_odd_length program = not (length program == 20) && not (length program == 32)

abbrev pub is_tagged : Bytes → Bool
is_tagged [] = false
is_tagged (b ∷ bytes) = leb 3 (length (b ∷ bytes)) && b == tag_segwit

-- The arm for texts that look like bech32.
unfoldable pub segwit_bytes : Option (Option (ℕ × Bytes)) → Coded Bytes
segwit_bytes none = Coded.err CodecError.parse_failed
segwit_bytes (some none) = Coded.err CodecError.no_program
segwit_bytes (some (some (ver, program))) =
    if is_odd_length program
    then Coded.err CodecError.invalid_length
    else Coded.ok (tag_segwit ∷ ver ∷ program)

-- `vec.len() == 21 && matches!(vec.first(), Some(0x00) | Some(0x05))`
abbrev pub is_legacy : Bytes → Bool
is_legacy [] = false
is_legacy (v ∷ hash) = length (v ∷ hash) == 21 && (v == 0x00 || v == 0x05)

module _ (crates : Crates) where
  unfoldable pub encode_tagged_segwit : Bytes → Coded Text
  encode_tagged_segwit [] = Coded.panic
  encode_tagged_segwit (tag ∷ []) = Coded.panic
  encode_tagged_segwit (tag ∷ ver ∷ program) =
      if ltb 16 ver
      then Coded.err CodecError.invalid_version
      else if is_odd_length program
      then Coded.err CodecError.invalid_length
      else elim (crates.witness_version ver) [
        | none ↦ Coded.err CodecError.invalid_version
        | some version ↦ elim (crates.segwit_encode hrp_bc version program) [
          | none ↦ Coded.err CodecError.encode_failed
          | some text ↦ Coded.ok text
        ]
      ]

  unfoldable pub base58_serialize : Bytes → Coded Text
  base58_serialize [] = Coded.panic
  base58_serialize (v ∷ hash) =
      if v == 0x00 || v == 0x05
      then Coded.ok (crates.encode_check (v ∷ hash))
      else Coded.err CodecError.unknown_version

  unfoldable pub serialize_as : Bytes → Coded Text
  unfolding encode_tagged_segwit base58_serialize
  serialize_as source =
      if is_tagged source
      then encode_tagged_segwit source
      else if length source == 21
      then base58_serialize source
      else Coded.err CodecError.unsupported_layout

  unfoldable pub deserialize_as : Text → Coded Bytes
  unfolding looks_bech32_addr segwit_bytes
  deserialize_as s =
      if looks_bech32_addr s
      then segwit_bytes (crates.parse_program s)
      else elim (crates.decode_check s) [
        | none ↦ Coded.err CodecError.invalid_address
        | some bytes ↦
            if is_legacy bytes then Coded.ok bytes else Coded.err CodecError.invalid_length
      ]
