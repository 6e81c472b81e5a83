-- ===== src/Chains/Ltc.antt =====
-- chains/ltc/src/codec.rs: `BaseOrBech`, the codec of Litecoin's addresses. The tags and
-- `has_prefix_icase` are those of Chains/Codec.
pub mod RoundTrip
mod Tests
use redbit.Prelude.{
  ℕ, ◌+◌, Bool, true, false, ◌&&◌, ◌||◌, not, Option, none, some, List, [], ◌∷◌, length,
  if◌then◌else◌, leb, ◌==◌,
}
use redbit.Chains.Codec.{Bytes, Text, CodecError, Coded, tag_segwit, has_prefix_icase}

abbrev pub hrp_ltc : Text
hrp_ltc = b'l' ∷ b't' ∷ b'c' ∷ []

-- Base58Check, and `segwit::encode` and `segwit::decode`.
pub record Crates : Type 0 where
  pub encode_check : Bytes → Text
  pub decode_check : Text → Option Bytes
  pub segwit_encode : Text → ℕ → Bytes → Option Text
  pub segwit_decode : Text → Option (Text × ℕ × Bytes)

unfoldable pub looks_bech32_addr : Text → Bool
unfolding has_prefix_icase
looks_bech32_addr s =
    has_prefix_icase s (b'l' ∷ b't' ∷ b'c' ∷ b'1' ∷ [])
    || has_prefix_icase s (b't' ∷ b'l' ∷ b't' ∷ b'c' ∷ b'1' ∷ [])

-- `prog.len() != 20 && prog.len() != 32`
abbrev pub is_odd_length : Bytes → Bool
is_odd_length program = not (length program == 20) && not (length program == 32)

abbrev pub is_tagged : Bytes → Bool
is_tagged [] = false
is_tagged (b ∷ bytes) = leb 3 (length (b ∷ bytes)) && b == tag_segwit

-- The arm for texts that look like bech32; the human-readable part is not kept.
unfoldable pub segwit_bytes : Option (Text × ℕ × Bytes) → Coded Bytes
segwit_bytes none = Coded.err CodecError.parse_failed
segwit_bytes (some (hrp, ver, program)) =
    if is_odd_length program
    then Coded.err CodecError.invalid_length
    else if leb ver 16
    then Coded.ok (tag_segwit ∷ ver ∷ program)
    else Coded.err CodecError.invalid_version

-- `vec.len() == 21 && matches!(vec.first(), Some(0x30) | Some(0x32))`
abbrev pub is_legacy : Bytes → Bool
is_legacy [] = false
is_legacy (v ∷ hash) = length (v ∷ hash) == 21 && (v == 0x30 || v == 0x32)

module _ (crates : Crates) where
  unfoldable pub encode_tagged_segwit : Bytes → Coded Text
  encode_tagged_segwit [] = Coded.panic
  encode_tagged_segwit (tag ∷ []) = Coded.panic
  encode_tagged_segwit (tag ∷ ver ∷ program) =
      if is_odd_length program
      then Coded.err CodecError.invalid_length
      else if ver == 0 || ver == 1
      then elim (crates.segwit_encode hrp_ltc ver program) [
        | none ↦ Coded.err CodecError.encode_failed
        | some text ↦ Coded.ok text
      ]
      else Coded.err CodecError.invalid_version

  unfoldable pub base58_serialize : Bytes → Coded Text
  base58_serialize [] = Coded.panic
  base58_serialize (v ∷ hash) =
      if v == 0x30 || v == 0x32
      then Coded.ok (crates.encode_check (v ∷ hash))
      else Coded.err CodecError.unknown_version

  unfoldable pub serialize_as : Bytes → Coded Text
  unfolding encode_tagged_segwit base58_serialize
  serialize_as source =
      if is_tagged source
      then encode_tagged_segwit source
      else if length source == 21
      then base58_serialize source
      else Coded.err CodecError.unsupported_layout

  unfoldable pub deserialize_as : Text → Coded Bytes
  unfolding looks_bech32_addr segwit_bytes
  deserialize_as s =
      if looks_bech32_addr s
      then segwit_bytes (crates.segwit_decode s)
      else elim (crates.decode_check s) [
        | none ↦ Coded.err CodecError.invalid_address
        | some bytes ↦
            if is_legacy bytes then Coded.ok bytes else Coded.err CodecError.invalid_length
      ]
