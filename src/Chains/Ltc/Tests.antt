-- ===== src/Chains/Ltc/Tests.antt =====
-- A toy Base58Check that writes the version 0x30 as the letter L and the other bytes as they are, and
-- a toy bech32 without a checksum.
use redbit.Prelude.{
  ℕ, ◌≡◌, ◌↔◌, ◌⊎◌, refl, sym, ap, true, false, Option, none, some, [], ◌∷◌, ◌++◌, replicate,
  if◌then◌else◌, ◌==◌, arith,
}
use redbit.Chains.Codec.{Bytes, Text, Coded}
use redbit.Chains.Ltc.{Crates, hrp_ltc, is_tagged, looks_bech32_addr, serialize_as, deserialize_as}
use redbit.Chains.Ltc.RoundTrip.{IsCrates, deserialize_as-serialize_as_iff}

toy_encode : Bytes → Text
toy_encode [] = []
toy_encode (v ∷ hash) = if v == 0x30 then b'L' ∷ hash else b'z' ∷ v ∷ hash

toy_decode : Text → Option Bytes
toy_decode [] = some []
toy_decode (c ∷ rest) = if c == b'L' then some (0x30 ∷ rest) else some rest

toy_segwit : Text → Option (Text × ℕ × Bytes)
toy_segwit (_ ∷ _ ∷ _ ∷ _ ∷ v ∷ program) = some (hrp_ltc, v, program)
toy_segwit _ = none

abbrev toy : Crates
toy = record {
  encode_check = toy_encode;
  decode_check = toy_decode;
  segwit_encode = λ hrp v program. some (hrp ++ b'1' ∷ v ∷ program);
  segwit_decode = toy_segwit;
}

toy_decode-toy_encode : (bytes : Bytes) → toy_decode (toy_encode bytes) ≡ some bytes
unfolding toy_decode toy_encode
toy_decode-toy_encode [] = refl
toy_decode-toy_encode (v ∷ hash) = ground arith

toy_decodes :
    (v : ℕ) (program : Bytes) (text : Text)
    → some (hrp_ltc ++ b'1' ∷ v ∷ program) ≡ some text
    → toy_segwit text ≡ some (hrp_ltc, v, program)
unfolding toy_segwit
toy_decodes v program text h =
    let e : hrp_ltc ++ b'1' ∷ v ∷ program ≡ text = cc in ap toy_segwit (sym e)

toy-IsCrates : IsCrates toy
toy-IsCrates = record {
  decode-encode = λ bytes _. toy_decode-toy_encode bytes;
  starts = λ v program text h. (v ∷ program, cc);
  decodes = toy_decodes;
}

-- A legacy address whose text begins with LTC1.
abbrev unlucky : Bytes
unlucky = 0x30 ∷ b'T' ∷ b'C' ∷ b'1' ∷ replicate 17 0x41

abbrev unlucky_text : Text
unlucky_text = b'L' ∷ b'T' ∷ b'C' ∷ b'1' ∷ replicate 17 0x41

looks_unlucky : looks_bech32_addr unlucky_text ≡ true
unfolding looks_bech32_addr
looks_unlucky = refl

deserialize_as-serialize_as_iff_example :
    (deserialize_as toy unlucky_text ≡ Coded.ok unlucky)
    ↔ ((is_tagged unlucky ≡ true) ⊎ (looks_bech32_addr unlucky_text ≡ false))
unfolding serialize_as toy_encode
deserialize_as-serialize_as_iff_example =
    deserialize_as-serialize_as_iff toy toy-IsCrates unlucky (omega arith) refl
