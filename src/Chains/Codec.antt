-- ===== src/Chains/Codec.antt =====
-- What the codecs of chains/btc/src/codec.rs and chains/ltc/src/codec.rs share: bytes, texts as their
-- bytes, the tags of addresses, the results of serde, and the interface of the crates bs58, bech32
-- and bitcoin that they call.
use Prim.Native.Nat.{bit_xor}
use redbit.Prelude.{
  ℕ, ◌-◌, ◌<◌, ◌≤◌, ◌≡◌, ◌⊎◌, Bool, true, false, ◌||◌, Option, none, some, List, [], ◌∷◌, ◌++◌,
  length, take, drop, if◌then◌else◌, ltb, ◌==◌,
}

abbrev pub Bytes : Type 0
Bytes = List ℕ

-- A text, by its bytes.
abbrev pub Text : Type 0
Text = List ℕ

abbrev pub AllBytes : Bytes → Type 0
AllBytes [] = Unit {0}
AllBytes (b ∷ bytes) = (b < 256) × AllBytes bytes

abbrev pub tag_segwit : ℕ
tag_segwit = 0xb0

abbrev pub tag_op_return : ℕ
tag_op_return = 0xf0

abbrev pub tag_non_addr : ℕ
tag_non_addr = 0xff

-- The errors that the codecs make.
pub data CodecError : Type 0 where
  invalid_version : CodecError
  invalid_length : CodecError
  unknown_version : CodecError
  encode_failed : CodecError
  unsupported_layout : CodecError
  parse_failed : CodecError
  no_program : CodecError
  invalid_address : CodecError

pub data Coded (A : Type 0) : Type 0 where
  ok : A → Coded A
  err : CodecError → Coded A
  panic : Coded A

unfoldable pub ascii_eq_icase : ℕ → ℕ → Bool
ascii_eq_icase a b = a == b || bit_xor a 0x20 == b

-- The loop of `has_prefix_icase`, which has tested the lengths.
unfoldable pub matches_icase : Bytes → Bytes → Bool
unfolding ascii_eq_icase
matches_icase s [] = true
matches_icase [] (p ∷ ps) = false
matches_icase (c ∷ s) (p ∷ ps) = if ascii_eq_icase c p then matches_icase s ps else false

unfoldable pub has_prefix_icase : Text → Bytes → Bool
unfolding matches_icase
has_prefix_icase s p = if ltb (length s) (length p) then false else matches_icase s p

-- `&b[from..to]`
unfoldable pub slice : ℕ → ℕ → Bytes → Option Bytes
slice from to b = if ltb (length b) to then none else some (take (to - from) (drop from b))

-- `WitnessVersion::try_from`, `segwit::encode` by the human-readable part, the version and the
-- program, the parsing of a text to a witness program (`some none` if it is an address without one),
-- and Base58Check.
pub record Crates : Type 0 where
  pub encode_check : Bytes → Text
  pub decode_check : Text → Option Bytes
  pub witness_version : ℕ → Option ℕ
  pub segwit_encode : Text → ℕ → Bytes → Option Text
  pub parse_program : Text → Option (Option (ℕ × Bytes))

-- The first characters of Base58Check texts of 21 bytes, by the version byte.
pub data Leads : ℕ → ℕ → Type 0 where
  p2pkh : {v : ℕ} → v ≡ 0 → {c : ℕ} → c ≡ b'1' → Leads v c
  p2sh : {v : ℕ} → v ≡ 5 → {c : ℕ} → c ≡ b'3' → Leads v c

-- What the crates document, for the human-readable part of a main network.
pub record IsCrates (crates : Crates) (hrp : Text) : Type 0 where
  pub decode-encode :
      (bytes : Bytes)
      → AllBytes bytes
      → crates.decode_check (crates.encode_check bytes) ≡ some bytes
  pub leads :
      (v c : ℕ) (hash : Bytes)
      → AllBytes (v ∷ hash)
      → length hash ≡ 20
      → Leads v c
      → (rest : Text) × (crates.encode_check (v ∷ hash) ≡ c ∷ rest)
  pub version_le : (v : ℕ) → v ≤ 16 → crates.witness_version v ≡ some v
  pub encodes :
      (v : ℕ) (program : Bytes)
      → v ≤ 16
      → AllBytes program
      → (length program ≡ 20) ⊎ (length program ≡ 32)
      → (text : Text) × (crates.segwit_encode hrp v program ≡ some text)
  pub starts :
      (v : ℕ) (program : Bytes) (text : Text)
      → crates.segwit_encode hrp v program ≡ some text
      → (rest : Text) × (text ≡ hrp ++ b'1' ∷ rest)
  pub parses :
      (v : ℕ) (program : Bytes) (text : Text)
      → crates.segwit_encode hrp v program ≡ some text
      → crates.parse_program text ≡ some (some (v, program))
