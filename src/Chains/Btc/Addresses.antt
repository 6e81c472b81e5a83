-- ===== src/Chains/Btc/Addresses.antt =====
-- The bytes that the scripts of outputs are indexed by, and their texts.
use redbit.Prelude.{
  ℕ, zero, suc, ◌-◌, ◌≤◌, ◌≡◌, ◌⊎◌, inl, inr, refl, true, ◌||◌, Option, none, some, [], ◌∷◌, length,
  take, drop, length-take, length-drop, ◌==◌, Bool-cases, arith,
}
use redbit.Chains.Codec.{
  Bytes, Text, AllBytes, Crates, IsCrates, CodecError, Coded, slice, tag_segwit, tag_op_return,
  tag_non_addr,
}
use redbit.Chains.Btc.Codec.{hrp_bc, serialize_as, deserialize_as}
use redbit.Chains.Btc.RoundTrip.{deserialize_as-serialize_as}
use redbit.Chains.Btc.Provider.{Scripts, program_bytes, spk_to_address_bytes_or_tag}

-- What the crate bitcoin documents of its tests: the lengths of the scripts, and that versions of
-- witness programs go up to 16.
pub record IsScripts (scripts : Scripts) : Type 0 where
  pub p2pkh_length : (spk : Bytes) → scripts.is_p2pkh spk ≡ true → length spk ≡ 25
  pub p2sh_length : (spk : Bytes) → scripts.is_p2sh spk ≡ true → length spk ≡ 23
  pub program_length : (spk : Bytes) → scripts.is_witness_program spk ≡ true → 4 ≤ length spk
  pub has_opcode :
      (spk : Bytes)
      → scripts.is_witness_program spk ≡ true
      → (opcode : ℕ) × (scripts.first_opcode spk ≡ some opcode)
  pub version_le : (opcode v : ℕ) → scripts.opcode_version opcode ≡ some v → v ≤ 16

-- The addresses that have a text, and the tags.
pub data IsAddress : Bytes → Type 0 where
  legacy :
      {v : ℕ} {hash : Bytes}
      → (v ≡ 0x00) ⊎ (v ≡ 0x05)
      → length hash ≡ 20
      → AllBytes hash
      → IsAddress (v ∷ hash)
  segwit :
      {v : ℕ} {program : Bytes}
      → v ≤ 16
      → (length program ≡ 20) ⊎ (length program ≡ 32)
      → AllBytes program
      → IsAddress (tag_segwit ∷ v ∷ program)

abbrev pub IsTag : Bytes → Type 0
IsTag address = (address ≡ tag_op_return ∷ []) ⊎ (address ≡ tag_non_addr ∷ [])

take-AllBytes : (n : ℕ) (b : Bytes) → AllBytes b → AllBytes (take n b)
take-AllBytes zero b all = tt
take-AllBytes (suc n) [] all = tt
take-AllBytes (suc n) (x ∷ b) all = (all.0, take-AllBytes n b all.1)

drop-AllBytes : (n : ℕ) (b : Bytes) → AllBytes b → AllBytes (drop n b)
drop-AllBytes zero b all = all
drop-AllBytes (suc n) [] all = tt
drop-AllBytes (suc n) (x ∷ b) all = drop-AllBytes n b all.1

slice_lem :
    (from to : ℕ) (b : Bytes)
    → from ≤ to
    → to ≤ length b
    → AllBytes b
    → (part : Bytes) × (slice from to b ≡ some part) × (length part ≡ to - from) × AllBytes part
unfolding slice
slice_lem from to b le fits all = (
  take (to - from) (drop from b),
  ground arith,
  omega (arith, length-take (to - from) (drop from b), length-drop from b),
  take-AllBytes (to - from) (drop from b) (drop-AllBytes from b all),
)

program_bytes_lem :
    (version : Option ℕ) (program : Bytes)
    → ((v : ℕ) → version ≡ some v → v ≤ 16)
    → AllBytes program
    → IsTag (program_bytes version program) ⊎ IsAddress (program_bytes version program)
unfolding program_bytes
program_bytes_lem none program le all = inl (inr refl)
program_bytes_lem (some v) program le all =
    elim (Bool-cases (length program == 20 || length program == 32)) [
      | inl fits ↦
          let n : (length program ≡ 20) ⊎ (length program ≡ 32) = ground arith in
          rw fits (inr (IsAddress.segwit (le v refl) n all))
      | inr other ↦ rw other (inl (inr refl))
    ]

module _ (scripts : Scripts) (laws : IsScripts scripts) where
  -- Every script has bytes: a lone tag, or an address.
  pub spk_to_address_lem :
      (spk : Bytes)
      → AllBytes spk
      → (address : Bytes) × (spk_to_address_bytes_or_tag scripts spk ≡ some address)
        × (IsTag address ⊎ IsAddress address)
  unfolding spk_to_address_bytes_or_tag
  spk_to_address_lem spk all = elim (Bool-cases (scripts.is_p2pkh spk)) [
    | inl pkh ↦
        let n = laws.p2pkh_length spk pkh in
        let (h, e, len, bytes) = slice_lem 3 23 spk (omega arith) (omega arith) all in
        (0x00 ∷ h, rw (pkh, e), inr (IsAddress.legacy (inl refl) len bytes))
    | inr other ↦ elim (Bool-cases (scripts.is_p2sh spk)) [
      | inl sh ↦
          let n = laws.p2sh_length spk sh in
          let (h, e, len, bytes) = slice_lem 2 22 spk (omega arith) (omega arith) all in
          (0x05 ∷ h, rw (other, sh, e), inr (IsAddress.legacy (inr refl) len bytes))
      | inr other' ↦ elim (Bool-cases (scripts.is_witness_program spk)) [
        | inl program ↦
            let n = laws.program_length spk program in
            let (opcode, first) = laws.has_opcode spk program in
            let (h, e, len, bytes) = slice_lem 2 (length spk) spk (omega arith) (omega arith) all in
            (
              program_bytes (scripts.opcode_version opcode) h,
              rw (other, other', program, first, e),
              program_bytes_lem (scripts.opcode_version opcode) h (laws.version_le opcode) bytes,
            )
        | inr other'' ↦ elim (Bool-cases (scripts.is_op_return spk)) [
          | inl op_return ↦
              (tag_op_return ∷ [], rw (other, other', other'', op_return), inl (inl refl))
          | inr junk ↦ (tag_non_addr ∷ [], rw (other, other', other'', junk), inl (inr refl))
        ]
      ]
    ]
  ]

IsAddress-AllBytes : {address : Bytes} → IsAddress address → AllBytes address
IsAddress-AllBytes (IsAddress.legacy known n all) = (ground arith, all)
IsAddress-AllBytes (IsAddress.segwit le n all) = (omega arith, (omega arith, all))

module _ (crates : Crates) (laws : IsCrates crates hrp_bc) where
  serialize_as-IsAddress :
      {address : Bytes}
      → IsAddress address
      → (text : Text) × (serialize_as crates address ≡ Coded.ok text)
  unfolding serialize_as
  serialize_as-IsAddress (IsAddress.legacy {v} {hash} known n all) =
      (crates.encode_check (v ∷ hash), ground arith)
  serialize_as-IsAddress (IsAddress.segwit {v} {program} le n all) =
      let (text, e) = laws.encodes v program le all n in (text, ground (arith, laws.version_le v))

  serialize_as-IsTag :
      {address : Bytes}
      → IsTag address
      → serialize_as crates address ≡ Coded.err CodecError.unsupported_layout
  unfolding serialize_as
  serialize_as-IsTag (inl e) = rw e
  serialize_as-IsTag (inr e) = rw e

  -- The provider finds bytes for every script, and never panics: they are a lone tag, which the codec
  -- of addresses refuses to write, or it writes them as a text and reads them back from it.
  pub address-text :
      (scripts : Scripts)
      → IsScripts scripts
      → (spk : Bytes) → AllBytes spk
      → (address : Bytes) × (spk_to_address_bytes_or_tag scripts spk ≡ some address)
        × ((IsTag address × (serialize_as crates address ≡ Coded.err CodecError.unsupported_layout))
            ⊎ ((text : Text) × (serialize_as crates address ≡ Coded.ok text)
                × (deserialize_as crates text ≡ Coded.ok address)))
  address-text scripts tests spk all =
      let (address, found, shape) = spk_to_address_lem scripts tests spk all in
      (address, found, of_shape shape)
    where
      of_shape :
          {address : Bytes}
          → IsTag address ⊎ IsAddress address
          → (IsTag address
              × (serialize_as crates address ≡ Coded.err CodecError.unsupported_layout))
            ⊎ ((text : Text) × (serialize_as crates address ≡ Coded.ok text)
                × (deserialize_as crates text ≡ Coded.ok address))
      of_shape (inl tag) = inl (tag, serialize_as-IsTag tag)
      of_shape {address} (inr is) =
          let (text, e) = serialize_as-IsAddress is in
          inr (text, e, deserialize_as-serialize_as crates laws address (IsAddress-AllBytes is) e)
