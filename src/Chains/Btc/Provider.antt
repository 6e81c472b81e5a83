-- ===== src/Chains/Btc/Provider.antt =====
-- chains/btc/src/block_provider.rs: `process_block_pure` and what it calls, and the types of
-- model_v1.rs that it makes. `none` as a result is a panic. The types `TxIn`, `TxOut`, `RawTx`,
-- `RawHeader` and `RawBlock` are those of the crate bitcoin, as far as they are read; the parsing of
-- a block and the tests on scripts are parameters.
use mathlib.Core.Option
use redbit.Prelude.{
  ℕ, ◌+◌, ◌%◌, ◌^◌, Bool, ◌||◌, Option, none, some, List, [], ◌∷◌, length, map, total,
  if◌then◌else◌, ◌==◌, u32_mod,
}
use redbit.Prelude.Collect.{collect_from}
use redbit.Chains.Codec.{Bytes, tag_segwit, tag_op_return, tag_non_addr, slice}

pub record BlockPointer : Type 0 where
  pub height : ℕ
  pub index : ℕ

pub record TransactionPointer : Type 0 where
  pub parent : BlockPointer
  pub index : ℕ

pub record InputRef : Type 0 where
  pub tx_hash : Bytes
  pub index : ℕ

pub record Utxo : Type 0 where
  pub id : TransactionPointer
  pub amount : ℕ
  pub script_hash : Bytes
  pub address : Bytes

pub record Input : Type 0 where
  pub id : TransactionPointer
  pub utxo_pointer : TransactionPointer

pub record Transaction : Type 0 where
  pub id : BlockPointer
  pub hash : Bytes
  pub utxos : List Utxo
  pub inputs : List Input
  pub input_refs : List InputRef
  pub input_utxos : List Utxo

pub record Header : Type 0 where
  pub height : ℕ
  pub timestamp : ℕ
  pub hash : Bytes
  pub prev_hash : Bytes
  pub merkle_root : Bytes
  pub weight : ℕ

pub record Block : Type 0 where
  pub height : ℕ
  pub header : Header
  pub transactions : List Transaction

pub record TxIn : Type 0 where
  pub txid : Bytes
  pub vout : ℕ

pub record TxOut : Type 0 where
  pub value : ℕ
  pub script_pubkey : Bytes

pub record RawTx : Type 0 where
  pub txid : Bytes
  pub input : List TxIn
  pub output : List TxOut

pub record RawHeader : Type 0 where
  pub time : ℕ
  pub block_hash : Bytes
  pub prev_blockhash : Bytes
  pub merkle_root : Bytes

pub record RawBlock : Type 0 where
  pub header : RawHeader
  pub txdata : List RawTx

-- The tests of `bitcoin::Script`, and `WitnessVersion::try_from` of an opcode.
pub record Scripts : Type 0 where
  pub is_p2pkh : Bytes → Bool
  pub is_p2sh : Bytes → Bool
  pub is_witness_program : Bytes → Bool
  pub is_op_return : Bytes → Bool
  pub first_opcode : Bytes → Option ℕ
  pub opcode_version : ℕ → Option ℕ

unfoldable pub process_inputs : List TxIn → List InputRef
process_inputs = map (λ input. record { tx_hash = input.txid; index = input.vout % 2 ^ 16 })

-- What is indexed for a version and a program.
unfoldable pub program_bytes : Option ℕ → Bytes → Bytes
program_bytes none program = tag_non_addr ∷ []
program_bytes (some ver) program =
    if length program == 20 || length program == 32
    then tag_segwit ∷ ver ∷ program
    else tag_non_addr ∷ []

-- The weight that the closure adds up.
unfoldable pub block_weight : List RawTx → ℕ
block_weight txs = 6 + total (λ tx. length tx.input + length tx.output + 1) txs

module _ (scripts : Scripts) where
  -- The branches that `debug_assert!` guards panic where the slice is out of bounds.
  unfoldable pub spk_to_address_bytes_or_tag : Bytes → Option Bytes
  unfolding program_bytes
  spk_to_address_bytes_or_tag spk =
      if scripts.is_p2pkh spk
      then Option.map (λ h. 0x00 ∷ h) (slice 3 23 spk)
      else if scripts.is_p2sh spk
      then Option.map (λ h. 0x05 ∷ h) (slice 2 22 spk)
      else if scripts.is_witness_program spk
      then elim (scripts.first_opcode spk) [
        | none ↦ none
        | some opcode ↦
            Option.map (program_bytes (scripts.opcode_version opcode)) (slice 2 (length spk) spk)
      ]
      else if scripts.is_op_return spk
      then some (tag_op_return ∷ [])
      else some (tag_non_addr ∷ [])

  unfoldable pub process_output : BlockPointer → ℕ → TxOut → Option Utxo
  process_output tx_pointer out_index out =
      Option.map
        (λ address. record {
          id = record { parent = tx_pointer; index = out_index % 2 ^ 16 };
          amount = out.value;
          script_hash = out.script_pubkey;
          address = address;
        })
        (spk_to_address_bytes_or_tag out.script_pubkey)

  unfoldable pub process_outputs : List TxOut → BlockPointer → Option (ℕ × List Utxo)
  process_outputs outs tx_pointer =
      Option.map (λ utxos. (length utxos, utxos)) (collect_from (process_output tx_pointer) 0 outs)

  unfoldable pub process_tx : ℕ → ℕ → RawTx → Option Transaction
  process_tx height tx_index tx =
      let tx_pointer : BlockPointer = record { height = height; index = tx_index } in
      Option.map
        (λ (outputs : ℕ × List Utxo). record {
          id = tx_pointer;
          hash = tx.txid;
          utxos = outputs.1;
          inputs = [];
          input_refs = process_inputs tx.input;
          input_utxos = [];
        })
        (process_outputs tx.output tx_pointer)

  -- `none` in the result is the error of a block that cannot be parsed.
  unfoldable pub process_block_pure : (Bytes → Option RawBlock) → ℕ → Bytes → Option (Option Block)
  process_block_pure deserialize height raw = elim (deserialize raw) [
    | none ↦ some none
    | some block ↦
        Option.map
          (λ transactions. some (record {
            height = height;
            header = record {
              height = height;
              timestamp = block.header.time;
              hash = block.header.block_hash;
              prev_hash = block.header.prev_blockhash;
              merkle_root = block.header.merkle_root;
              weight = block_weight block.txdata % u32_mod;
            };
            transactions = transactions;
          }))
          (collect_from (λ tx_index tx. process_tx height (tx_index % 2 ^ 16) tx) 0 block.txdata)
  ]
