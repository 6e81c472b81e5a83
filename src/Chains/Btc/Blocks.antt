-- ===== src/Chains/Btc/Blocks.antt =====
-- The block that the provider makes of a block of the node.

use redbit.Prelude.{ℕ, ◌+◌, ◌%◌, ◌^◌, ◌≡◌, refl, Option, some, [], length, total, u32_mod}
use redbit.Prelude.Collect.{All, Collected, collect_from_lem}
use redbit.Chains.Codec.{Bytes, AllBytes}
use redbit.Chains.Btc.Provider.{
  BlockPointer, Utxo, Transaction, Block, Header, TxOut, RawTx, RawBlock, Scripts, process_inputs,
  spk_to_address_bytes_or_tag, process_output, process_outputs, process_tx, block_weight,
  process_block_pure,
}
use redbit.Chains.Btc.Addresses.{IsScripts, spk_to_address_lem}

abbrev pub HasBytes : TxOut → Type 0
HasBytes out = AllBytes out.script_pubkey

abbrev pub TxHasBytes : RawTx → Type 0
TxHasBytes tx = All HasBytes tx.output

-- The output of a transaction as an utxo.
pub record IsUtxo (scripts : Scripts) (parent : BlockPointer) (index : ℕ) (out : TxOut) (u : Utxo)
    : Type 0 where
  pub id : u.id ≡ record { parent = parent; index = index % 2 ^ 16 }
  pub amount : u.amount ≡ out.value
  pub script : u.script_hash ≡ out.script_pubkey
  pub address : spk_to_address_bytes_or_tag scripts out.script_pubkey ≡ some u.address

pub record IsTransaction (scripts : Scripts) (height index : ℕ) (tx : RawTx) (t : Transaction)
    : Type 0 where
  pub id : t.id ≡ record { height = height; index = index % 2 ^ 16 }
  pub hash : t.hash ≡ tx.txid
  pub refs : t.input_refs ≡ process_inputs tx.input
  pub utxos : Collected (IsUtxo scripts t.id) 0 tx.output t.utxos

module _ (scripts : Scripts) (laws : IsScripts scripts) where
  process_output_lem :
      (parent : BlockPointer) (index : ℕ) (out : TxOut)
      → HasBytes out
      → (u : Utxo) × (process_output scripts parent index out ≡ some u)
        × IsUtxo scripts parent index out u
  unfolding process_output
  process_output_lem parent index out bytes =
      let (address, found, _) = spk_to_address_lem scripts laws out.script_pubkey bytes in
      (
        _,
        rw (process_output, found) refl,
        record { id = refl; amount = refl; script = refl; address = found },
      )

  process_tx_lem :
      (height index : ℕ) (tx : RawTx)
      → TxHasBytes tx
      → (t : Transaction) × (process_tx scripts height (index % 2 ^ 16) tx ≡ some t)
        × IsTransaction scripts height index tx t
  unfolding process_tx process_outputs
  process_tx_lem height index tx bytes =
      let pointer : BlockPointer = record { height = height; index = index % 2 ^ 16 } in
      let (utxos, done, are) =
        collect_from_lem (IsUtxo scripts pointer) (process_output scripts pointer)
          (process_output_lem pointer) 0 tx.output bytes in
      let t : Transaction = record {
        id = pointer;
        hash = tx.txid;
        utxos = utxos;
        inputs = [];
        input_refs = process_inputs tx.input;
        input_utxos = [];
      } in
      (t, (rw (process_tx, done) refl), record { id = refl; hash = refl; refs = refl; utxos = are })

  -- A block that parses is processed without a panic: it has the node's header, a weight of one for
  -- each transaction, input and output and six more, modulo 2^32, and at each position the transaction that stands there,
  -- with every output of it as an utxo in its place; the ids of both are the positions, modulo 2^16.
  pub process_block_lem :
      (deserialize : Bytes → Option RawBlock) (height : ℕ) (raw : Bytes) {block : RawBlock}
      → deserialize raw ≡ some block
      → All TxHasBytes block.txdata
      → (b : Block) × (process_block_pure scripts deserialize height raw ≡ some (some b))
        × (b.height ≡ height)
        × (b.header ≡ record {
          height = height;
          timestamp = block.header.time;
          hash = block.header.block_hash;
          prev_hash = block.header.prev_blockhash;
          merkle_root = block.header.merkle_root;
          weight =
              (6 + total (λ tx. length tx.input + length tx.output + 1) block.txdata) % u32_mod;
        })
        × Collected (IsTransaction scripts height) 0 block.txdata b.transactions
  unfolding process_block_pure block_weight
  process_block_lem deserialize height raw {block} parsed bytes =
      let (transactions, done, are) =
        collect_from_lem (IsTransaction scripts height)
          (λ tx_index tx. process_tx scripts height (tx_index % 2 ^ 16) tx) (process_tx_lem height)
          0 block.txdata bytes in
      let header : Header = record {
        height = height;
        timestamp = block.header.time;
        hash = block.header.block_hash;
        prev_hash = block.header.prev_blockhash;
        merkle_root = block.header.merkle_root;
        weight = block_weight block.txdata % u32_mod;
      } in
      let b : Block = record { height = height; header = header; transactions = transactions } in
      (b, (rw (parsed, process_block_pure, done) refl), refl, refl, are)
