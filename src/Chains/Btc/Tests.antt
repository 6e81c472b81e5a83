-- ===== src/Chains/Btc/Tests.antt =====
-- A toy Base58Check and a toy bech32 that keep what the crates document, and a small block.
use redbit.Prelude.{
  ℕ, ◌+◌, ◌-◌, ◌%◌, ◌^◌, ◌≡◌, ◌⊎◌, refl, sym, ap, Bool, true, false, Option, none, some, [], ◌∷◌,
  ◌++◌, length, total, replicate, if◌then◌else◌, leb, ◌==◌, u32_mod, arith,
}
use redbit.Prelude.Collect.{Collected, collect_from}
use redbit.Chains.Codec.{
  Bytes, Text, Crates, IsCrates, Leads, CodecError, Coded, slice, tag_segwit, tag_op_return,
}
use redbit.Chains.Btc.Codec.{hrp_bc, serialize_as, deserialize_as}
use redbit.Chains.Btc.RoundTrip.{deserialize_as-serialize_as}
use redbit.Chains.Btc.Provider.{
  Utxo, Transaction, Block, RawTx, RawBlock, Scripts, spk_to_address_bytes_or_tag, process_inputs,
  process_output, process_outputs, process_tx, block_weight, process_block_pure,
}
use redbit.Chains.Btc.Addresses.{IsScripts, IsTag, address-text}
use redbit.Chains.Btc.Blocks.{IsTransaction, process_block_lem}
use redbit.Chains.Btc.Pointers.{Fits, utxo_ids_distinct}

toy_encode : Bytes → Text
toy_encode [] = []
toy_encode (v ∷ hash) =
    if v == 0 then b'1' ∷ hash else if v == 5 then b'3' ∷ hash else b'z' ∷ v ∷ hash

toy_decode : Text → Option Bytes
toy_decode [] = some []
toy_decode (c ∷ rest) =
    if c == b'1' then some (0 ∷ rest) else if c == b'3' then some (5 ∷ rest) else some rest

toy_parse : Text → Option (Option (ℕ × Bytes))
toy_parse (_ ∷ _ ∷ _ ∷ v ∷ program) = some (some (v, program))
toy_parse _ = none

abbrev toy : Crates
toy = record {
  encode_check = toy_encode;
  decode_check = toy_decode;
  witness_version = λ v. some v;
  segwit_encode = λ hrp v program. some (hrp ++ b'1' ∷ v ∷ program);
  parse_program = toy_parse;
}

toy_decode-toy_encode : (bytes : Bytes) → toy_decode (toy_encode bytes) ≡ some bytes
unfolding toy_decode toy_encode
toy_decode-toy_encode [] = refl
toy_decode-toy_encode (v ∷ hash) = ground arith

toy-Leads :
    (v c : ℕ) (hash : Bytes) → Leads v c → (rest : Text) × (toy_encode (v ∷ hash) ≡ c ∷ rest)
unfolding toy_encode
toy-Leads v c hash (Leads.p2pkh e e') = (hash, ground arith)
toy-Leads v c hash (Leads.p2sh e e') = (hash, ground arith)

toy_parses :
    (v : ℕ) (program : Bytes) (text : Text)
    → some (hrp_bc ++ b'1' ∷ v ∷ program) ≡ some text
    → toy_parse text ≡ some (some (v, program))
unfolding toy_parse
toy_parses v program text h =
    let e : hrp_bc ++ b'1' ∷ v ∷ program ≡ text = cc in ap toy_parse (sym e)

toy-IsCrates : IsCrates toy hrp_bc
toy-IsCrates = record {
  decode-encode = λ bytes _. toy_decode-toy_encode bytes;
  leads = λ v c hash _ _ l. toy-Leads v c hash l;
  version_le = λ v _. refl;
  encodes = λ v program _ _ _. (_, refl);
  starts = λ v program text h. (v ∷ program, cc);
  parses = toy_parses;
}

abbrev p2pkh_bytes : Bytes
p2pkh_bytes = 0 ∷ replicate 20 0x11

deserialize_as-serialize_as_example :
    deserialize_as toy (b'1' ∷ replicate 20 0x11) ≡ Coded.ok p2pkh_bytes
unfolding serialize_as toy_encode
deserialize_as-serialize_as_example =
    deserialize_as-serialize_as toy toy-IsCrates p2pkh_bytes (omega arith) refl

-- The lengths of scripts are all that the toy tests look at.
toy_op_return : Bytes → Bool
toy_op_return [] = false
toy_op_return (b ∷ _) = b == 0x6a

toy_first : Bytes → Option ℕ
toy_first [] = none
toy_first (b ∷ _) = some b

abbrev toy_scripts : Scripts
toy_scripts = record {
  is_p2pkh = λ spk. length spk == 25;
  is_p2sh = λ spk. length spk == 23;
  is_witness_program = λ spk. leb 4 (length spk);
  is_op_return = toy_op_return;
  first_opcode = toy_first;
  opcode_version = λ opcode. if leb opcode 16 then some opcode else none;
}

toy_has_opcode :
    (spk : Bytes) → leb 4 (length spk) ≡ true → (opcode : ℕ) × (toy_first spk ≡ some opcode)
unfolding toy_first
toy_has_opcode [] h = absurd (ground arith)
toy_has_opcode (b ∷ spk) h = (b, refl)

toy_scripts-IsScripts : IsScripts toy_scripts
toy_scripts-IsScripts = record {
  p2pkh_length = λ spk h. ground arith;
  p2sh_length = λ spk h. ground arith;
  program_length = λ spk h. ground arith;
  has_opcode = toy_has_opcode;
  version_le = λ opcode v h. ground arith;
}

abbrev program_script : Bytes
program_script = 0 ∷ 20 ∷ replicate 20 0x22

address-text_example :
    (address : Bytes) × (spk_to_address_bytes_or_tag toy_scripts program_script ≡ some address)
    × ((IsTag address × (serialize_as toy address ≡ Coded.err CodecError.unsupported_layout))
        ⊎ ((text : Text) × (serialize_as toy address ≡ Coded.ok text)
            × (deserialize_as toy text ≡ Coded.ok address)))
address-text_example =
    address-text toy toy-IsCrates toy_scripts toy_scripts-IsScripts program_script (omega arith)

abbrev coinbase : RawTx
coinbase = record {
  txid = 7 ∷ [];
  input = record { txid = 0 ∷ []; vout = 2 ^ 32 - 1 } ∷ [];
  output =
      record { value = 50; script_pubkey = program_script }
      ∷ record { value = 0; script_pubkey = 0x6a ∷ 1 ∷ 2 ∷ [] }
      ∷ [];
}

abbrev small_block : RawBlock
small_block = record {
  header = record { time = 9; block_hash = 1 ∷ []; prev_blockhash = 2 ∷ []; merkle_root = 3 ∷ [] };
  txdata = coinbase ∷ [];
}

abbrev deserialize : Bytes → Option RawBlock
deserialize raw = some small_block

process_block_lem_example :
    (b : Block) × (process_block_pure toy_scripts deserialize 100 [] ≡ some (some b))
    × (b.height ≡ 100)
    × (b.header ≡ record {
      height = 100;
      timestamp = 9;
      hash = 1 ∷ [];
      prev_hash = 2 ∷ [];
      merkle_root = 3 ∷ [];
      weight =
          (6 + total (λ tx. length tx.input + length tx.output + 1) small_block.txdata) % u32_mod;
    })
    × Collected (IsTransaction toy_scripts 100) 0 small_block.txdata b.transactions
process_block_lem_example =
    process_block_lem toy_scripts toy_scripts-IsScripts deserialize 100 [] refl (omega arith)

abbrev second : Utxo
second = record {
  id = record { parent = record { height = 100; index = 0 }; index = 1 };
  amount = 0;
  script_hash = 0x6a ∷ 1 ∷ 2 ∷ [];
  address = tag_op_return ∷ [];
}

abbrev processed_tx : Transaction
processed_tx = record {
  id = record { height = 100; index = 0 };
  hash = 7 ∷ [];
  utxos =
      record {
        id = record { parent = record { height = 100; index = 0 }; index = 0 };
        amount = 50;
        script_hash = program_script;
        address = tag_segwit ∷ 0 ∷ replicate 20 0x22;
      }
      ∷ second
      ∷ [];
  inputs = [];
  input_refs = record { tx_hash = 0 ∷ []; index = 2 ^ 16 - 1 } ∷ [];
  input_utxos = [];
}

abbrev processed : Block
processed = record {
  height = 100;
  header = record {
    height = 100;
    timestamp = 9;
    hash = 1 ∷ [];
    prev_hash = 2 ∷ [];
    merkle_root = 3 ∷ [];
    weight = 10;
  };
  transactions = processed_tx ∷ [];
}

processes_small_block : process_block_pure toy_scripts deserialize 100 [] ≡ some (some processed)
unfolding process_block_pure block_weight process_tx process_outputs process_output process_inputs
    collect_from spk_to_address_bytes_or_tag slice toy_first toy_op_return
processes_small_block = refl

small_block-Fits : Fits small_block
small_block-Fits = record { txs = omega arith; outputs = (omega arith, tt) }

utxo_ids_distinct_example : (◌≡◌ {A = ℕ} 0 0) × (◌≡◌ {A = ℕ} 1 1)
utxo_ids_distinct_example =
    utxo_ids_distinct toy_scripts toy_scripts-IsScripts deserialize 100 [] small_block processed
      refl (omega arith) small_block-Fits processes_small_block 0 1 0 1 processed_tx processed_tx
      second second refl refl refl refl refl
