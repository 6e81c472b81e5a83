-- ===== src/Chains/Btc/Pointers.antt =====
-- The keys that the utxos of a block get.
use redbit.Prelude.{
  ℕ, ◌+◌, ◌%◌, ◌^◌, ◌<◌, ◌≤◌, ◌≡◌, ap, subst, ◌∙◌, Option, some, List, [], ◌∷◌, length, get_elem?,
  arith,
}
use redbit.Prelude.Collect.{All, Collected, Collected-back, get_elem?-All}
use redbit.Chains.Codec.{Bytes}
use redbit.Chains.Btc.Provider.{Utxo, Transaction, Block, RawBlock, Scripts, process_block_pure}
use redbit.Chains.Btc.Addresses.{IsScripts}
use redbit.Chains.Btc.Blocks.{TxHasBytes, IsTransaction, process_block_lem}

-- The positions of a block fit into 16 bits.
pub record Fits (block : RawBlock) : Type 0 where
  pub txs : length block.txdata ≤ 2 ^ 16
  pub outputs : All (λ tx. length tx.output ≤ 2 ^ 16) block.txdata

get_elem?-lt : {A : Type 0} (xs : List A) (i : ℕ) {x : A} → get_elem? xs i ≡ some x → i < length xs
get_elem?-lt [] i h = absurd (cc)
get_elem?-lt (x ∷ xs) ℕ.zero h = omega arith
get_elem?-lt (x ∷ xs) (ℕ.suc i) h = omega (arith, get_elem?-lt xs i h)

module _ (scripts : Scripts) (laws : IsScripts scripts) where
  -- Where an utxo of the block stands, by its key.
  utxo_position :
      {height : ℕ} {block : RawBlock} (b : Block) (i j : ℕ) {t : Transaction} {u : Utxo}
      → Fits block
      → Collected (IsTransaction scripts height) 0 block.txdata b.transactions
      → get_elem? b.transactions i ≡ some t
      → get_elem? t.utxos j ≡ some u
      → (u.id.parent.index ≡ i) × (u.id.index ≡ j)
  utxo_position {block = block} b i j {t} {u} fits are at_i at_j =
      let (tx, raw_i, is) = Collected-back i are at_i in
      let (out, raw_j, is') = Collected-back j is.utxos at_j in
      let small = get_elem?-lt block.txdata i raw_i in
      let small' = get_elem?-lt tx.output j raw_j in
      let few : length tx.output ≤ 2 ^ 16 =
        get_elem?-All (λ tx. length tx.output ≤ 2 ^ 16) block.txdata i fits.outputs raw_i in
      let parent : u.id.parent.index ≡ (0 + i) % 2 ^ 16 =
        ap (λ k. k.parent.index) is'.id ∙ ap (λ k. k.index) is.id in
      let index : u.id.index ≡ (0 + j) % 2 ^ 16 = ap (λ k. k.index) is'.id in
      let txs = fits.txs in (omega arith, omega arith)

  -- In the processed block of a block with at most 2^16 transactions, each with at most 2^16 outputs,
  -- no two utxos have the same key.
  pub utxo_ids_distinct :
      (deserialize : Bytes → Option RawBlock) (height : ℕ) (raw : Bytes) (block : RawBlock)
      (b : Block)
      → deserialize raw ≡ some block
      → All TxHasBytes block.txdata
      → Fits block
      → process_block_pure scripts deserialize height raw ≡ some (some b)
      → (i j i' j' : ℕ) (t t' : Transaction) (u u' : Utxo) → get_elem? b.transactions i ≡ some t
      → get_elem? t.utxos j ≡ some u
      → get_elem? b.transactions i' ≡ some t'
      → get_elem? t'.utxos j' ≡ some u'
      → u.id ≡ u'.id
      → (i ≡ i') × (j ≡ j')
  utxo_ids_distinct deserialize height raw block b parsed bytes fits done i j i' j' t t' u u' at_i
        at_j at_i' at_j' same =
      let (b', done', _, _, are) =
        process_block_lem scripts laws deserialize height raw parsed bytes in
      let is : b' ≡ b = cc in
      let are' : Collected (IsTransaction scripts height) 0 block.txdata b.transactions =
        subst
          (λ (z : Block). Collected (IsTransaction scripts height) 0 block.txdata z.transactions) is
          are in
      let (x, y) = utxo_position b i j fits are' at_i at_j in
      let (x', y') = utxo_position b i' j' fits are' at_i' at_j' in
      let outer : u.id.parent.index ≡ u'.id.parent.index = ap (λ k. k.parent.index) same in
      let inner : u.id.index ≡ u'.id.index = ap (λ k. k.index) same in (omega arith, omega arith)
