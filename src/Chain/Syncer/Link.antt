-- ===== src/Chain/Syncer/Link.antt =====
-- `chain_link` and `persist_or_link` of chain/src/syncer.rs, and the traits that they use
-- (chain/src/api.rs). The storage behind `BlockChainLike` and the node behind `BlockProvider` are
-- parameters; a call of the storage that writes returns the new storage. `TaskResult`s are opaque.
use redbit.Prelude.{
  ℕ, zero, suc, ◌+◌, ◌-◌, ◌%◌, Bool, false, Option, none, some, List, [], ◌∷◌, ◌++◌, leb, ◌==◌,
  if◌then◌else◌, u32_mod,
}
use redbit.Chain.WeightBatcher.{Durability}

-- A result, an error, a panic, or fuel that ran out (which the code has not).
pub data Outcome {ℓ} (A : Type ℓ) : Type ℓ where
  ok : A → Outcome A
  failed : Outcome A
  panicked : Outcome A
  exhausted : Outcome A

infixl 5 ◌>>=◌
abbrev pub ◌>>=◌ {ℓ κ} : {A : Type ℓ} {B : Type κ} → Outcome A → (A → Outcome B) → Outcome B
ok a >>= f = f a
failed >>= f = failed
panicked >>= f = panicked
exhausted >>= f = exhausted

-- `BlockHeaderLike`, without the timestamp, which is only logged.
pub record Header (Hash : Type 0) : Type 0 where
  pub height : ℕ
  pub hash : Hash
  pub prev_hash : Hash
  pub weight : ℕ

-- `BlockLike`: a block with its header.
pub record Block (Hash Body : Type 0) : Type 0 where
  pub header : Header Hash
  pub body : Body

-- `BlockChainLike`: what the syncer uses of the storage. `Store` is its state.
pub record BlockChain (Hash Body Store Tasks : Type 0) : Type 0 where
  pub get_header_by_hash : Store → Hash → Outcome (List (Header Hash))
  pub store_blocks : Store → List (Block Hash Body) → Durability → Outcome (Store × Tasks)
  pub update_blocks : Store → List (Block Hash Body) → Outcome (Store × Tasks)

-- `BlockProvider`: what the syncer uses of the node.
pub record BlockProvider (Hash Body : Type 0) : Type 0 where
  pub get_processed_block : Hash → Outcome (Option (Block Hash Body))

-- `prev_headers.first().map(|ph| ph.height() == height - 1).unwrap_or(false)`, on `u32`
unfoldable pub is_parent_of : {Hash : Type 0} → List (Header Hash) → ℕ → Bool
is_parent_of [] height = false
is_parent_of (ph ∷ _) height = ph.height == (height + u32_mod - 1) % u32_mod

-- `blocks.last().is_some_and(|b| b.header().height() <= fork_detection_height)`
unfoldable pub is_settled : {Hash Body : Type 0} → List (Block Hash Body) → ℕ → Bool
is_settled [] fork_detection_height = false
is_settled (b ∷ []) fork_detection_height = leb b.header.height fork_detection_height
is_settled (b ∷ c ∷ bs) fork_detection_height = is_settled (c ∷ bs) fork_detection_height

module _ {Hash Body Store Tasks : Type 0} (provider : BlockProvider Hash Body)
    (chain : BlockChain Hash Body Store Tasks) (no_tasks : Tasks) where
  -- `chain_link`, with fuel for the recursion along the ancestors. The panic is of a stored
  -- predecessor with another height.
  unfoldable pub chain_link : ℕ → Store → Block Hash Body → Outcome (List (Block Hash Body))
  unfolding is_parent_of
  chain_link zero store block = exhausted
  chain_link (suc fuel) store block = do
    let header = block.header
    prev_headers ← chain.get_header_by_hash store header.prev_hash
    let fork = (do
      found ← provider.get_processed_block header.prev_hash
      elim found [
        | none ↦ ok []
        | some parent_block ↦ do fork ← chain_link fuel store parent_block; ok (fork ++ block ∷ [])
      ])
    (if header.height == 1
        then ok (block ∷ [])
        else if is_parent_of prev_headers header.height
        then ok (block ∷ [])
        else elim prev_headers [ [] ↦ fork | _ ∷ _ ↦ panicked ])

  -- The `match` on the length of the linked chain.
  unfoldable pub store_link :
      Store → Tasks → List (Block Hash Body) → Durability → Outcome (Store × Tasks)
  store_link store last_tasks [] durability = ok (store, last_tasks)
  store_link store last_tasks (b ∷ []) durability = chain.store_blocks store (b ∷ []) durability
  store_link store last_tasks (b ∷ c ∷ bs) durability = chain.update_blocks store (b ∷ c ∷ bs)

  -- The loop over the blocks that may be on a fork.
  unfoldable pub link_each :
      ℕ → Store → Tasks → List (Block Hash Body) → Durability → Outcome (Store × Tasks)
  link_each fuel store last_tasks [] durability = ok (store, last_tasks)
  link_each fuel store last_tasks (block ∷ blocks) durability = do
    fork ← chain_link fuel store block
    (store', tasks) ← store_link store last_tasks fork durability
    link_each fuel store' tasks blocks durability

  unfoldable pub persist_or_link :
      ℕ → Store → List (Block Hash Body) → ℕ → Durability → Outcome (Store × Tasks)
  unfolding is_settled link_each
  persist_or_link fuel store [] fork_detection_height durability = ok (store, no_tasks)
  persist_or_link fuel store (b ∷ bs) fork_detection_height durability =
      if is_settled (b ∷ bs) fork_detection_height
      then chain.store_blocks store (b ∷ bs) durability
      else link_each fuel store no_tasks (b ∷ bs) durability
