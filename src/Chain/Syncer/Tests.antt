-- ===== src/Chain/Syncer/Tests.antt =====
-- The syncer's theorems at a small chain: hashes are numbers, a block of height n has hash n, and
-- a storage is the list of what has been stored.
use redbit.Prelude.{
  ℕ, zero, suc, ◌+◌, ◌≤◌, ◌<◌, ◌≡◌, ◌≢◌, refl, false, Option, none, some, List, [], ◌∷◌, ◌++◌,
  arith, u32_max,
}
use redbit.Chain.WeightBatcher.{immediate, deferred}
use redbit.Chain.Syncer.Plan.{Plan, index_from, last_height, plan, plan_lem}
use redbit.Chain.Syncer.Link.{
  Outcome, ok, Header, Block, BlockChain, BlockProvider, is_parent_of, chain_link, store_link,
  link_each, is_settled, persist_or_link,
}
use redbit.Chain.Syncer.Ancestors.{Links, IsConsistent, chain_link-Links}
use redbit.Chain.Syncer.Forks.{persist_orphan, continuous_links, young_chain_unlinked}
use redbit.Chain.Syncer.Pipeline.{process_block, process_results, process}
use redbit.Chain.Syncer.Persist.{persist, durability_of, durable_within, disconnected, DurableBatch}

program : Unit {0}
unfolding index_from last_height plan is_parent_of chain_link store_link link_each is_settled
    persist_or_link process_block process_results process
program = tt

abbrev TestBlock : Type 0
TestBlock = Block ℕ (Unit {0})

abbrev header_at : ℕ → Header ℕ
header_at zero = record { height = 0; hash = 0; prev_hash = 0; weight = 1 }
header_at (suc n) = record { height = suc n; hash = suc n; prev_hash = n; weight = 1 }

abbrev block_at : ℕ → TestBlock
block_at n = record { header = header_at n; body = tt }

-- the genesis block is stored
abbrev stored_header : ℕ → Outcome (List (Header ℕ))
stored_header (suc zero) = ok (header_at 1 ∷ [])
stored_header h = ok []

abbrev chain : BlockChain ℕ (Unit {0}) (List TestBlock) (Unit {0})
chain = record {
  get_header_by_hash = λ store h. stored_header h;
  store_blocks = λ store blocks durability. ok (store ++ blocks, tt);
  update_blocks = λ store blocks. ok (store ++ blocks, tt);
}

-- the node has the blocks of heights 1 to 3
abbrev known_block : ℕ → Outcome (Option TestBlock)
known_block (suc zero) = ok (some (block_at 1))
known_block (suc (suc zero)) = ok (some (block_at 2))
known_block (suc (suc (suc zero))) = ok (some (block_at 3))
known_block h = ok none

abbrev provider : BlockProvider ℕ (Unit {0})
provider = record { get_processed_block = known_block }

fork_of_two : chain_link provider chain tt 3 [] (block_at 3) ≡ ok (block_at 2 ∷ block_at 3 ∷ [])
unfolding program
fork_of_two = refl

-- the blocks of the node
data Real : TestBlock → Type 0 where
  first : Real (block_at 1)
  second : Real (block_at 2)
  third : Real (block_at 3)

Real-heights : (b : TestBlock) → Real b → (1 ≤ b.header.height) × (b.header.height ≤ u32_max)
Real-heights b first = omega arith
Real-heights b second = omega arith
Real-heights b third = omega arith

Real-answers :
    (b : TestBlock) → Real b → (hs : List (Header ℕ)) × (stored_header b.header.prev_hash ≡ ok hs)
Real-answers b first = ([], refl)
Real-answers b second = (header_at 1 ∷ [], refl)
Real-answers b third = ([], refl)

Real-stored :
    (b : TestBlock) (ph : Header ℕ) (hs : List (Header ℕ))
    → Real b
    → stored_header b.header.prev_hash ≡ ok (ph ∷ hs)
    → ph.height + 1 ≡ b.header.height
Real-stored b ph hs first e = absurd (ground arith)
Real-stored b ph hs second e = ground arith
Real-stored b ph hs third e = absurd (ground arith)

Real-fetched :
    (b : TestBlock)
    → Real b
    → b.header.height ≢ 1
    → stored_header b.header.prev_hash ≡ ok []
    → (p : TestBlock) × (known_block b.header.prev_hash ≡ ok (some p))
      × Real p
      × (p.header.hash ≡ b.header.prev_hash)
      × (p.header.height + 1 ≡ b.header.height)
Real-fetched b first later e = absurd (later refl)
Real-fetched b second later e = absurd (ground arith)
Real-fetched b third later e = (block_at 2, refl, second, refl, refl)

consistent : IsConsistent provider chain tt [] Real
consistent = record {
  heights = Real-heights;
  answers = Real-answers;
  stored = Real-stored;
  fetched = Real-fetched;
}

chain_link-Links_example : Links provider chain tt [] 3 (block_at 3)
chain_link-Links_example =
    chain_link-Links provider chain tt [] consistent 3 (block_at 3) third (omega arith)

-- a node that has lost the parent of block 5
abbrev lost_block : ℕ → Outcome (Option TestBlock)
lost_block (suc (suc (suc (suc (suc zero))))) = ok (some (block_at 5))
lost_block h = ok none

abbrev lossy : BlockProvider ℕ (Unit {0})
lossy = record { get_processed_block = lost_block }

persist_orphan_example :
    (chain_link lossy chain tt 2 [] (block_at 6) ≡ ok (block_at 6 ∷ []))
    × (persist_or_link lossy chain tt 2 [] (block_at 6 ∷ []) 4 immediate
        ≡ chain.store_blocks [] (block_at 6 ∷ []) immediate)
persist_orphan_example =
    persist_orphan lossy chain tt [] 0 (block_at 6) (block_at 5) 4 immediate refl (omega arith) refl
      refl (omega arith) refl (omega arith)

-- three blocks are left to fetch, of ten that fork detection covers
abbrev slow_plan : Plan
slow_plan = record {
  height_to_index_from = 48;
  heights_to_fetch = 3;
  fork_detection_height = 40;
  batching = false;
  default_durability = immediate;
}

slow_plan_lem : plan 50 (some 47) 10 ≡ some slow_plan
unfolding program
slow_plan_lem = refl

plan_lem_example :
    (47 < 50)
    × (slow_plan.height_to_index_from ≡ 47 + 1)
    × (slow_plan.height_to_index_from + slow_plan.heights_to_fetch ≡ 50 + 1)
    × (slow_plan.fork_detection_height + 10 ≡ 50)
    × (slow_plan.batching ≡ false
        → slow_plan.fork_detection_height < slow_plan.height_to_index_from)
plan_lem_example =
    plan_lem 50 47 10 slow_plan (omega arith) (omega arith) (omega arith) slow_plan_lem

continuous_links_example :
    persist_or_link provider chain tt 60 []
      (block_at 48 ∷ block_at 49 ∷ [])
      slow_plan.fork_detection_height
      slow_plan.default_durability
    ≡ link_each provider chain tt 60 [] tt
        (block_at 48 ∷ block_at 49 ∷ [])
        slow_plan.default_durability
continuous_links_example =
    continuous_links provider chain tt [] 50 47 10 slow_plan 60 (block_at 48 ∷ block_at 49 ∷ [])
      (omega arith) (omega arith) (omega arith) slow_plan_lem refl (omega arith)

-- a chain of five blocks, and ten heights of fork detection
abbrev young_plan : Plan
young_plan = record {
  height_to_index_from = 5;
  heights_to_fetch = 1;
  fork_detection_height = 4294967291;
  batching = false;
  default_durability = immediate;
}

young_plan_lem : plan 5 (some 4) 10 ≡ some young_plan
unfolding program
young_plan_lem = refl

young_chain_unlinked_example :
    persist_or_link provider chain tt 9 []
      (block_at 5 ∷ [])
      young_plan.fork_detection_height
      young_plan.default_durability
    ≡ chain.store_blocks [] (block_at 5 ∷ []) young_plan.default_durability
young_chain_unlinked_example =
    young_chain_unlinked provider chain tt [] 5 10 (some 4) young_plan 9 (block_at 5) []
      (omega arith) (omega arith) young_plan_lem (omega arith)

abbrev young_batches : List (List TestBlock)
young_batches = (block_at 5 ∷ []) ∷ (block_at 6 ∷ []) ∷ []

persisted_both :
    persist provider chain tt 9 9 50 immediate [] 0 young_batches
    ≡ (block_at 5 ∷ block_at 6 ∷ [], 2, disconnected)
unfolding program persist durability_of
persisted_both = refl

two_go_on :
    persist provider chain tt 9 9 2 deferred (block_at 4 ∷ []) 1 young_batches
    ≡ (block_at 4 ∷ block_at 5 ∷ block_at 6 ∷ [], 3, disconnected)
unfolding program persist durability_of
two_go_on = refl

-- Two batches after the first one, with every second one durable.
durable_within_example :
    DurableBatch provider chain tt 9 9 2 deferred (block_at 4 ∷ []) 1 young_batches
durable_within_example =
    durable_within provider chain tt 9 9 2 deferred (block_at 4 ∷ []) 0 young_batches (omega arith)
      refl two_go_on
