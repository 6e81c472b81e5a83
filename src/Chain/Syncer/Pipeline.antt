-- ===== src/Chain/Syncer/Pipeline.antt =====
-- The tasks "process" and "sort" of `ChainSyncer::sync` in chain/src/syncer.rs. A channel is the
-- list of what is sent through it; `height` and `weight` are those of a block's header. A task
-- that is shut down has worked off a prefix of its input.
mod Tests
use redbit.Prelude.{
  ℕ, ◌*◌, ◌/◌, Option, none, some, List, [], ◌∷◌, ◌++◌, ltb, if◌then◌else◌, usize_max,
  saturating_add,
}
use redbit.Chain.ReorderBuffer.{ReorderBuffer, insert}
use redbit.Chain.ReorderBuffer
use redbit.Chain.WeightBatcher.{WeightBatcher, Durability, push_with, flush}
use redbit.Chain.WeightBatcher

infixl 5 ◌>>=◌
abbrev pub ◌>>=◌ {ℓ κ} : {A : Type ℓ} {B : Type κ} → Option A → (A → Option B) → Option B
none >>= f = none
some a >>= f = f a

-- `min_entity_persist_batch_size / process_persist_batch_size_ratio`
unfoldable pub min_entity_process_batch_size : ℕ → ℕ
min_entity_process_batch_size min_entity_persist_batch_size = min_entity_persist_batch_size / 64

abbrev pub safety_cap : ℕ
safety_cap = 1024 * 8

module _ {ℓ} {TB : Type ℓ} (weight : TB → ℕ) where
  -- One processed block in the task "process", with `proc_buf` and `proc_weight`: what is sent, if
  -- the limit is crossed.
  unfoldable pub process_block : ℕ → TB → List TB × ℕ → (List TB × ℕ) × List (List TB)
  process_block limit block (proc_buf, proc_weight) =
      let proc_weight' = saturating_add usize_max proc_weight (weight block) in
      if ltb limit proc_weight'
      then (([], 0), (proc_buf ++ block ∷ []) ∷ [])
      else ((proc_buf ++ block ∷ [], proc_weight'), [])

  -- The results of one batch. `none` is a block that could not be processed, which is logged.
  unfoldable pub process_results :
      ℕ → List (Option TB) → List TB × ℕ → (List TB × ℕ) × List (List TB)
  process_results limit [] s = (s, [])
  process_results limit (none ∷ results) s = process_results limit results s
  process_results limit (some block ∷ results) s =
      let (s', out) = process_block limit block s in
      let (s'', later) = process_results limit results s' in (s'', out ++ later)

  -- The task: the batches in the order in which they are done; `none` is one whose thread failed.
  -- When the stream closes, the task ends as it stands.
  unfoldable pub process :
      ℕ → List (Option (List (Option TB))) → List TB × ℕ → (List TB × ℕ) × List (List TB)
  process limit [] s = (s, [])
  process limit (none ∷ batches) s = process limit batches s
  process limit (some results ∷ batches) s =
      let (s', out) = process_results limit results s in
      let (s'', later) = process limit batches s' in (s'', out ++ later)

  -- `for b in ready`: what the batcher emits.
  unfoldable pub push_ready :
      List TB → WeightBatcher TB → Option (WeightBatcher TB × List (List TB))
  push_ready [] b = some (b, [])
  push_ready (x ∷ ready) b = do
    (b', out) ← push_with weight x b
    (b'', later) ← push_ready ready b'
    some (b'', elim out [ none ↦ later | some batch ↦ batch ∷ later ])

module _ {ℓ} {TB : Type ℓ} (height weight : TB → ℕ) where
  -- `for block in blocks`
  unfoldable pub sort_blocks :
      List TB
      → ReorderBuffer TB × WeightBatcher TB
      → Option ((ReorderBuffer TB × WeightBatcher TB) × List (List TB))
  sort_blocks [] s = some (s, [])
  sort_blocks (block ∷ blocks) (reorder, batcher) = do
    let (reorder', ready) = insert (height block) block reorder
    (batcher', out) ← push_ready weight ready batcher
    (s, later) ← sort_blocks blocks (reorder', batcher')
    some (s, out ++ later)

  -- the loop of the task "sort" over what it receives
  unfoldable pub sort_received :
      List (List TB)
      → ReorderBuffer TB × WeightBatcher TB
      → Option ((ReorderBuffer TB × WeightBatcher TB) × List (List TB))
  sort_received [] s = some (s, [])
  sort_received (blocks ∷ received) s = do
    (s', out) ← sort_blocks blocks s
    (s'', later) ← sort_received received s'
    some (s'', out ++ later)

  -- The task "sort": the batches that it sends to be persisted; no result is a panic.
  unfoldable pub sort : ℕ → ℕ → Durability → List (List TB) → Option (List (List TB))
  unfolding sort_received
  sort height_to_index_from min_entity_persist_batch_size durability received = do
    let reorder = ReorderBuffer.new height_to_index_from safety_cap
    let batcher = WeightBatcher.new min_entity_persist_batch_size safety_cap durability
    ((reorder', batcher'), out) ← sort_received received (reorder, batcher)
    (batcher'', tail) ← flush batcher'
    some (elim tail [ none ↦ out | some batch ↦ out ++ batch ∷ [] ])
