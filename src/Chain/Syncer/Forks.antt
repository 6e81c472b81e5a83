-- ===== src/Chain/Syncer/Forks.antt =====
-- When blocks are linked to the stored chain, and when they are not.
use redbit.Prelude.{
  ℕ, suc, ◌≤◌, ◌<◌, ◌≡◌, ◌≢◌, refl, ap, ◌∙◌, true, false, Option, none, some, List, [], ◌∷◌, ◌++◌,
  leb, arith, u32_max,
}
use redbit.Chain.WeightBatcher.{Durability}
use redbit.Chain.Syncer.Plan.{Plan, plan, plan_lem, plan_wraps}
use redbit.Chain.Syncer.Link.{
  Outcome, ok, failed, panicked, exhausted, ◌>>=◌, Block, BlockChain, BlockProvider, chain_link,
  store_link, link_each, is_settled, persist_or_link,
}
use redbit.Chain.Syncer.Ancestors.{chain_link_fetch, chain_link_lost}

leb_of_lt : (a b : ℕ) → b < a → leb a b ≡ false
leb_of_lt a b h = ground arith

leb_of_le : (a b : ℕ) → a ≤ b → leb a b ≡ true
leb_of_le a b h = ground arith

module _ {Hash Body Store Tasks : Type 0} (provider : BlockProvider Hash Body)
    (chain : BlockChain Hash Body Store Tasks) (no_tasks : Tasks) (store : Store) where
  >>=-ok : {A : Type 0} (o : Outcome A) → (o >>= λ a. ok a) ≡ o
  >>=-ok (ok a) = refl
  >>=-ok failed = refl
  >>=-ok panicked = refl
  >>=-ok exhausted = refl

  link_one :
      (fuel : ℕ) (b : Block Hash Body) (durability : Durability)
      → chain_link provider chain no_tasks fuel store b ≡ ok (b ∷ [])
      → link_each provider chain no_tasks fuel store no_tasks (b ∷ []) durability
        ≡ chain.store_blocks store (b ∷ []) durability
  unfolding link_each store_link
  link_one fuel b durability alone =
      rw alone (>>=-ok (chain.store_blocks store (b ∷ []) durability))

  link_all :
      (fuel : ℕ) (blocks : List (Block Hash Body)) (fork_detection_height : ℕ)
      (durability : Durability)
      → is_settled blocks fork_detection_height ≡ false
      → persist_or_link provider chain no_tasks fuel store blocks fork_detection_height durability
        ≡ link_each provider chain no_tasks fuel store no_tasks blocks durability
  unfolding persist_or_link link_each
  link_all fuel [] fdh durability above = refl
  link_all fuel (b ∷ bs) fdh durability above = rw above

  -- If a parent is fetched whose own parent is neither stored nor known to the node, the parent is
  -- dropped and the block alone is returned and stored, although its parent is not stored.
  pub persist_orphan :
      (fuel : ℕ) (b p : Block Hash Body) (fork_detection_height : ℕ) (durability : Durability)
      → chain.get_header_by_hash store b.header.prev_hash ≡ ok []
      → b.header.height ≢ 1
      → provider.get_processed_block b.header.prev_hash ≡ ok (some p)
      → chain.get_header_by_hash store p.header.prev_hash ≡ ok []
      → p.header.height ≢ 1
      → provider.get_processed_block p.header.prev_hash ≡ ok none
      → fork_detection_height < b.header.height
      → (chain_link provider chain no_tasks (suc (suc fuel)) store b ≡ ok (b ∷ []))
        × (persist_or_link provider chain no_tasks
              (suc (suc fuel))
              store
              (b ∷ [])
              fork_detection_height
              durability
            ≡ chain.store_blocks store (b ∷ []) durability)
  persist_orphan fuel b p fdh durability found later got found' later' got' above =
      let alone =
        chain_link_fetch provider chain no_tasks store (suc fuel) b p found later got
        ∙ ap (λ (o : Outcome (List (Block Hash Body))). do fork ← o; ok (fork ++ b ∷ []))
            (chain_link_lost provider chain no_tasks store fuel p found' later' got') in
      (
        alone,
        link_all (suc (suc fuel)) (b ∷ []) fdh durability (unfold is_settled in leb_of_lt _ _ above)
            ∙ link_one (suc (suc fuel)) b durability alone,
      )

  -- The heights of all blocks are at least `low`; at most `high`.
  abbrev pub AllFrom : ℕ → List (Block Hash Body) → Type 0
  AllFrom low [] = Unit
  AllFrom low (b ∷ bs) = (low ≤ b.header.height) × AllFrom low bs

  abbrev pub AllUpTo : ℕ → List (Block Hash Body) → Type 0
  AllUpTo high [] = Unit
  AllUpTo high (b ∷ bs) = (b.header.height ≤ high) × AllUpTo high bs

  unsettled_from :
      (low fork_detection_height : ℕ) (blocks : List (Block Hash Body))
      → fork_detection_height < low
      → AllFrom low blocks
      → is_settled blocks fork_detection_height ≡ false
  unfolding is_settled
  unsettled_from low fdh [] above all = refl
  unsettled_from low fdh (b ∷ []) above all = leb_of_lt _ _ (omega arith)
  unsettled_from low fdh (b ∷ c ∷ bs) above all = unsettled_from low fdh (c ∷ bs) above all.1

  settled_up_to :
      (high fork_detection_height : ℕ) (b : Block Hash Body) (blocks : List (Block Hash Body))
      → high ≤ fork_detection_height
      → AllUpTo high (b ∷ blocks)
      → is_settled (b ∷ blocks) fork_detection_height ≡ true
  unfolding is_settled
  settled_up_to high fdh b [] above all = leb_of_le _ _ (omega arith)
  settled_up_to high fdh b (c ∷ bs) above all = settled_up_to high fdh c bs above all.1

  -- With a persisted header whose height is at most the tip, heights of fork detection at most the tip,
  -- and a tip below the largest `u32`: in a round that does not batch, every batch of blocks from the
  -- first height to index on is linked block by block.
  pub continuous_links :
      (tip last fork_detection_heights : ℕ) (p : Plan) (fuel : ℕ) (blocks : List (Block Hash Body))
      → tip < u32_max
      → last ≤ tip
      → fork_detection_heights ≤ tip
      → plan tip (some last) fork_detection_heights ≡ some p
      → p.batching ≡ false
      → AllFrom p.height_to_index_from blocks
      → persist_or_link provider chain no_tasks fuel store blocks p.fork_detection_height
          p.default_durability
        ≡ link_each provider chain no_tasks fuel store no_tasks blocks p.default_durability
  continuous_links tip last k p fuel blocks small le le' planned slow all =
      link_all fuel blocks p.fork_detection_height p.default_durability (
        unsettled_from p.height_to_index_from p.fork_detection_height blocks
          ((plan_lem tip last k p small le le' planned).4 slow) all)

  -- While the chain of the node is shorter than the heights of fork detection, no batch of blocks
  -- up to the tip is linked: each is stored as it comes.
  pub young_chain_unlinked :
      (tip fork_detection_heights : ℕ) (last : Option ℕ) (p : Plan) (fuel : ℕ) (b : Block Hash Body)
      (blocks : List (Block Hash Body))
      → tip < fork_detection_heights
      → fork_detection_heights < 256
      → plan tip last fork_detection_heights ≡ some p
      → AllUpTo tip (b ∷ blocks)
      → persist_or_link provider chain no_tasks fuel store
          (b ∷ blocks)
          p.fork_detection_height
          p.default_durability
        ≡ chain.store_blocks store (b ∷ blocks) p.default_durability
  unfolding persist_or_link
  young_chain_unlinked tip k last p fuel b blocks low byte planned all = rw (
      settled_up_to tip p.fork_detection_height b blocks
        (omega (arith, plan_wraps tip k last p low byte planned)) all)
