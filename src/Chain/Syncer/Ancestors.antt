-- ===== src/Chain/Syncer/Ancestors.antt =====
-- What `chain_link` returns when the node and the storage agree.
use redbit.Prelude.{
  ℕ, zero, suc, ◌+◌, ◌≤◌, ◌≡◌, ◌≢◌, ◌∙◌, sym, ◌⊎◌, inl, inr, true, false, none, some, List, [], ◌∷◌,
  ◌++◌, ◌==◌, arith, u32_max, ==_iff, ℕ_discrete,
}
use redbit.Chain.Syncer.Link.{
  ok, ◌>>=◌, Header, Block, BlockChain, BlockProvider, is_parent_of, chain_link,
}

not-eq_of_ne : (a b : ℕ) → a ≢ b → (a == b) ≡ false
not-eq_of_ne a b h = ground arith

module _ {Hash Body Store Tasks : Type 0} (provider : BlockProvider Hash Body)
    (chain : BlockChain Hash Body Store Tasks) (no_tasks : Tasks) (store : Store) where
  -- Each block names the one before it, one height below.
  abbrev pub IsLinked : List (Block Hash Body) → Type 0
  IsLinked [] = Unit
  IsLinked (b ∷ []) = Unit
  IsLinked (b ∷ c ∷ bs) =
      (c.header.prev_hash ≡ b.header.hash)
      × (b.header.height + 1 ≡ c.header.height)
      × IsLinked (c ∷ bs)

  -- A first block that is the genesis block, or whose parent is stored one height below.
  abbrev pub IsAnchored : List (Block Hash Body) → Type 0
  IsAnchored [] = ⊥
  IsAnchored (b ∷ bs) =
      (b.header.height ≡ 1)
      ⊎ ((ph : Header Hash) × (hs : List (Header Hash)) × (chain.get_header_by_hash store
              b.header.prev_hash
            ≡ ok (ph ∷ hs))
          × (ph.height + 1 ≡ b.header.height))

  -- A node and a storage that agree, over the blocks `Real` of the node: the storage answers, a
  -- stored parent is one height below, and a parent that is not stored can be fetched.
  pub record IsConsistent (Real : Block Hash Body → Type 0) : Type 0 where
    pub heights :
        (b : Block Hash Body) → Real b → (1 ≤ b.header.height) × (b.header.height ≤ u32_max)
    pub answers :
        (b : Block Hash Body)
        → Real b
        → (hs : List (Header Hash)) × (chain.get_header_by_hash store b.header.prev_hash ≡ ok hs)
    pub stored :
        (b : Block Hash Body) (ph : Header Hash) (hs : List (Header Hash))
        → Real b
        → chain.get_header_by_hash store b.header.prev_hash ≡ ok (ph ∷ hs)
        → ph.height + 1 ≡ b.header.height
    pub fetched :
        (b : Block Hash Body)
        → Real b
        → b.header.height ≢ 1
        → chain.get_header_by_hash store b.header.prev_hash ≡ ok []
        → (p : Block Hash Body) × (provider.get_processed_block b.header.prev_hash ≡ ok (some p))
          × Real p
          × (p.header.hash ≡ b.header.prev_hash)
          × (p.header.height + 1 ≡ b.header.height)

  -- What linking returns: the block with its ancestors before it, linked and anchored.
  abbrev pub Links : ℕ → Block Hash Body → Type 0
  Links fuel b =
      (fork : List (Block Hash Body)) × (chain_link provider chain no_tasks fuel store b
        ≡ ok (fork ++ b ∷ []))
      × IsLinked (fork ++ b ∷ [])
      × IsAnchored (fork ++ b ∷ [])

  IsLinked-snoc :
      (fork : List (Block Hash Body)) (p b : Block Hash Body)
      → p.header.hash ≡ b.header.prev_hash
      → p.header.height + 1 ≡ b.header.height
      → IsLinked (fork ++ p ∷ [])
      → IsLinked ((fork ++ p ∷ []) ++ b ∷ [])
  IsLinked-snoc [] p b e h l = (sym e, h, tt)
  IsLinked-snoc (c ∷ []) p b e h l = (l.0, l.1, (sym e, h, tt))
  IsLinked-snoc (c ∷ d ∷ fork) p b e h l = (l.0, l.1, IsLinked-snoc (d ∷ fork) p b e h l.2)

  IsAnchored-snoc :
      (fork : List (Block Hash Body)) (b : Block Hash Body)
      → IsAnchored fork
      → IsAnchored (fork ++ b ∷ [])
  IsAnchored-snoc [] b a = elim a [ ]
  IsAnchored-snoc (c ∷ fork) b a = a

  is_parent_of_height :
      (ph : Header Hash) (hs : List (Header Hash)) (height : ℕ)
      → height ≤ u32_max
      → ph.height + 1 ≡ height
      → is_parent_of (ph ∷ hs) height ≡ true
  unfolding is_parent_of
  is_parent_of_height ph hs height small e = ground arith

  chain_link_here :
      (fuel : ℕ) (b : Block Hash Body) (hs : List (Header Hash))
      → chain.get_header_by_hash store b.header.prev_hash ≡ ok hs
      → (b.header.height ≡ 1) ⊎ (is_parent_of hs b.header.height ≡ true)
      → chain_link provider chain no_tasks (suc fuel) store b ≡ ok (b ∷ [])
  unfolding chain_link
  chain_link_here fuel b hs found (inl one) = rw (found, (==_iff _ 1).1 one)
  chain_link_here fuel b hs found (inr parent) = rw found (ground arith)

  -- A parent that is not stored is fetched and linked first.
  pub chain_link_fetch :
      (fuel : ℕ) (b p : Block Hash Body)
      → chain.get_header_by_hash store b.header.prev_hash ≡ ok []
      → b.header.height ≢ 1
      → provider.get_processed_block b.header.prev_hash ≡ ok (some p)
      → chain_link provider chain no_tasks (suc fuel) store b
        ≡ (do fork ← chain_link provider chain no_tasks fuel store p; ok (fork ++ b ∷ []))
  unfolding chain_link is_parent_of
  chain_link_fetch fuel b p found later got = rw (found, got, not-eq_of_ne _ 1 later)

  Links-step :
      (fuel : ℕ) (b p : Block Hash Body)
      → chain.get_header_by_hash store b.header.prev_hash ≡ ok []
      → b.header.height ≢ 1
      → provider.get_processed_block b.header.prev_hash ≡ ok (some p)
      → p.header.hash ≡ b.header.prev_hash
      → p.header.height + 1 ≡ b.header.height
      → Links fuel p
      → Links (suc fuel) b
  Links-step fuel b p found later got same up (fork, ran, linked, anchored) = (
    fork ++ p ∷ [],
    chain_link_fetch fuel b p found later got ∙ rw ran,
    IsLinked-snoc fork p b same up linked,
    IsAnchored-snoc (fork ++ p ∷ []) b anchored,
  )

  module _ {Real : Block Hash Body → Type 0} (agree : IsConsistent Real) where
    Links-found :
        (fuel : ℕ) (b : Block Hash Body) (hs : List (Header Hash))
        → Real b
        → b.header.height ≢ 1
        → chain.get_header_by_hash store b.header.prev_hash ≡ ok hs
        → ((p : Block Hash Body) → Real p → p.header.height + 1 ≡ b.header.height → Links fuel p)
        → Links (suc fuel) b
    Links-found fuel b [] real later found ih =
        let (p, got, real', same, up) = agree.fetched b real later found in
        Links-step fuel b p found later got same up (ih p real' up)
    Links-found fuel b (ph ∷ hs) real later found ih =
        let up = agree.stored b ph hs real found in
        (
          [],
          chain_link_here fuel b (ph ∷ hs) found
              (inr (is_parent_of_height ph hs _ (agree.heights b real).1 up)),
          tt,
          inr (ph, hs, found, up),
        )

    -- If node and storage agree, linking a block of the node ends, with fuel for its height, and
    -- returns the block behind those of its ancestors that are not stored: each block names the
    -- one before it, one height below, and the first one is the genesis block or its parent is
    -- stored one height below.
    pub chain_link-Links :
        (fuel : ℕ) (b : Block Hash Body) → Real b → b.header.height ≤ fuel → Links fuel b
    chain_link-Links zero b real enough = absurd (omega (arith, (agree.heights b real).0))
    chain_link-Links (suc fuel) b real enough =
        let (hs, found) = agree.answers b real in
        elim (ℕ_discrete b.header.height 1) [
          | yes one ↦ ([], chain_link_here fuel b hs found (inl one), tt, inl one)
          | no later ↦
              Links-found fuel b hs real later found
                (λ p real' up. chain_link-Links fuel p real' (omega arith))
        ]

  -- A parent that is neither stored nor known to the node: nothing is returned.
  pub chain_link_lost :
      (fuel : ℕ) (b : Block Hash Body)
      → chain.get_header_by_hash store b.header.prev_hash ≡ ok []
      → b.header.height ≢ 1
      → provider.get_processed_block b.header.prev_hash ≡ ok none
      → chain_link provider chain no_tasks (suc fuel) store b ≡ ok []
  unfolding chain_link is_parent_of
  chain_link_lost fuel b found later lost = rw (found, lost, not-eq_of_ne _ 1 later)
