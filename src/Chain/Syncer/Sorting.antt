-- ===== src/Chain/Syncer/Sorting.antt =====
-- What the task "sort" sends: the blocks from the start on, without a gap, in order.
use redbit.Prelude.{
  ℕ, ◌+◌, ◌≡◌, ◌≢◌, refl, ap, ◌∙◌, sym, Option, none, some, List, [], ◌∷◌, ◌++◌, map, length,
  usize_max, saturating_add, arith, append_assoc, append-nil, flatten-append,
}
use mathlib.Core.List.{flatten, map-append}
use redbit.Prelude.Assoc.{get}
use redbit.Chain.ReorderBuffer.{ReorderBuffer, insert, feed}
use redbit.Chain.ReorderBuffer
use redbit.Chain.ReorderBuffer.Drain.{InRange, window}
use redbit.Chain.ReorderBuffer.Delivery.{feed-window}
use redbit.Chain.WeightBatcher.{
  WeightBatcher, Durability, immediate, deferred, unsupported, push_with, flush,
}
use redbit.Chain.WeightBatcher
use redbit.Chain.WeightBatcher.Batches.{IsReady, Push, push_lem}
use redbit.Chain.WeightBatcher.Batches
use redbit.Chain.Syncer.Pipeline.{safety_cap, push_ready, sort_blocks, sort_received, sort}

-- The blocks with their heights, as they are inserted.
abbrev pub keyed {ℓ} : {TB : Type ℓ} → (TB → ℕ) → List TB → List (ℕ × TB)
keyed height = map (λ b. (height b, b))

module _ {ℓ} {TB : Type ℓ} (height weight : TB → ℕ) where
  -- A push never panics, and moves the item to the batch or the buffer.
  Pushes : TB → WeightBatcher TB → Option (WeightBatcher TB × Option (List TB)) → Type ℓ
  Pushes x b r =
      (b' : WeightBatcher TB) × (out : Option (List TB)) × (r ≡ some (b', out))
      × IsReady weight b'
      × (elim out [ none ↦ [] | some batch ↦ batch ] ++ b'.buf ≡ b.buf ++ x ∷ [])

  push-Pushes :
      (x : TB) (b : WeightBatcher TB) (r : Option (WeightBatcher TB × Option (List TB)))
      → IsReady weight b
      → Push weight x b r
      → Pushes x b r
  unfolding Pushes
  push-Pushes x b r c (Batches.now e p) = (b, some (x ∷ []), p, c, rw (c.idle e))
  push-Pushes x b r c (Batches.full e t p) = (
    record b { weight = 0; buf = [] },
    some (b.buf ++ x ∷ []),
    p,
    record { supported = c.supported; idle = λ q. refl },
    append-nil (b.buf ++ x ∷ []),
  )
  push-Pushes x b r c (Batches.grow e s t p) = (
    record b { weight = saturating_add usize_max b.weight (weight x); buf = b.buf ++ x ∷ [] },
    none,
    p,
    record { supported = c.supported; idle = λ q. cc },
    refl,
  )
  push-Pushes x b r c (Batches.panic e p) = absurd (c.supported e)

  -- From the batcher `b`, the batches `out` and the batcher `b'` hold the blocks.
  record Batched (b : WeightBatcher TB) (blocks : List TB) (b' : WeightBatcher TB)
      (out : List (List TB)) : Type ℓ where
    ready : IsReady weight b'
    same : flatten out ++ b'.buf ≡ b.buf ++ blocks

  Batched-refl : (b : WeightBatcher TB) → IsReady weight b → Batched b [] b []
  unfolding flatten
  Batched-refl b c = record { ready = c; same = sym (append-nil b.buf) }

  Batched-trans :
      (b b' b'' : WeightBatcher TB) (xs ys : List TB) (out out' : List (List TB))
      → Batched b xs b' out
      → Batched b' ys b'' out'
      → Batched b (xs ++ ys) b'' (out ++ out')
  Batched-trans b b' b'' xs ys out out' h h' = record {
    ready = h'.ready;
    same = rw (flatten-append, append_assoc, h'.same, ← append_assoc, h.same, append_assoc);
  }

  Batched-one :
      (b b' : WeightBatcher TB) (x : TB) (o : Option (List TB)) (later : List (List TB))
      (b'' : WeightBatcher TB) (xs : List TB)
      → elim o [ none ↦ [] | some batch ↦ batch ] ++ b'.buf ≡ b.buf ++ x ∷ []
      → Batched b' xs b'' later
      → Batched b (x ∷ xs) b'' (elim o [ none ↦ later | some batch ↦ batch ∷ later ])
  unfolding flatten
  Batched-one b b' x none later b'' xs e h = record {
    ready = h.ready;
    same = rw (h.same, e, append_assoc);
  }
  Batched-one b b' x (some batch) later b'' xs e h = record {
    ready = h.ready;
    same = rw (append_assoc, h.same, ← append_assoc, e, append_assoc);
  }

  push_ready-Batched :
      (ready : List TB) (b : WeightBatcher TB)
      → IsReady weight b
      → (b' : WeightBatcher TB) × (out : List (List TB)) × (push_ready weight ready b
          ≡ some (b', out))
        × Batched b ready b' out
  unfolding push_ready Pushes
  push_ready-Batched [] b c = (b, [], refl, Batched-refl b c)
  push_ready-Batched (x ∷ ready) b c =
      let (b', o, pushed, c', same) =
        push-Pushes x b (push_with weight x b) c (push_lem weight x b) in
      let (b'', later, ran, h) = push_ready-Batched ready b' c' in
      (
        b'',
        elim o [ none ↦ later | some batch ↦ batch ∷ later ],
        rw (pushed, ran),
        Batched-one b b' x o later b'' ready same h,
      )

  sort_blocks-Batched :
      (blocks : List TB) (r : ReorderBuffer TB) (b : WeightBatcher TB)
      → IsReady weight b
      → (b' : WeightBatcher TB) × (out : List (List TB)) × (sort_blocks height weight blocks (r, b)
          ≡ some (((feed (keyed height blocks) r).0, b'), out))
        × Batched b (feed (keyed height blocks) r).1 b' out
  unfolding sort_blocks feed
  sort_blocks-Batched [] r b c = (b, [], refl, Batched-refl b c)
  sort_blocks-Batched (x ∷ blocks) r b c =
      let (r', ready) = insert (height x) x r in
      let (b', out, pushed, h) = push_ready-Batched ready b c in
      let (b'', later, ran, h') = sort_blocks-Batched blocks r' b' h.ready in
      (
        b'',
        out ++ later,
        rw (pushed, ran),
        Batched-trans b b' b'' ready (feed (keyed height blocks) r').1 out later h h',
      )

  feed-append :
      (xs ys : List (ℕ × TB)) (r : ReorderBuffer TB)
      → feed (xs ++ ys) r ≡ ((feed ys (feed xs r).0).0, (feed xs r).1 ++ (feed ys (feed xs r).0).1)
  unfolding feed
  feed-append [] ys r = refl
  feed-append ((h, x) ∷ xs) ys r = rw (feed-append xs ys (insert h x r).0, append_assoc)

  sort_received-Batched :
      (received : List (List TB)) (r : ReorderBuffer TB) (b : WeightBatcher TB)
      → IsReady weight b
      → (b' : WeightBatcher TB) × (out : List (List TB)) × (sort_received height weight received
            (r, b)
          ≡ some (((feed (keyed height (flatten received)) r).0, b'), out))
        × Batched b (feed (keyed height (flatten received)) r).1 b' out
  unfolding sort_received flatten feed
  sort_received-Batched [] r b c = (b, [], refl, Batched-refl b c)
  sort_received-Batched (blocks ∷ received) r b c =
      let (b', out, ran, h) = sort_blocks-Batched blocks r b c in
      let (b'', later, ran', h') =
        sort_received-Batched received (feed (keyed height blocks) r).0 b' h.ready in
      (
        b'',
        out ++ later,
        rw (ran, ran', map-append, feed-append),
        rw (map-append, feed-append) (Batched-trans b b' b'' _ _ out later h h'),
      )

  flush_lem :
      (b : WeightBatcher TB) (m : Durability) (buf : List TB)
      → b.mode ≡ m
      → b.buf ≡ buf
      → IsReady weight b
      → (b' : WeightBatcher TB) × (tail : Option (List TB)) × (flush b ≡ some (b', tail))
        × (elim tail [ none ↦ [] | some batch ↦ batch ] ≡ b.buf)
  unfolding flush
  flush_lem b immediate buf e n c = (b, none, ground arith, sym (c.idle e))
  flush_lem b deferred [] e n c = (b, none, ground arith, sym n)
  flush_lem b deferred (x ∷ buf) e n c =
      (record b { weight = 0; buf = [] }, some b.buf, ground arith, refl)
  flush_lem b unsupported buf e n c = absurd (c.supported e)

  flatten_tail :
      (tail : Option (List TB)) (out : List (List TB))
      → flatten (elim tail [ none ↦ out | some batch ↦ out ++ batch ∷ [] ])
        ≡ flatten out ++ elim tail [ none ↦ [] | some batch ↦ batch ]
  unfolding flatten
  flatten_tail none out = sym (append-nil (flatten out))
  flatten_tail (some batch) out = rw (flatten-append, append-nil)

  sort-Sends :
      (start min_weight : ℕ) (durability : Durability) (received : List (List TB))
      → durability ≢ unsupported
      → (bs : List (List TB)) × (sort height weight start min_weight durability received ≡ some bs)
        × (flatten bs
            ≡ (feed (keyed height (flatten received)) (ReorderBuffer.new start safety_cap)).1)
  unfolding sort WeightBatcher.new flatten
  sort-Sends start mw durability received ok =
      let b : WeightBatcher TB = WeightBatcher.new mw safety_cap durability in
      let r : ReorderBuffer TB = ReorderBuffer.new start safety_cap in
      let (b', out, ran, h) =
        sort_received-Batched received r b (record { supported = ok; idle = λ e. refl }) in
      let (b'', tail, flushed, rest) = flush_lem b' b'.mode b'.buf refl refl h.ready in
      (
        elim tail [ none ↦ out | some batch ↦ out ++ batch ∷ [] ],
        rw (ran, flushed),
        flatten_tail tail out ∙ ap (λ (t : List TB). flatten out ++ t) rest ∙ h.same,
      )

  -- In a supported mode the task never panics. If no block that it receives is at the largest
  -- `u32`, then what it sends, batches joined, is the first block received at the start height, at
  -- the next height, and so on without a gap, and at the height after the last one nothing has
  -- been received, in whatever order and batches the blocks come.
  pub sort_in_order :
      (start min_weight : ℕ) (durability : Durability) (received : List (List TB))
      → durability ≢ unsupported
      → InRange (keyed height (flatten received))
      → (bs : List (List TB)) × (sort height weight start min_weight durability received ≡ some bs)
        × (map some (flatten bs)
            ≡ window (keyed height (flatten received)) start (length (flatten bs)))
        × (get (start + length (flatten bs)) (keyed height (flatten received)) ≡ none)
  sort_in_order start mw durability received ok small =
      let (bs, ran, flat) = sort-Sends start mw durability received ok in
      let (order, position, waits) =
        feed-window start safety_cap (keyed height (flatten received)) small in
      (bs, ran, rw flat order, rw (flat, ← position) waits)
