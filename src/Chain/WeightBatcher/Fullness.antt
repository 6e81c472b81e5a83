-- ===== src/Chain/WeightBatcher/Fullness.antt =====
-- When `WeightBatcher` emits: each batch is full and no longer than it must be.
use redbit.Prelude.{
  ℕ, ◌+◌, ◌≤◌, ◌<◌, ◌≡◌, ◌≢◌, refl, ap, ◌⊎◌, inl, inr, Option, none, some, List, [], ◌∷◌, ◌++◌,
  arith, length, length-append, total, total-append, usize_max, saturating_add, min,
}
use mathlib.Core.List.{flatten}
use redbit.Chain.WeightBatcher.{WeightBatcher, Step, deferred, new, flush, push_with, batches}
use redbit.Chain.WeightBatcher.Batches.{Push, push_lem, round}
use redbit.Chain.WeightBatcher.Batches

module _ {ℓ} {TB : Type ℓ} (weight_of : TB → ℕ) where
  -- Reached the threshold of weight or of count.
  abbrev pub IsFull : ℕ → ℕ → List TB → Type 0
  IsFull min_weight cap batch =
      (min_weight ≤ min (total weight_of batch) usize_max) ⊎ (cap ≤ length batch)

  -- A batch that is full, and was not before its last item came, unless that item is the only one.
  abbrev pub IsGrown : ℕ → ℕ → List TB → Type ℓ
  IsGrown min_weight cap batch =
      (init : List TB) × (last : TB) × (batch ≡ init ++ last ∷ [])
      × IsFull min_weight cap batch
      × (init ≢ [] → ¬ IsFull min_weight cap init)

  -- Every batch is full and no longer than it must be; only the last may be a rest, not empty.
  abbrev pub AllGrown : ℕ → ℕ → List (List TB) → Type ℓ
  AllGrown min_weight cap [] = Unit
  AllGrown min_weight cap (batch ∷ later) =
      (IsGrown min_weight cap batch
        ⊎ ((later ≡ []) × (batch ≢ []) × (¬ IsFull min_weight cap batch)))
      × AllGrown min_weight cap later

  -- In deferred mode: `weight` counts the buffer, which is not full unless it is empty.
  record IsCounted (mw cp : ℕ) (b : WeightBatcher TB) : Type ℓ where
    mode : b.mode ≡ deferred
    threshold : b.min_weight ≡ mw
    limit : b.cap ≡ cp
    counted : b.weight ≡ min (total weight_of b.buf) usize_max
    open_ : b.buf ≢ [] → ¬ IsFull mw cp b.buf

  -- The sum that `push_with` keeps is the saturated weight of the longer buffer.
  counted-push :
      (buf : List TB) (weight : ℕ) (item : TB)
      → weight ≡ min (total weight_of buf) usize_max
      → saturating_add usize_max weight (weight_of item)
        ≡ min (total weight_of (buf ++ item ∷ [])) usize_max
  counted-push buf weight item e = omega (arith, e, total-append weight_of buf (item ∷ []))

  snoc-ne-nil : (buf : List TB) (item : TB) → buf ++ item ∷ [] ≢ []
  snoc-ne-nil buf item e = omega (arith, ap (length {A = TB}) e, length-append buf (item ∷ []))

  Grown-push :
      (mw cp : ℕ) (item : TB) (b : WeightBatcher TB)
      → IsCounted mw cp b
      → (b.min_weight ≤ saturating_add usize_max b.weight (weight_of item))
        ⊎ (b.cap ≤ length b.buf + 1)
      → IsGrown mw cp (b.buf ++ item ∷ [])
  Grown-push mw cp item b c (inl h) = (
    b.buf,
    item,
    refl,
    inl (omega (arith, c.threshold, counted-push b.buf b.weight item c.counted)),
    c.open_,
  )
  Grown-push mw cp item b c (inr h) =
      (b.buf, item, refl, inr (omega (arith, c.limit, length-append b.buf (item ∷ []))), c.open_)

  not-IsFull_of_lt :
      (mw cp : ℕ) (item : TB) (b : WeightBatcher TB)
      → IsCounted mw cp b
      → saturating_add usize_max b.weight (weight_of item) < b.min_weight
      → length b.buf + 1 < b.cap
      → ¬ IsFull mw cp (b.buf ++ item ∷ [])
  not-IsFull_of_lt mw cp item b c s t (inl h) =
      omega (arith, c.threshold, counted-push b.buf b.weight item c.counted)
  not-IsFull_of_lt mw cp item b c s t (inr h) =
      omega (arith, c.limit, length-append b.buf (item ∷ []))

  round-some :
      (items : List TB) (b' : WeightBatcher TB) (out : Option (List TB)) (bs : List (List TB))
      → round weight_of items (some (b', out)) ≡ some bs
      → (later : List (List TB)) × (batches weight_of items b' ≡ some later)
        × (bs ≡ elim out [ none ↦ later | some batch ↦ batch ∷ later ])
  round-some items b' out bs ran = go (batches weight_of items b') out refl ran
    where
      go :
          (o : Option (List (List TB))) (out : Option (List TB))
          → batches weight_of items b' ≡ o
          → elim o [
            | none ↦ none
            | some later ↦ elim out [ none ↦ some later | some batch ↦ some (batch ∷ later) ]
          ]
            ≡ some bs
          → (later : List (List TB)) × (batches weight_of items b' ≡ some later)
            × (bs ≡ elim out [ none ↦ later | some batch ↦ batch ∷ later ])
      go none out e h = absurd (cc)
      go (some later) none e h = (later, e, cc)
      go (some later) (some batch) e h = (later, e, cc)

  AllGrown-round :
      (mw cp : ℕ) (item : TB) (items : List TB) (b : WeightBatcher TB) (r : Option (Step TB))
      (bs : List (List TB))
      → IsCounted mw cp b
      → Push weight_of item b r
      → ((b' : WeightBatcher TB) (bs' : List (List TB))
          → IsCounted mw cp b'
          → batches weight_of items b' ≡ some bs'
          → AllGrown mw cp bs')
      → round weight_of items r ≡ some bs
      → AllGrown mw cp bs
  AllGrown-round mw cp item items b r bs c (Batches.now e p) ih ran = cc (c.mode)
  AllGrown-round mw cp item items b r bs c (Batches.full e t p) ih ran =
      let (later, more, split) =
        round-some items (record b { weight = 0; buf = [] }) (some (b.buf ++ item ∷ [])) bs
          (rw p at ran) in
      rw split (
        inl (Grown-push mw cp item b c t),
        ih (record b { weight = 0; buf = [] }) later
            (record {
              mode = c.mode;
              threshold = c.threshold;
              limit = c.limit;
              counted = refl;
              open_ = λ ne. absurd (ne refl);
            })
            more,
      )
  AllGrown-round mw cp item items b r bs c (Batches.grow e s t p) ih ran =
      let b' : WeightBatcher TB = record b {
        weight = saturating_add usize_max b.weight (weight_of item);
        buf = b.buf ++ item ∷ [];
      } in
      let (later, more, split) = round-some items b' none bs (rw p at ran) in
      rw split (
        ih b' later
          (record {
            mode = c.mode;
            threshold = c.threshold;
            limit = c.limit;
            counted = counted-push b.buf b.weight item c.counted;
            open_ = λ ne full. not-IsFull_of_lt mw cp item b c s t full;
          })
          more)
  AllGrown-round mw cp item items b r bs c (Batches.panic e p) ih ran = cc (c.mode)

  AllGrown-nil :
      (mw cp : ℕ) (b : WeightBatcher TB) (buf : List TB) (bs : List (List TB))
      → b.buf ≡ buf
      → IsCounted mw cp b
      → batches weight_of [] b ≡ some bs
      → AllGrown mw cp bs
  unfolding batches flush
  AllGrown-nil mw cp b [] bs e c ran =
      let none_left : bs ≡ [] = ground (arith, c.mode) in rw none_left tt
  AllGrown-nil mw cp b (x ∷ buf) bs e c ran =
      let last : bs ≡ b.buf ∷ [] = ground (arith, c.mode) in
      rw last (inr (refl, λ n. cc, c.open_ (λ n. cc)), tt)

  batches-AllGrown :
      (mw cp : ℕ) (items : List TB) (b : WeightBatcher TB) (bs : List (List TB))
      → IsCounted mw cp b
      → batches weight_of items b ≡ some bs
      → AllGrown mw cp bs
  unfolding batches
  batches-AllGrown mw cp [] b bs c ran = AllGrown-nil mw cp b b.buf bs refl c ran
  batches-AllGrown mw cp (item ∷ items) b bs c ran =
      AllGrown-round mw cp item items b (push_with weight_of item b) bs c
        (push_lem weight_of item b) (λ b' bs' c' ran'. batches-AllGrown mw cp items b' bs' c' ran')
        ran

  -- From a new batcher in deferred mode (`Durability::None`) a run returns batches that hold the
  -- items in order. Every batch but the last has reached the minimal weight, by saturated sums, or
  -- the cap, and had not before its last item unless that is its only one; the last batch is the
  -- same, or a rest that is not empty and not full.
  pub new-batches :
      (min_weight cap : ℕ) (items : List TB)
      → (bs : List (List TB)) × (batches weight_of items (new min_weight cap deferred) ≡ some bs)
        × (flatten bs ≡ items)
        × AllGrown min_weight cap bs
  unfolding new
  new-batches min_weight cap items =
      let b : WeightBatcher TB = new min_weight cap deferred in
      let (bs, ran, flat) =
        Batches.batches-flatten weight_of items b
          (record { supported = λ e. cc; idle = λ e. refl }) in
      (
        bs,
        ran,
        flat,
        batches-AllGrown min_weight cap items b bs
            (record {
              mode = refl;
              threshold = refl;
              limit = refl;
              counted = refl;
              open_ = λ ne. absurd (ne refl);
            })
            ran,
      )
