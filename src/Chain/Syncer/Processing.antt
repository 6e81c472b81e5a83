-- ===== src/Chain/Syncer/Processing.antt =====
-- What the task "process" sends, and what it keeps.
use redbit.Prelude.{
  ℕ, ◌≤◌, ◌≡◌, refl, ap, ◌∙◌, sym, false, Option, none, some, List, [], ◌∷◌, ◌++◌, ltb, ltb→lt,
  usize_max, saturating_add, min, arith, append_assoc, append-nil, flatten-append, total,
  total-append, Bool-cases, inl, inr,
}
use mathlib.Core.List.{flatten}
use redbit.Chain.Syncer.Pipeline.{process_block, process_results, process}

module _ {ℓ} {TB : Type ℓ} where
  -- The blocks that were processed, in the order in which their batches are done.
  abbrev pub processed_results : List (Option TB) → List TB
  processed_results [] = []
  processed_results (none ∷ results) = processed_results results
  processed_results (some block ∷ results) = block ∷ processed_results results

  abbrev pub processed : List (Option (List (Option TB))) → List TB
  processed [] = []
  processed (none ∷ batches) = processed batches
  processed (some results ∷ batches) = processed_results results ++ processed batches

le_of_ltb : (a b : ℕ) → ltb a b ≡ false → b ≤ a
le_of_ltb a b h = ground arith

module _ {ℓ} {TB : Type ℓ} (weight : TB → ℕ) (limit : ℕ) where
  -- The buffer's weight is counted, and within the limit.
  abbrev IsCounted : List TB × ℕ → Type 0
  IsCounted s = (s.1 ≡ min (total weight s.0) usize_max) × (s.1 ≤ limit)

  -- From `s`, `r` has sent and kept the blocks of `s` and `blocks`, in order; and if the weight of
  -- them all is within the limit it has sent nothing.
  abbrev Works : List TB × ℕ → List TB → (List TB × ℕ) × List (List TB) → Type ℓ
  Works s blocks r =
      (flatten r.1 ++ r.0.0 ≡ s.0 ++ blocks)
      × IsCounted r.0
      × (min (total weight (s.0 ++ blocks)) usize_max ≤ limit → r.1 ≡ [])

  process_block-Works :
      (block : TB) (s : List TB × ℕ)
      → IsCounted s
      → Works s (block ∷ []) (process_block weight limit block s)
  unfolding process_block flatten
  process_block-Works block (buf, w) c =
      let e : saturating_add usize_max w (weight block)
          ≡ min (total weight (buf ++ block ∷ [])) usize_max =
        omega (arith, c.0, total-append weight buf (block ∷ [])) in
      elim (Bool-cases (ltb limit (saturating_add usize_max w (weight block)))) [
        | inl over ↦
            rw over (
              simp append-nil,
              (refl, omega arith),
              λ fits. absurd (omega (arith, ltb→lt _ _ over)),
            )
        | inr under ↦ rw under (refl, (e, le_of_ltb _ _ under), λ _. refl)
      ]

  Works-trans :
      (s : List TB × ℕ) (xs ys : List TB) (r r' : (List TB × ℕ) × List (List TB))
      → Works s xs r
      → Works r.0 ys r'
      → Works s (xs ++ ys) (r'.0, r.1 ++ r'.1)
  unfolding flatten
  Works-trans s xs ys r r' w w' = (
    rw (flatten-append, append_assoc, w'.0, ← append_assoc, w.0, append_assoc),
    w'.1,
    λ fits.
        let first : r.1 ≡ [] = w.2 (
          omega (
            arith,
            total-append weight s.0 xs,
            total-append weight s.0 (xs ++ ys),
            total-append weight xs ys,
          )) in
        let kept : r.0.0 ≡ s.0 ++ xs =
          ap (λ (l : List (List TB)). flatten l ++ r.0.0) (sym first) ∙ w.0 in
        let second : r'.1 ≡ [] = w'.2 (rw (kept, append_assoc) fits) in rw (first, second),
  )

  Works-refl : (s : List TB × ℕ) → IsCounted s → Works s [] (s, [])
  unfolding flatten
  Works-refl s c = (sym (append-nil s.0), c, λ _. refl)

  process_results-Works :
      (results : List (Option TB)) (s : List TB × ℕ)
      → IsCounted s
      → Works s (processed_results results) (process_results weight limit results s)
  unfolding process_results
  process_results-Works [] s c = Works-refl s c
  process_results-Works (none ∷ results) s c = process_results-Works results s c
  process_results-Works (some block ∷ results) s c =
      let r = process_block weight limit block s in
      let w = process_block-Works block s c in
      Works-trans s (block ∷ []) (processed_results results) r
        (process_results weight limit results r.0) w (process_results-Works results r.0 w.1)

  process-Works :
      (batches : List (Option (List (Option TB)))) (s : List TB × ℕ)
      → IsCounted s
      → Works s (processed batches) (process weight limit batches s)
  unfolding process
  process-Works [] s c = Works-refl s c
  process-Works (none ∷ batches) s c = process-Works batches s c
  process-Works (some results ∷ batches) s c =
      let r = process_results weight limit results s in
      let w = process_results-Works results s c in
      Works-trans s (processed_results results) (processed batches) r
        (process weight limit batches r.0) w (process-Works batches r.0 w.1)

  -- Whatever comes, the task sends the processed blocks in order, but for those in its buffer
  -- when the stream closes: these weigh no more than the limit, by saturated sums, and are lost.
  pub process_lem :
      (batches : List (Option (List (Option TB))))
      → let ((kept, kept_weight), sent) = process weight limit batches ([], 0) in
        (flatten sent ++ kept ≡ processed batches) × (min (total weight kept) usize_max ≤ limit)
  process_lem batches =
      let w = process-Works batches ([], 0) (refl, omega arith) in (w.0, rw (← w.1.0) w.1.1)

  -- If all blocks of a round together weigh no more than the limit, nothing at all is sent.
  process_starves :
      (batches : List (Option (List (Option TB))))
      → min (total weight (processed batches)) usize_max ≤ limit
      → ((process weight limit batches ([], 0)).1 ≡ [])
        × ((process weight limit batches ([], 0)).0.0 ≡ processed batches)
  unfolding flatten
  process_starves batches light =
      let w = process-Works batches ([], 0) (refl, omega arith) in
      let nothing = w.2 light in
      (
        nothing,
        ap (λ (l : List (List TB)). flatten l ++ (process weight limit batches ([], 0)).0.0)
              (sym nothing)
            ∙ w.0,
      )
