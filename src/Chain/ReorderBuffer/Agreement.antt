-- ===== src/Chain/ReorderBuffer/Agreement.antt =====
-- What `ReorderBuffer` releases does not depend on the order in which the blocks arrive.
use redbit.Prelude.{
  ℕ, ◌+◌, ◌≤◌, ◌≡◌, refl, ap, ap₂, ◌∙◌, sym, ◌⊎◌, Option, none, some, List, [], ◌∷◌, map, arith,
  length,
}
use native.Mathlib.Nat.{add-zero}
use redbit.Prelude.Assoc.{get}
use redbit.Chain.ReorderBuffer.{new, feed}
use redbit.Chain.ReorderBuffer.Drain.{InRange, window}
use redbit.Chain.ReorderBuffer.Delivery.{delivered}

le-total : (a b : ℕ) → (a ≤ b) ⊎ (b ≤ a)
le-total a b = omega arith

module _ {ℓ} {TB : Type ℓ} where
  -- The first arrivals are the same at every height.
  abbrev pub Agree : List (ℕ × TB) → List (ℕ × TB) → Type ℓ
  Agree xs ys = (h : ℕ) → get h xs ≡ get h ys

  -- Two windows of some arrivals, from one start: the shorter is the longer one's beginning, and
  -- they are equal if nothing has arrived where the shorter one ends.
  window_unique :
      (xs ys : List (ℕ × TB)) (s : ℕ) (out out' : List TB)
      → Agree xs ys
      → map some out ≡ window xs s (length out)
      → map some out' ≡ window ys s (length out')
      → get (s + length out) xs ≡ none
      → get (s + length out') ys ≡ none
      → out ≡ out'
  window_unique xs ys s [] [] agree p q e f = refl
  window_unique xs ys s [] (b ∷ out') agree p q e f =
      ground (arith, agree s, ap (λ (t : ℕ). get t xs) (add-zero s))
  window_unique xs ys s (a ∷ out) [] agree p q e f =
      ground (arith, agree s, ap (λ (t : ℕ). get t ys) (add-zero s))
  window_unique xs ys s (a ∷ out) (b ∷ out') agree p q e f =
      let same : ◌≡◌ {A = Option TB} (some a) (some b) = cc (agree s) in
      ap₂ {C = List TB} (λ x xs. x ∷ xs) (cc)
        (window_unique xs ys (s + 1) out out' agree (cc) (cc)
          (ap (λ (t : ℕ). get t xs) (omega arith) ∙ e) (ap (λ (t : ℕ). get t ys) (omega arith) ∙ f))

  -- Two runs from the same start, none of whose arrivals is at the largest `u32`, whose first
  -- arrivals agree at every height, release the same blocks in the same order and wait for the
  -- same height, however the arrivals are ordered.
  feed-Agree :
      (start hint : ℕ) (xs ys : List (ℕ × TB))
      → InRange xs
      → Agree xs ys
      → ((feed xs (new start hint)).1 ≡ (feed ys (new start hint)).1)
        × ((feed xs (new start hint)).0.next_height ≡ (feed ys (new start hint)).0.next_height)
  feed-Agree start hint xs ys ok agree =
      let d = delivered start hint xs ok in
      let d' = delivered start hint ys (λ h b found. ok h b (agree h ∙ found)) in
      let same =
        window_unique xs ys start _ _ agree d.in_order d'.in_order (rw (← d.position) d.waits)
          (rw (← d'.position) d'.waits) in
      (same, d.position ∙ ap (λ (t : List TB). start + length t) same ∙ sym d'.position)
