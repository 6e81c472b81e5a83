-- ===== src/Storage/SortBuffer/Search.antt =====
-- On a sorted run, both searches return the length of the part of the run that passes their test.
use redbit.Prelude.{
  ℕ, zero, suc, ◌^◌, ◌<◌, ◌≡◌, refl, sym, ap, ◌∙◌, Bool, true, false, not, Option, none, some, List,
  [], ◌∷◌, ◌++◌, length, arith, Bool-cases, inl, inr,
}
use redbit.Prelude.Order.{KeyOrder, is_greater, is_less-flip}
use redbit.Storage.SortBuffer.{
  test_at, is_below, is_up_to, advance, gallop, gallop_left_slice, gallop_right_slice,
}
use redbit.Storage.SortBuffer.Bisect.{Answers, IsPrefix, IsBoundary, gallop-IsBoundary}

some_inj : {a b : Bool} → Path (Option Bool) (some a) (some b) → a ≡ b
some_inj {a} h = ap (λ (o : Option Bool). elim o [ none ↦ a | some b ↦ b ]) h

module _ {ℓ κ} {K : Type ℓ} {V : Type κ} where
  -- Every key of the run passes.
  abbrev pub AllPass : (K → Bool) → List (K × V) → Type 0
  AllPass test [] = Unit
  AllPass test (e ∷ s) = (test e.0 ≡ true) × AllPass test s

  -- The run is empty or its first key does not pass.
  abbrev pub Stops : (K → Bool) → List (K × V) → Type 0
  Stops test [] = Unit
  Stops test (e ∷ s) = test e.0 ≡ false

  -- Advancing by `r` takes entries that pass and stops where one does not.
  abbrev pub Splits : (K → Bool) → List (K × V) → ℕ → Type (ℓ ⊔ κ)
  Splits test s r =
      (taken left : List (K × V)) × (advance r s ≡ some (taken, left))
      × (s ≡ taken ++ left)
      × AllPass test taken
      × Stops test left

  test_at-Answers : (test : K → Bool) (s : List (K × V)) → Answers (test_at test s) (length s)
  test_at-Answers test [] i h = absurd (omega (arith, h))
  test_at-Answers test (e ∷ s) zero h = (test e.0, refl)
  test_at-Answers test (e ∷ s) (suc i) h = test_at-Answers test s i (omega arith)

  boundary-Splits :
      (test : K → Bool) (s : List (K × V)) (r : ℕ)
      → IsBoundary (test_at test s) (length s) r
      → Splits test s r
  boundary-Splits test [] zero h = ([], [], refl, refl, tt, tt)
  boundary-Splits test (e ∷ s) zero (le, low, high) =
      ([], e ∷ s, refl, refl, tt, some_inj (high (omega arith)))
  boundary-Splits test [] (suc r) (le, low, high) = absurd (omega (arith, le))
  boundary-Splits test (e ∷ s) (suc r) (le, low, high) =
      let (taken, left, took, joined, pass, stop) =
        boundary-Splits test s r
          (omega arith, λ i h. low (suc i) (omega arith), λ h. high (omega arith)) in
      (
        e ∷ taken,
        left,
        rw took,
        ap (λ (t : List (K × V)). e ∷ t) joined,
        (some_inj (low 0 (omega arith)), pass),
        stop,
      )

module _ {ℓ} {K : Type ℓ} (order : KeyOrder K) where
  -- A key passes if one that is not smaller does.
  abbrev pub IsDownClosed : (K → Bool) → Type ℓ
  IsDownClosed test = (a b : K) → is_up_to order b a ≡ true → test b ≡ true → test a ≡ true

  pub not-true : {b : Bool} → not b ≡ true → b ≡ false
  not-true {b = true} h = sym h
  not-true {b = false} h = refl

  pub is_up_to-IsDownClosed : (pivot : K) → IsDownClosed (is_up_to order pivot)
  is_up_to-IsDownClosed pivot a b le h =
      ap not (order.le_trans a b pivot (not-true le) (not-true h))

  pub is_below-IsDownClosed : (pivot : K) → IsDownClosed (is_below order pivot)
  is_below-IsDownClosed pivot a b le h = elim (Bool-cases (is_greater (order.cmp pivot a))) [
    | inl above ↦ is_less-flip order a pivot ∙ above
    | inr not_above ↦
        let clash =
          sym h ∙ is_less-flip order b pivot ∙ order.le_trans pivot a b not_above (not-true le) in
        absurd (ground arith)
  ]

module _ {ℓ κ} {K : Type ℓ} {V : Type κ} (order : KeyOrder K) where
  -- Every key is at most those behind it.
  abbrev pub IsSorted : List (K × V) → Type 0
  IsSorted [] = Unit
  IsSorted (e ∷ s) = AllPass (λ k. is_up_to order k e.0) s × IsSorted s

  first_passes :
      (test : K → Bool)
      → IsDownClosed order test
      → (a : K) (s : List (K × V)) (j : ℕ) → AllPass (λ k. is_up_to order k a) s
      → test_at test s j ≡ some true
      → test a ≡ true
  first_passes test down a [] j all h = absurd (ground arith)
  first_passes test down a (e ∷ s) zero all h = down a e.0 all.0 (some_inj h)
  first_passes test down a (e ∷ s) (suc j) all h = first_passes test down a s j all.1 h

  sorted-IsPrefix :
      (test : K → Bool)
      → IsDownClosed order test
      → (s : List (K × V)) → IsSorted s
      → IsPrefix (test_at test s)
  sorted-IsPrefix test down [] sorted i j le h = absurd (ground arith)
  sorted-IsPrefix test down (e ∷ s) sorted zero zero le h = h
  sorted-IsPrefix test down (e ∷ s) sorted zero (suc j) le h =
      ap some (first_passes test down e.0 s j sorted.0 h)
  sorted-IsPrefix test down (e ∷ s) sorted (suc i) zero le h = absurd (omega (arith, le))
  sorted-IsPrefix test down (e ∷ s) sorted (suc i) (suc j) le h =
      sorted-IsPrefix test down s sorted.1 i j (omega arith) h

  gallop-Splits :
      (test : K → Bool)
      → IsDownClosed order test
      → (s : List (K × V)) → IsSorted s
      → length s < 2 ^ 63
      → (r : ℕ) × (gallop (test_at test s) (length s) ≡ some r) × Splits test s r
  gallop-Splits test down s sorted small =
      let (r, found, boundary) =
        gallop-IsBoundary (test_at test s) (length s) (test_at-Answers test s)
          (sorted-IsPrefix test down s sorted) small in
      (r, found, boundary-Splits test s r boundary)

  -- On a sorted run whose length fits an `isize`, `gallop_left_slice` never panics and returns how
  -- many entries to take so that the keys taken are at most the pivot and the next one is greater.
  pub gallop_left_slice-Splits :
      (s : List (K × V)) (pivot : K)
      → IsSorted s
      → length s < 2 ^ 63
      → (r : ℕ) × (gallop_left_slice order s (length s) pivot ≡ some r)
        × Splits (is_up_to order pivot) s r
  unfolding gallop_left_slice
  gallop_left_slice-Splits s pivot sorted small =
      gallop-Splits (is_up_to order pivot) (is_up_to-IsDownClosed order pivot) s sorted small

  -- On a sorted run whose length fits an `isize`, `gallop_right_slice` never panics and returns how
  -- many entries to take so that the keys taken are below the pivot and the next one is not.
  pub gallop_right_slice-Splits :
      (s : List (K × V)) (pivot : K)
      → IsSorted s
      → length s < 2 ^ 63
      → (r : ℕ) × (gallop_right_slice order s (length s) pivot ≡ some r)
        × Splits (is_below order pivot) s r
  unfolding gallop_right_slice
  gallop_right_slice-Splits s pivot sorted small =
      gallop-Splits (is_below order pivot) (is_below-IsDownClosed order pivot) s sorted small
