-- ===== src/Storage/SortBuffer/Stable.antt =====
-- The stable merge of two runs, entry by entry, which sort_buffer.rs computes in blocks.
use redbit.Prelude.{
  Ordering, ◌+◌, length, ◌≡◌, refl, sym, ap, ◌∙◌, Bool, true, false, not, List, [], ◌∷◌, ◌++◌,
  Bool-cases, inl, inr, arith, subst,
}
use mathlib.Core.List.{Perm, perm_middle}
use mathlib.Core.List.Perm
use redbit.Prelude.Order.{KeyOrder, is_greater, is_less, is_less-flip}
use redbit.Storage.SortBuffer.{is_below, is_up_to}
use redbit.Storage.SortBuffer.Search.{AllPass, IsSorted, not-true}

not_greater_of_less : (o : Ordering) → is_less o ≡ true → not (is_greater o) ≡ true
not_greater_of_less Ordering.lt h = refl
not_greater_of_less Ordering.eq h = refl
not_greater_of_less Ordering.gt h = h

not-false : {b : Bool} → not b ≡ false → b ≡ true
not-false {b = true} h = refl
not-false {b = false} h = sym h

module _ {ℓ} {K : Type ℓ} (order : KeyOrder K) where
  pub below_up_to : (p k : K) → is_below order p k ≡ true → is_up_to order p k ≡ true
  below_up_to p k h = not_greater_of_less (order.cmp k p) h

  pub not_up_to : (k p : K) → is_below order p k ≡ true → is_up_to order k p ≡ false
  not_up_to k p h = ap not (sym (is_less-flip order k p) ∙ h)

  pub above_below : (k p : K) → is_up_to order k p ≡ false → is_below order p k ≡ true
  above_below k p h = is_less-flip order k p ∙ not-false h

module _ {ℓ κ} {K : Type ℓ} {V : Type κ} (order : KeyOrder K) where
  -- The merge of `e` and the entries behind it, merged by `rest`, with another run.
  abbrev pub merge_from : K × V → (List (K × V) → List (K × V)) → List (K × V) → List (K × V)
  merge_from e rest [] = e ∷ rest []
  merge_from e rest (y ∷ ys) = elim (is_up_to order y.0 e.0) [
    | true ↦ e ∷ rest (y ∷ ys)
    | false ↦ y ∷ merge_from e rest ys
  ]

  -- The stable merge: on a tie the first run's entry comes first.
  abbrev pub stable_merge : List (K × V) → List (K × V) → List (K × V)
  stable_merge [] ys = ys
  stable_merge (x ∷ xs) ys = merge_from x (stable_merge xs) ys

  pub merge_nil : (xs : List (K × V)) → stable_merge xs [] ≡ xs
  merge_nil [] = refl
  merge_nil (x ∷ xs) = ap (λ (t : List (K × V)). x ∷ t) (merge_nil xs)

  -- Entries of the first run that are up to the head of the second one come first.
  pub merge_first :
      (taken xs : List (K × V)) (y : K × V) (ys : List (K × V))
      → AllPass (is_up_to order y.0) taken
      → stable_merge (taken ++ xs) (y ∷ ys) ≡ taken ++ stable_merge xs (y ∷ ys)
  merge_first [] xs y ys all = refl
  merge_first (x ∷ taken) xs y ys all =
      rw (stable_merge, merge_from, all.0)
        (ap (λ (t : List (K × V)). x ∷ t) (merge_first taken xs y ys all.1))

  -- Entries of the second run that are below the head of the first one come first.
  pub merge_second :
      (x : K × V) (xs taken ys : List (K × V))
      → AllPass (is_below order x.0) taken
      → stable_merge (x ∷ xs) (taken ++ ys) ≡ taken ++ stable_merge (x ∷ xs) ys
  merge_second x xs [] ys all = refl
  merge_second x xs (y ∷ taken) ys all =
      rw (stable_merge, merge_from, not_up_to order y.0 x.0 all.0)
        (ap (λ (t : List (K × V)). y ∷ t) (merge_second x xs taken ys all.1))

  pub stable_merge-AllPass :
      (test : K → Bool) (xs ys : List (K × V))
      → AllPass test xs
      → AllPass test ys
      → AllPass test (stable_merge xs ys)
  stable_merge-AllPass test [] ys all all' = all'
  stable_merge-AllPass test (x ∷ xs) [] all all' = (all.0, stable_merge-AllPass test xs [] all.1 tt)
  stable_merge-AllPass test (x ∷ xs) (y ∷ ys) all all' =
      elim (Bool-cases (is_up_to order y.0 x.0)) [
        | inl le ↦
            rw (stable_merge, merge_from, le)
              (all.0, stable_merge-AllPass test xs (y ∷ ys) all.1 all')
        | inr gt ↦
            rw (stable_merge, merge_from, gt)
              (all'.0, stable_merge-AllPass test (x ∷ xs) ys all all'.1)
      ]

  pub IsSorted_tail : (taken xs : List (K × V)) → IsSorted order (taken ++ xs) → IsSorted order xs
  IsSorted_tail [] xs sorted = sorted
  IsSorted_tail (x ∷ taken) xs sorted = IsSorted_tail taken xs sorted.1

  -- What is behind a key is behind every smaller one.
  behind_le :
      (a b : K) (s : List (K × V))
      → is_up_to order b a ≡ true
      → AllPass (λ k. is_up_to order k b) s
      → AllPass (λ k. is_up_to order k a) s
  behind_le a b [] le all = tt
  behind_le a b (e ∷ s) le all = (
    ap not (order.le_trans a b e.0 (not-true order le) (not-true order all.0)),
    behind_le a b s le all.1,
  )

  -- The stable merge of sorted runs is sorted.
  pub stable_merge-IsSorted :
      (xs ys : List (K × V))
      → IsSorted order xs
      → IsSorted order ys
      → IsSorted order (stable_merge xs ys)
  stable_merge-IsSorted [] ys sorted sorted' = sorted'
  stable_merge-IsSorted (x ∷ xs) [] sorted sorted' =
      subst (IsSorted order) (sym (merge_nil (x ∷ xs))) sorted
  stable_merge-IsSorted (x ∷ xs) (y ∷ ys) sorted sorted' =
      elim (Bool-cases (is_up_to order y.0 x.0)) [
        | inl le ↦
            rw (stable_merge, merge_from, le)
              (
                stable_merge-AllPass (λ k. is_up_to order k x.0) xs (y ∷ ys) sorted.0
                    (le, behind_le x.0 y.0 ys le sorted'.0),
                stable_merge-IsSorted xs (y ∷ ys) sorted.1 sorted',
              )
        | inr gt ↦
            let le : is_up_to order x.0 y.0 ≡ true =
              below_up_to order x.0 y.0 (above_below order y.0 x.0 gt) in
            rw (stable_merge, merge_from, gt)
              (
                stable_merge-AllPass (λ k. is_up_to order k y.0) (x ∷ xs) ys
                    (le, behind_le y.0 x.0 xs le sorted.0) sorted'.0,
                stable_merge-IsSorted (x ∷ xs) ys sorted sorted'.1,
              )
      ]

  -- The stable merge holds the entries of both runs.
  pub stable_merge-Perm : (xs ys : List (K × V)) → Perm (stable_merge xs ys) (xs ++ ys)
  stable_merge-Perm [] ys = Perm.refl ys
  stable_merge-Perm (x ∷ xs) [] = Perm.cons x (stable_merge-Perm xs [])
  stable_merge-Perm (x ∷ xs) (y ∷ ys) = elim (Bool-cases (is_up_to order y.0 x.0)) [
    | inl le ↦ rw (stable_merge, merge_from, le) (Perm.cons x (stable_merge-Perm xs (y ∷ ys)))
    | inr gt ↦
        rw (stable_merge, merge_from, gt)
          (Perm.trans (Perm.cons y (stable_merge-Perm (x ∷ xs) ys))
            (Perm.symm (perm_middle (x ∷ xs) ys)))
  ]

  pub length-stable_merge :
      (xs ys : List (K × V)) → length (stable_merge xs ys) ≡ length xs + length ys
  length-stable_merge [] ys = omega arith
  length-stable_merge (x ∷ xs) [] = omega (arith, length-stable_merge xs [])
  length-stable_merge (x ∷ xs) (y ∷ ys) = elim (Bool-cases (is_up_to order y.0 x.0)) [
    | inl le ↦ rw (stable_merge, merge_from, le) (omega (arith, length-stable_merge xs (y ∷ ys)))
    | inr gt ↦ rw (stable_merge, merge_from, gt) (omega (arith, length-stable_merge (x ∷ xs) ys))
  ]
