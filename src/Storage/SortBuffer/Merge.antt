-- ===== src/Storage/SortBuffer/Merge.antt =====
-- `merge_sorted_by_key_gallop` computes the stable merge.
use redbit.Prelude.{
  ℕ, zero, suc, ◌^◌, ◌≤◌, ◌<◌, ◌≡◌, refl, sym, ap, ◌∙◌, subst, Bool, true, false, some, List, [],
  ◌∷◌, ◌++◌, length, length-append, append-nil, append_assoc, arith, Bool-cases, inl, inr,
}
use mathlib.Core.List.{Perm}
use redbit.Prelude.Order.{KeyOrder}
use redbit.Storage.SortBuffer.{
  is_below, is_up_to, advance, last_key, gallop_left_slice, merge_blocks,
  merge_sorted_by_key_gallop,
}
use redbit.Storage.SortBuffer.Search.{
  AllPass, Stops, IsSorted, IsDownClosed, is_up_to-IsDownClosed, is_below-IsDownClosed,
  gallop_left_slice-Splits, gallop_right_slice-Splits,
}
use redbit.Storage.SortBuffer.Stable.{
  above_below, stable_merge, merge_nil, merge_first, merge_second, IsSorted_tail,
  stable_merge-IsSorted, stable_merge-Perm,
}

-- `merge_blocks` with this fuel is the stable merge.
abbrev Merges {ℓ κ} : {K : Type ℓ} (V : Type κ) → KeyOrder K → ℕ → Type (ℓ ⊔ κ)
Merges {K} V order fuel =
    (xs ys : List (K × V))
    → IsSorted order xs
    → IsSorted order ys
    → length xs < 2 ^ 63
    → length ys < 2 ^ 63
    → length ys ≤ fuel
    → merge_blocks order fuel xs ys ≡ some (stable_merge order xs ys)

module _ {ℓ κ} {K : Type ℓ} {V : Type κ} (order : KeyOrder K) where
  -- A round that leaves entries of the first run takes an entry of the second run.
  takes_second :
      (x y : K × V) (ys taken left : List (K × V))
      → is_up_to order y.0 x.0 ≡ false
      → y ∷ ys ≡ taken ++ left
      → Stops (is_below order x.0) left
      → length left ≤ length ys
  takes_second x y ys [] [] above joined stop = omega arith
  takes_second x y ys [] (y' ∷ left) above joined stop =
      let below : is_below order x.0 y'.0 ≡ true =
        subst
          (λ (t : List (K × V)). elim t [ [] ↦ Unit {0} | z ∷ _ ↦ is_below order x.0 z.0 ≡ true ])
          joined (above_below order y.0 x.0 above) in
      absurd (grind (arith, below, stop))
  takes_second x y ys (y' ∷ taken) left above joined stop =
      omega (arith, ap length joined, length-append taken left)

  round_second :
      (fuel : ℕ)
      → Merges V order fuel
      → (x y : K × V) (xs ys taken left : List (K × V)) → IsSorted order (x ∷ xs)
      → IsSorted order (y ∷ ys)
      → length (x ∷ xs) < 2 ^ 63
      → length (y ∷ ys) < 2 ^ 63
      → length ys ≤ fuel
      → is_up_to order y.0 x.0 ≡ false
      → y ∷ ys ≡ taken ++ left
      → AllPass (is_below order x.0) taken
      → Stops (is_below order x.0) left
      → (merge_blocks order fuel (x ∷ xs) left ≡ some (stable_merge order (x ∷ xs) left))
        × (stable_merge order (x ∷ xs) (y ∷ ys) ≡ taken ++ stable_merge order (x ∷ xs) left)
  round_second fuel next x y xs ys taken left sorted sorted' small small' enough above joined pass
        stop =
      let fewer = takes_second x y ys taken left above joined stop in
      (
        next (x ∷ xs) left sorted
            (IsSorted_tail order taken left (subst (IsSorted order) joined sorted')) small
            (omega arith) (omega arith),
        ap (stable_merge order (x ∷ xs)) joined ∙ merge_second order x xs taken left pass,
      )

  round :
      (fuel : ℕ)
      → Merges V order fuel
      → (x y : K × V) (xs ys taken left : List (K × V)) (end : ℕ) → IsSorted order (x ∷ xs)
      → IsSorted order (y ∷ ys)
      → length (x ∷ xs) < 2 ^ 63
      → length (y ∷ ys) < 2 ^ 63
      → length ys ≤ fuel
      → gallop_left_slice order (x ∷ xs) (length (x ∷ xs)) y.0 ≡ some end
      → advance end (x ∷ xs) ≡ some (taken, left)
      → x ∷ xs ≡ taken ++ left
      → AllPass (is_up_to order y.0) taken
      → Stops (is_up_to order y.0) left
      → merge_blocks order (suc fuel) (x ∷ xs) (y ∷ ys)
        ≡ some (stable_merge order (x ∷ xs) (y ∷ ys))
  unfolding merge_blocks
  round fuel next x y xs ys taken [] end sorted sorted' small small' enough found took joined pass
        stop =
      rw (merge_blocks, found, took) refl
      ∙ ap some (
          sym (
            ap (λ (t : List (K × V)). stable_merge order t (y ∷ ys)) joined
            ∙ merge_first order taken [] y ys pass))
  round fuel next x y xs ys taken (x' ∷ xs') end sorted sorted' small small' enough found took
        joined pass stop =
      let (end', found', (taken', left', took', joined', pass', stop')) =
        gallop_right_slice-Splits order (y ∷ ys) x'.0 sorted' small' in
      let tail-IsSorted =
        IsSorted_tail order taken (x' ∷ xs') (subst (IsSorted order) joined sorted) in
      let shorter : length (x' ∷ xs') < 2 ^ 63 =
        omega (arith, ap length joined, length-append taken (x' ∷ xs')) in
      let (later, merged) =
        round_second fuel next x' y xs' ys taken' left' tail-IsSorted sorted' shorter small' enough
          stop joined' pass' stop' in
      rw (merge_blocks, found, took, found', took', later, append_assoc) refl
      ∙ ap some (
          sym (
            ap (λ (t : List (K × V)). stable_merge order t (y ∷ ys)) joined
            ∙ merge_first order taken (x' ∷ xs') y ys pass
            ∙ ap (λ (t : List (K × V)). taken ++ t) merged))

  blocks_lem : (fuel : ℕ) → Merges V order fuel
  unfolding merge_blocks
  blocks_lem fuel xs [] sorted sorted' small small' enough = ap some (sym (merge_nil order xs))
  blocks_lem fuel [] (y ∷ ys) sorted sorted' small small' enough = refl
  blocks_lem zero (x ∷ xs) (y ∷ ys) sorted sorted' small small' enough =
      absurd (omega (arith, enough))
  blocks_lem (suc fuel) (x ∷ xs) (y ∷ ys) sorted sorted' small small' enough =
      let (end, found, (taken, left, took, joined, pass, stop)) =
        gallop_left_slice-Splits order (x ∷ xs) y.0 sorted small in
      round fuel (blocks_lem fuel) x y xs ys taken left end sorted sorted' small small'
        (omega arith) found took joined pass stop

  -- If the last key of a sorted run passes, all do.
  last_passes :
      (test : K → Bool)
      → IsDownClosed order test
      → (e : K × V) (s : List (K × V)) → IsSorted order (e ∷ s)
      → test (last_key e s) ≡ true
      → AllPass test (e ∷ s)
  last_passes test down e [] sorted h = (h, tt)
  last_passes test down e (e' ∷ s) sorted h =
      let all = last_passes test down e' s sorted.1 h in (down e.0 e'.0 sorted.0.0 all.0, all)

  -- If the first run ends at most where the second one starts, their stable merge is one behind the
  -- other.
  pub concat_first :
      (x : K × V) (a : List (K × V)) (y : K × V) (b : List (K × V))
      → IsSorted order (x ∷ a)
      → is_up_to order y.0 (last_key x a) ≡ true
      → stable_merge order (x ∷ a) (y ∷ b) ≡ x ∷ a ++ y ∷ b
  concat_first x a y b sorted first =
      ap (λ (t : List (K × V)). stable_merge order t (y ∷ b)) (sym (append-nil (x ∷ a)))
      ∙ merge_first order (x ∷ a) [] y b
          (last_passes (is_up_to order y.0) (is_up_to-IsDownClosed order y.0) x a sorted first)

  -- If the second run ends below the start of the first one, it comes first.
  pub concat_second :
      (x : K × V) (a : List (K × V)) (y : K × V) (b : List (K × V))
      → IsSorted order (y ∷ b)
      → is_below order x.0 (last_key y b) ≡ true
      → stable_merge order (x ∷ a) (y ∷ b) ≡ y ∷ b ++ x ∷ a
  concat_second x a y b sorted second =
      ap (stable_merge order (x ∷ a)) (sym (append-nil (y ∷ b)))
      ∙ merge_second order x a (y ∷ b) []
          (last_passes (is_below order x.0) (is_below-IsDownClosed order x.0) y b sorted second)
      ∙ ap (λ (t : List (K × V)). (y ∷ b) ++ t) (merge_nil order (x ∷ a))

  -- On two sorted runs whose lengths fit an `isize`, `merge_sorted_by_key_gallop` never panics, its
  -- loop ends within the length of the second run, and the result is the stable merge.
  pub merge_sorted_by_key_gallop-stable_merge :
      (a b : List (K × V))
      → IsSorted order a
      → IsSorted order b
      → length a < 2 ^ 63
      → length b < 2 ^ 63
      → merge_sorted_by_key_gallop order a b ≡ some (stable_merge order a b)
  unfolding merge_sorted_by_key_gallop
  merge_sorted_by_key_gallop-stable_merge [] b sorted sorted' small small' = refl
  merge_sorted_by_key_gallop-stable_merge (x ∷ a) [] sorted sorted' small small' =
      ap some (sym (merge_nil order (x ∷ a)))
  merge_sorted_by_key_gallop-stable_merge (x ∷ a) (y ∷ b) sorted sorted' small small' =
      elim (Bool-cases (is_up_to order y.0 (last_key x a))) [
        | inl first ↦ rw first (ap some (sym (concat_first x a y b sorted first)))
        | inr apart ↦ elim (Bool-cases (is_below order x.0 (last_key y b))) [
          | inl second ↦ rw (apart, second) (ap some (sym (concat_second x a y b sorted' second)))
          | inr overlap ↦
              rw (apart, overlap)
                (blocks_lem (length (y ∷ b)) (x ∷ a) (y ∷ b) sorted sorted' small small'
                  (omega arith))
        ]
      ]

  -- On two sorted runs whose lengths fit an `isize`, the result of `merge_sorted_by_key_gallop` is
  -- sorted and holds the entries of both.
  pub merge_sorted_by_key_gallop-IsSorted :
      (a b : List (K × V))
      → IsSorted order a
      → IsSorted order b
      → length a < 2 ^ 63
      → length b < 2 ^ 63
      → (out : List (K × V)) × (merge_sorted_by_key_gallop order a b ≡ some out)
        × IsSorted order out
        × Perm out (a ++ b)
  merge_sorted_by_key_gallop-IsSorted a b sorted sorted' small small' = (
    stable_merge order a b,
    merge_sorted_by_key_gallop-stable_merge a b sorted sorted' small small',
    stable_merge-IsSorted order a b sorted sorted',
    stable_merge-Perm order a b,
  )
