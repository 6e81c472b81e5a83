-- ===== src/Storage/SortBuffer/Carry.antt =====
-- The insertions of `MergeBuffer` keep every run sorted and every entry.
use redbit.Prelude.{
  ◌+◌, ◌^◌, ◌<◌, ◌≡◌, refl, sym, subst, none, some, List, [], ◌∷◌, ◌++◌, length, length-append,
  append-nil, append_assoc, arith, Bool-cases, inl, inr,
}
use mathlib.Core.List.{Perm, perm_append_comm}
use mathlib.Core.List.Perm
use redbit.Prelude.Order.{KeyOrder}
use redbit.Storage.SortBuffer.{is_below, is_up_to, last_key}
use redbit.Storage.SortBuffer.Search.{IsSorted}
use redbit.Storage.SortBuffer.Stable.{
  stable_merge, stable_merge-IsSorted, stable_merge-Perm, length-stable_merge,
}
use redbit.Storage.SortBuffer.Merge.{
  concat_first, concat_second, merge_sorted_by_key_gallop-stable_merge,
}
use redbit.Storage.SortBuffer.Levels.{Level, can_append, can_prepend, carry}

module _ {ℓ κ} {K : Type ℓ} {V : Type κ} where
  -- The entries of all runs.
  abbrev pub contents : List (Level K V) → List (K × V)
  contents [] = []
  contents (none ∷ levels) = contents levels
  contents (some run ∷ levels) = run ++ contents levels

  pub perm_of : {xs ys : List (K × V)} → xs ≡ ys → Perm xs ys
  perm_of {xs} e = subst (Perm xs) e (Perm.refl xs)

  -- A run comes from behind all.
  pub perm_behind :
      (run added rest : List (K × V)) → Perm ((run ++ added) ++ rest) ((run ++ rest) ++ added)
  perm_behind run added rest = Perm.trans (perm_of (append_assoc run added rest)) (
      Perm.trans (Perm.append_left run (perm_append_comm added rest))
        (perm_of (sym (append_assoc run rest added))))

module _ {ℓ κ} {K : Type ℓ} {V : Type κ} (order : KeyOrder K) where
  -- A run of a level: sorted and not empty.
  abbrev pub IsRun : List (K × V) → Type 0
  IsRun run = (0 < length run) × IsSorted order run

  -- Every level holds a run or nothing.
  abbrev pub AllRuns : List (Level K V) → Type 0
  AllRuns [] = Unit
  AllRuns (none ∷ levels) = AllRuns levels
  AllRuns (some run ∷ levels) = IsRun run × AllRuns levels

  -- The result has sorted runs that hold the entries of `levels` and of the run.
  abbrev pub Carries : List (Level K V) → List (K × V) → Type (ℓ ⊔ κ)
  Carries levels run =
      (levels' : List (Level K V)) × (carry order levels run ≡ some levels')
      × AllRuns levels'
      × Perm (contents levels') (contents levels ++ run)

  pub merge_IsRun :
      (existing run : List (K × V))
      → IsRun existing
      → IsRun run
      → IsRun (stable_merge order existing run)
  merge_IsRun existing run (pos, sorted) (pos', sorted') = (
    omega (arith, length-stable_merge order existing run),
    stable_merge-IsSorted order existing run sorted sorted',
  )

  -- The merged run in place of the existing one.
  pub merged_Perm :
      (existing run rest : List (K × V))
      → Perm (stable_merge order existing run ++ rest) ((existing ++ rest) ++ run)
  merged_Perm existing run rest =
      Perm.trans (Perm.append_right rest (stable_merge-Perm order existing run))
        (perm_behind existing run rest)

  pub carry_lem :
      (levels : List (Level K V)) (run : List (K × V))
      → AllRuns levels
      → IsRun run
      → length (contents levels) + length run < 2 ^ 63
      → Carries levels run
  unfolding carry can_append can_prepend
  carry_lem [] run all is_run small = (some run ∷ [], refl, (is_run, tt), perm_of (append-nil run))
  carry_lem (none ∷ levels) run all is_run small =
      (some run ∷ levels, refl, (is_run, all), perm_append_comm run (contents levels))
  carry_lem (some [] ∷ levels) run all is_run small = absurd (omega (arith, all.0.0))
  carry_lem (some (x ∷ a) ∷ levels) [] all is_run small = absurd (omega (arith, is_run.0))
  carry_lem (some (x ∷ a) ∷ levels) (y ∷ b) all is_run small =
      let merged = stable_merge order (x ∷ a) (y ∷ b) in
      let merged-IsRun = merge_IsRun (x ∷ a) (y ∷ b) all.0 is_run in
      let kept : Perm (merged ++ contents levels) ((x ∷ a ++ contents levels) ++ y ∷ b) =
        merged_Perm (x ∷ a) (y ∷ b) (contents levels) in
      let split = length-append (x ∷ a) (contents levels) in
      elim (Bool-cases (is_up_to order y.0 (last_key x a))) [
        | inl first ↦
            let e = concat_first order x a y b all.0.1 first in
            rw (carry, can_append, first)
              (
                some (x ∷ a ++ y ∷ b) ∷ levels,
                refl,
                (subst IsRun e merged-IsRun, all.1),
                subst
                    (λ (t : List (K × V)).
                      Perm (t ++ contents levels) ((x ∷ a ++ contents levels) ++ y ∷ b))
                    e kept,
              )
        | inr apart ↦ elim (Bool-cases (is_below order x.0 (last_key y b))) [
          | inl second ↦
              let e = concat_second order x a y b is_run.1 second in
              rw (carry, can_append, apart, can_prepend, second)
                (
                  some (y ∷ b ++ x ∷ a) ∷ levels,
                  refl,
                  (subst IsRun e merged-IsRun, all.1),
                  subst
                      (λ (t : List (K × V)).
                        Perm (t ++ contents levels) ((x ∷ a ++ contents levels) ++ y ∷ b))
                      e kept,
                )
          | inr overlap ↦
              let e =
                merge_sorted_by_key_gallop-stable_merge order (x ∷ a) (y ∷ b) all.0.1 is_run.1
                  (omega (arith, split)) (omega (arith, split)) in
              let (levels', carried, all', moved) =
                carry_lem levels merged all.1 merged-IsRun
                  (omega (arith, split, length-stable_merge order (x ∷ a) (y ∷ b))) in
              rw (carry, can_append, apart, can_prepend, overlap, e, carried)
                (
                  none ∷ levels',
                  refl,
                  all',
                  Perm.trans moved (Perm.trans (perm_append_comm (contents levels) merged) kept),
                )
        ]
      ]
