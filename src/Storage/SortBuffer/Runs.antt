-- ===== src/Storage/SortBuffer/Runs.antt =====
-- The sorting of the runs in `take_sorted` of redbit/src/storage/sort_buffer.rs, and the test that
-- they do not overlap.
use redbit.Prelude.{
  ◌≡◌, refl, sym, ap, ◌∙◌, subst, Bool, true, false, Option, some, List, [], ◌∷◌, ◌++◌, length,
  length-append, append-nil, arith, Bool-cases, inl, inr,
}
use mathlib.Core.List.{flatten, Perm}
use mathlib.Core.List.Perm
use redbit.Prelude.Order.{KeyOrder}
use redbit.Storage.SortBuffer.{◌>>=◌, is_up_to, last_key}
use redbit.Storage.SortBuffer.Search.{IsSorted}
use redbit.Storage.SortBuffer.Stable.{stable_merge-IsSorted}
use redbit.Storage.SortBuffer.Merge.{concat_first}
use redbit.Storage.SortBuffer.Levels.{can_append}
use redbit.Storage.SortBuffer.Carry.{IsRun}
use redbit.Storage.SortBuffer.Reduction.{place, sort_runs, disjoint_chain}
use redbit.Storage.SortBuffer.Heap.{perm_second}

module _ {ℓ κ} {K : Type ℓ} {V : Type κ} (order : KeyOrder K) where
  -- Every list is a run.
  abbrev pub AreRuns : List (List (K × V)) → Type 0
  AreRuns [] = Unit
  AreRuns (run ∷ runs) = IsRun order run × AreRuns runs

  -- The sorting has runs as its result, with the same entries and of the same number.
  abbrev pub Sorts : List (List (K × V)) → Option (List (List (K × V))) → Type (ℓ ⊔ κ)
  Sorts runs result =
      (sorted : List (List (K × V))) × (result ≡ some sorted)
      × AreRuns sorted
      × Perm (flatten sorted) (flatten runs)
      × (length (flatten sorted) ≡ length (flatten runs))
      × (length sorted ≡ length runs)

  place_first :
      (x : K × V) (a : List (K × V)) (y : K × V) (b : List (K × V)) (runs : List (List (K × V)))
      → is_up_to order y.0 x.0 ≡ true
      → place order (x ∷ a) ((y ∷ b) ∷ runs) ≡ some ((x ∷ a) ∷ (y ∷ b) ∷ runs)
  unfolding place
  place_first x a y b runs le =
      ap
        (λ (t : Bool). elim t as (λ _. Option (List (List (K × V)))) [
          | true ↦ some ((x ∷ a) ∷ (y ∷ b) ∷ runs)
          | false ↦ do rest ← place order (x ∷ a) runs; some ((y ∷ b) ∷ rest)
        ])
        le

  place_later :
      (x : K × V) (a : List (K × V)) (y : K × V) (b : List (K × V))
      (runs placed : List (List (K × V)))
      → is_up_to order y.0 x.0 ≡ false
      → place order (x ∷ a) runs ≡ some placed
      → place order (x ∷ a) ((y ∷ b) ∷ runs) ≡ some ((y ∷ b) ∷ placed)
  unfolding place
  place_later x a y b runs placed gt done =
      ap
        (λ (t : Bool). elim t as (λ _. Option (List (List (K × V)))) [
          | true ↦ some ((x ∷ a) ∷ (y ∷ b) ∷ runs)
          | false ↦ do rest ← place order (x ∷ a) runs; some ((y ∷ b) ∷ rest)
        ])
        gt
      ∙ ap (λ (o : Option (List (List (K × V)))). do rest ← o; some ((y ∷ b) ∷ rest)) done

  place_lem :
      (run : List (K × V)) (runs : List (List (K × V)))
      → IsRun order run
      → AreRuns runs
      → Sorts (run ∷ runs) (place order run runs)
  unfolding place flatten
  place_lem run [] is_run all =
      (run ∷ [], refl, (is_run, tt), Perm.refl (flatten (run ∷ [])), refl, refl)
  place_lem [] (r ∷ runs) is_run all = absurd (omega (arith, is_run.0))
  place_lem (x ∷ a) ([] ∷ runs) is_run all = absurd (omega (arith, all.0.0))
  place_lem (x ∷ a) ((y ∷ b) ∷ runs) is_run all = elim (Bool-cases (is_up_to order y.0 x.0)) [
    | inl le ↦ subst (Sorts ((x ∷ a) ∷ (y ∷ b) ∷ runs)) (sym (place_first x a y b runs le)) (
      (x ∷ a) ∷ (y ∷ b) ∷ runs,
      refl,
      (is_run, all),
      Perm.refl (flatten ((x ∷ a) ∷ (y ∷ b) ∷ runs)),
      refl,
      refl,
    )
    | inr gt ↦
        let (placed, done, all', perm, long, count) = place_lem (x ∷ a) runs is_run all.1 in
        subst (Sorts ((x ∷ a) ∷ (y ∷ b) ∷ runs)) (sym (place_later x a y b runs placed gt done)) (
          (y ∷ b) ∷ placed,
          refl,
          (all.0, all'),
          perm_second order (y ∷ b) (x ∷ a) (flatten placed) (flatten runs) perm,
          omega (
            arith,
            long,
            length-append (y ∷ b) (flatten placed),
            length-append (x ∷ a) (flatten runs),
            length-append (y ∷ b) (flatten runs),
            length-append (x ∷ a) (y ∷ b ++ flatten runs),
          ),
          omega (arith, count),
        )
  ]

  pub sort_runs_lem :
      (runs : List (List (K × V))) → AreRuns runs → Sorts runs (sort_runs order runs)
  unfolding sort_runs flatten
  sort_runs_lem [] all = ([], refl, tt, Perm.refl [], refl, refl)
  sort_runs_lem (run ∷ runs) all =
      let (sorted, done, all', perm, long, count) = sort_runs_lem runs all.1 in
      let (placed, done', all'', perm', long', count') = place_lem run sorted all.0 all' in
      rw (sort_runs, done)
        (
          placed,
          done',
          all'',
          Perm.trans perm' (Perm.append_left run perm),
          omega (
            arith,
            long,
            long',
            length-append run (flatten sorted),
            length-append run (flatten runs),
          ),
          omega (arith, count, count'),
        )

  -- Runs in a chain, one behind the other, are sorted.
  pub disjoint_chain_lem :
      (runs : List (List (K × V)))
      → AreRuns runs
      → (b : Bool) × (disjoint_chain order runs ≡ some b)
        × (b ≡ true → IsSorted order (flatten runs))
  unfolding disjoint_chain can_append flatten
  disjoint_chain_lem [] all = (true, refl, λ h. tt)
  disjoint_chain_lem (run ∷ []) all =
      (true, refl, λ h. subst (IsSorted order) (sym (append-nil run)) all.0.1)
  disjoint_chain_lem ([] ∷ r ∷ runs) all = absurd (omega (arith, all.0.0))
  disjoint_chain_lem ((x ∷ a) ∷ [] ∷ runs) all = absurd (omega (arith, all.1.0.0))
  disjoint_chain_lem ((x ∷ a) ∷ (y ∷ b) ∷ runs) all =
      elim (Bool-cases (is_up_to order y.0 (last_key x a))) [
        | inl follows ↦
            let (chain, done, in_order) = disjoint_chain_lem ((y ∷ b) ∷ runs) all.1 in
            rw (disjoint_chain, can_append, follows)
              (
                chain,
                done,
                λ h.
                    subst (IsSorted order)
                      (concat_first order x a y (b ++ flatten runs) all.0.1 follows)
                      (stable_merge-IsSorted order (x ∷ a) (y ∷ b ++ flatten runs) all.0.1
                        (in_order h)),
              )
        | inr overlaps ↦
            rw (disjoint_chain, can_append, overlaps) (false, refl, λ h. absurd (ground arith))
      ]
