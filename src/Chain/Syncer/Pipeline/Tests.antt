-- ===== src/Chain/Syncer/Pipeline/Tests.antt =====
-- The tasks of the pipeline on blocks that are pairs of a height and a weight.
use redbit.Prelude.{
  ℕ, ◌+◌, ◌≤◌, ◌≡◌, refl, Option, none, some, List, [], ◌∷◌, ◌++◌, map, length, arith, min, total,
  usize_max,
}
use mathlib.Core.List.{flatten}
use redbit.Prelude.Assoc.{get}
use redbit.Chain.ReorderBuffer.Drain.{InRange, window}
use redbit.Chain.WeightBatcher.{deferred}
use redbit.Chain.Syncer.Pipeline.{process_block, process_results, process, sort}
use redbit.Chain.Syncer.Processing.{processed, process_lem}
use redbit.Chain.Syncer.Sorting.{keyed, sort_in_order}

program : Unit {0}
unfolding process_block process_results process
program = tt

abbrev height_of : ℕ × ℕ → ℕ
height_of b = b.0

abbrev weight_of : ℕ × ℕ → ℕ
weight_of b = b.1

abbrev results : List (Option (List (Option (ℕ × ℕ))))
results = some (some (2, 6) ∷ none ∷ []) ∷ none ∷ some (some (1, 7) ∷ some (4, 3) ∷ []) ∷ []

process_sends :
    process weight_of 10 results ([], 0) ≡ (((4, 3) ∷ [], 3), ((2, 6) ∷ (1, 7) ∷ []) ∷ [])
unfolding program
process_sends = refl

process_lem_example :
    (flatten (process weight_of 10 results ([], 0)).1 ++ (process weight_of 10 results ([], 0)).0.0
      ≡ processed results)
    × (min (total weight_of (process weight_of 10 results ([], 0)).0.0) usize_max ≤ 10)
process_lem_example = process_lem weight_of 10 results

abbrev received : List (List (ℕ × ℕ))
received = ((2, 6) ∷ (1, 7) ∷ []) ∷ ((4, 1) ∷ (2, 8) ∷ []) ∷ ((3, 1) ∷ []) ∷ []

received-InRange : InRange (keyed height_of (flatten received))
unfolding flatten
received-InRange h b found = ground arith

sort_in_order_example :
    (bs : List (List (ℕ × ℕ))) × (sort height_of weight_of 1 10 deferred received ≡ some bs)
    × (map some (flatten bs) ≡ window (keyed height_of (flatten received)) 1 (length (flatten bs)))
    × (get (1 + length (flatten bs)) (keyed height_of (flatten received)) ≡ none)
sort_in_order_example =
    sort_in_order height_of weight_of 1 10 deferred received (λ e. cc) received-InRange
