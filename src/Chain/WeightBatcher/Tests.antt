-- ===== src/Chain/WeightBatcher/Tests.antt =====
-- Runs of `WeightBatcher`, and its theorems at concrete items. The items are their weights.
use redbit.Prelude.{ℕ, ◌≡◌, refl, true, some, List, [], ◌∷◌}
use mathlib.Core.List.{flatten}
use redbit.Chain.WeightBatcher.{
  immediate, deferred, new, take_inner, flush_if_full, flush, len, is_empty, push_with, batches,
}
use redbit.Chain.WeightBatcher.Batches.{IsReady}
use redbit.Chain.WeightBatcher.Fullness.{AllGrown, new-batches}

program : Unit {0}
unfolding new take_inner flush_if_full flush len is_empty push_with batches
program = tt

abbrev weight : ℕ → ℕ
weight n = n

abbrev items : List ℕ
items = 1 ∷ 1 ∷ 1 ∷ 1 ∷ 1 ∷ 9 ∷ 2 ∷ []

-- test `thresholds_mode_batches_by_weight`, with a heavy item and a rest
thresholds_mode_batches_by_weight :
    batches weight items (new 5 100 deferred)
    ≡ some ((1 ∷ 1 ∷ 1 ∷ 1 ∷ 1 ∷ []) ∷ (9 ∷ []) ∷ (2 ∷ []) ∷ [])
unfolding program
thresholds_mode_batches_by_weight = refl

-- test `immediate_mode_returns_single_item_and_len_zero`
immediate_mode_returns_single_item_and_len_zero :
    (push_with weight 5 (new 10 10 immediate) ≡ some (new 10 10 immediate, some (5 ∷ [])))
    × (is_empty (new {TB = ℕ} 10 10 immediate) ≡ some true)
unfolding program
immediate_mode_returns_single_item_and_len_zero = (refl, refl)

ready : IsReady weight (new {TB = ℕ} 5 100 immediate)
unfolding program
ready = record { supported = λ e. cc; idle = λ e. refl }

new-batches_example :
    (bs : List (List ℕ)) × (batches weight items (new 5 100 deferred) ≡ some bs)
    × (flatten bs ≡ items)
    × AllGrown weight 5 100 bs
new-batches_example = new-batches weight 5 100 items
