-- ===== src/Chain/SizeBatcher/Tests.antt =====
-- Runs of `SizeBatcher`, and its theorems at concrete items. The items are their sizes.
use redbit.Prelude.{ℕ, ◌≡◌, refl, false, List, [], ◌∷◌, ◌++◌, arith}
use mathlib.Core.List.{flatten}
use redbit.Chain.SizeBatcher.{new, take_all, push, batches}
use redbit.Chain.SizeBatcher.Batches.{flatten-batches, AllFit, batches_fit}

program : Unit {0}
unfolding new take_all push batches
program = tt

abbrev bytes : ℕ → ℕ
bytes n = n

abbrev items : List ℕ
items = 10 ∷ 20 ∷ 25 ∷ 120 ∷ 7 ∷ []

-- test `flushes_before_adding_overflowing_item`, and an item above the limit after it
flushes_before_adding_overflowing_item :
    batches bytes items (new 50 false) ≡ (10 ∷ 20 ∷ []) ∷ (25 ∷ []) ∷ (120 ∷ []) ∷ (7 ∷ []) ∷ []
unfolding program
flushes_before_adding_overflowing_item = refl

flatten-batches_example :
    flatten (batches bytes items (new 50 false)) ≡ (new {T = ℕ} 50 false).buf ++ items
unfolding program
flatten-batches_example = flatten-batches bytes items (new 50 false) (λ e. refl)

batches_fit_example : AllFit bytes 50 (batches bytes items (new 50 false))
batches_fit_example = batches_fit bytes 50 false items (omega arith)
