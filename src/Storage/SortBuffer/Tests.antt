-- ===== src/Storage/SortBuffer/Tests.antt =====
-- The operations of sort_buffer.rs on concrete runs, whose keys are numbers.
use redbit.Prelude.{ℕ, ◌≡◌, refl, none, some, List, [], ◌∷◌, arith}
use mathlib.Core.List.{Perm}
use redbit.Prelude.Order.{nat_order}
use redbit.Storage.SortBuffer.{
  ◌>>=◌, bisect, leap, gallop, gallop_left_slice, gallop_right_slice, merge_blocks,
  merge_sorted_by_key_gallop,
}
use redbit.Storage.SortBuffer.Search.{IsSorted}
use redbit.Storage.SortBuffer.Stable.{stable_merge}
use redbit.Storage.SortBuffer.Merge.{merge_sorted_by_key_gallop-stable_merge}
use redbit.Storage.SortBuffer.Levels.{MergeBuffer, new}
use redbit.Storage.SortBuffer.Carry.{AllRuns}
use redbit.Storage.SortBuffer.Reduction.{take_sorted}
use redbit.Storage.SortBuffer.History.{
  Insertion, sorted_run, unsorted_run, appended_run, AllFair, inserted, perform_all,
  perform_all-take_sorted,
}

abbrev Run : Type 0
Run = List (ℕ × ℕ)

abbrev older : Run
older = (1, 10) ∷ (4, 11) ∷ (4, 12) ∷ (9, 13) ∷ []

abbrev newer : Run
newer = (2, 20) ∷ (4, 21) ∷ (5, 22) ∷ []

abbrev unsorted : Run
unsorted = (7, 30) ∷ (3, 31) ∷ (7, 32) ∷ []

abbrev older-IsSorted : IsSorted nat_order older
older-IsSorted = ((refl, (refl, (refl, tt))), ((refl, (refl, tt)), ((refl, tt), (tt, tt))))

abbrev newer-IsSorted : IsSorted nat_order newer
newer-IsSorted = ((refl, (refl, tt)), ((refl, tt), (tt, tt)))

abbrev buffer : MergeBuffer ℕ ℕ
buffer = record { levels = some older ∷ none ∷ some newer ∷ [] }

abbrev buffer-AllRuns : AllRuns nat_order buffer.levels
buffer-AllRuns = ((omega arith, older-IsSorted), ((omega arith, newer-IsSorted), tt))

found_two : gallop_left_slice nat_order older 4 4 ≡ some 3
unfolding bisect leap gallop gallop_left_slice
found_two = refl

merged_stable :
    merge_sorted_by_key_gallop nat_order older newer
    ≡ some ((1, 10) ∷ (2, 20) ∷ (4, 11) ∷ (4, 12) ∷ (4, 21) ∷ (5, 22) ∷ (9, 13) ∷ [])
unfolding bisect leap gallop gallop_left_slice gallop_right_slice merge_blocks
    merge_sorted_by_key_gallop
merged_stable = refl

merge_sorted_by_key_gallop-stable_merge_example :
    merge_sorted_by_key_gallop nat_order older newer ≡ some (stable_merge nat_order older newer)
merge_sorted_by_key_gallop-stable_merge_example =
    merge_sorted_by_key_gallop-stable_merge nat_order older newer older-IsSorted newer-IsSorted
      (omega arith) (omega arith)

abbrev insertions : List (Insertion ℕ ℕ)
insertions = sorted_run older ∷ unsorted_run unsorted ∷ appended_run newer ∷ []

abbrev insertions-AllFair : AllFair nat_order insertions
insertions-AllFair = (older-IsSorted, (tt, (newer-IsSorted, tt)))

perform_all-take_sorted_example :
    (out : Run) × ((do b ← perform_all nat_order insertions new; take_sorted nat_order b)
      ≡ some (new, out))
    × IsSorted nat_order out
    × Perm out (inserted insertions)
perform_all-take_sorted_example =
    perform_all-take_sorted nat_order insertions insertions-AllFair (omega arith)
