-- ===== src/Storage/SortBuffer/Emptiness.antt =====
-- `is_empty`, `clear` and `from_sorted` of `MergeBuffer` in redbit/src/storage/sort_buffer.rs.
use redbit.Prelude.{◌≡◌, ◌↔◌, refl, ap, true, none, some, List, [], ◌∷◌, length, append-nil, arith}
use redbit.Prelude.Order.{KeyOrder}
use redbit.Storage.SortBuffer.Search.{IsSorted}
use redbit.Storage.SortBuffer.Levels.{
  Level, MergeBuffer, all_empty, is_empty, clear, from_sorted, new,
}
use redbit.Storage.SortBuffer.Carry.{contents, AllRuns}

module _ {ℓ κ} {K : Type ℓ} {V : Type κ} (order : KeyOrder K) where
  all_empty_iff :
      (levels : List (Level K V))
      → AllRuns order levels
      → (all_empty levels ≡ true) ↔ (contents levels ≡ [])
  unfolding all_empty
  all_empty_iff [] all = (λ h. refl, λ h. refl)
  all_empty_iff (none ∷ levels) all = all_empty_iff levels all
  all_empty_iff (some [] ∷ levels) all = absurd (omega (arith, all.0.0))
  all_empty_iff (some (e ∷ run) ∷ levels) all =
      (λ h. absurd (ground arith), λ h. absurd (omega (arith, ap length h)))

  -- A buffer of sorted runs that are not empty is empty by `is_empty` exactly when it has no
  -- entries; it is so after `clear`; and `from_sorted` of a sorted run holds that run.
  is_empty_iff :
      (b : MergeBuffer K V) (run : List (K × V))
      → AllRuns order b.levels
      → IsSorted order run
      → ((is_empty b ≡ true) ↔ (contents b.levels ≡ []))
        × (is_empty (clear b) ≡ true)
        × AllRuns order (from_sorted run).levels
        × (contents (from_sorted run).levels ≡ run)
  unfolding is_empty clear all_empty from_sorted new
  is_empty_iff b [] all sorted = (all_empty_iff b.levels all, refl, tt, refl)
  is_empty_iff b (e ∷ run) all sorted =
      (all_empty_iff b.levels all, refl, ((omega arith, sorted), tt), append-nil (e ∷ run))
