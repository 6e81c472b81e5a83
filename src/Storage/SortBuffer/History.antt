-- ===== src/Storage/SortBuffer/History.antt =====
-- A life of a `MergeBuffer` of redbit/src/storage/sort_buffer.rs: insertions of all kinds, in any
-- order, and `take_sorted` at the end.
use redbit.Prelude.{
  suc, ◌+◌, ◌^◌, ◌<◌, ◌≡◌, refl, sym, ap, ◌∙◌, Option, some, List, [], ◌∷◌, ◌++◌, length,
  length-append, append-nil, append_assoc, arith, ℕ_discrete,
}
use mathlib.Core.Logic.{∥∥₁_elim}
use mathlib.Core.HLevel.{hedberg}
use mathlib.Core.List.{Perm, Permᴰ}
use mathlib.Core.List.Perm
use redbit.Prelude.Order.{KeyOrder}
use redbit.Storage.SortBuffer.{◌>>=◌}
use redbit.Storage.SortBuffer.Search.{IsSorted}
use redbit.Storage.SortBuffer.Levels.{MergeBuffer, new, merge_sorted, merge_unsorted, append_sorted}
use redbit.Storage.SortBuffer.Carry.{contents, perm_of, AllRuns}
use redbit.Storage.SortBuffer.Insertions.{Keeps, merge_sorted-Keeps, merge_unsorted-Keeps}
use redbit.Storage.SortBuffer.Appends.{append_sorted-Keeps}
use redbit.Storage.SortBuffer.Reduction.{take_sorted}
use redbit.Storage.SortBuffer.Taking.{take_sorted-IsSorted}

length-Permᴰ {ℓ} : {A : Type ℓ} {xs ys : List A} → Permᴰ xs ys → length xs ≡ length ys
length-Permᴰ Permᴰ.nil = refl
length-Permᴰ (Permᴰ.cons e p) = ap suc (length-Permᴰ p)
length-Permᴰ (Permᴰ.swap e e') = refl
length-Permᴰ (Permᴰ.trans p q) = length-Permᴰ p ∙ length-Permᴰ q

pub length-Perm {ℓ} : {A : Type ℓ} {xs ys : List A} → Perm xs ys → length xs ≡ length ys
unfolding ℕ_discrete
length-Perm {xs} {ys} p =
    ∥∥₁_elim p (hedberg ℕ_discrete (length xs) (length ys)) (λ q. length-Permᴰ q)

-- An insertion, by its method, with its run.
pub data Insertion {ℓ κ} (K : Type ℓ) (V : Type κ) : Type (ℓ ⊔ κ) where
  sorted_run : List (K × V) → Insertion K V
  unsorted_run : List (K × V) → Insertion K V
  appended_run : List (K × V) → Insertion K V

module _ {ℓ κ} {K : Type ℓ} {V : Type κ} where
  abbrev pub run_of : Insertion K V → List (K × V)
  run_of (sorted_run run) = run
  run_of (unsorted_run run) = run
  run_of (appended_run run) = run

  -- All entries inserted.
  abbrev pub inserted : List (Insertion K V) → List (K × V)
  inserted [] = []
  inserted (i ∷ insertions) = run_of i ++ inserted insertions

module _ {ℓ κ} {K : Type ℓ} {V : Type κ} (order : KeyOrder K) where
  -- The methods that want a sorted run have one.
  abbrev pub IsFair : Insertion K V → Type 0
  IsFair (sorted_run run) = IsSorted order run
  IsFair (unsorted_run run) = Unit
  IsFair (appended_run run) = IsSorted order run

  abbrev pub AllFair : List (Insertion K V) → Type 0
  AllFair [] = Unit
  AllFair (i ∷ insertions) = IsFair i × AllFair insertions

  unfoldable pub perform : Insertion K V → MergeBuffer K V → Option (MergeBuffer K V)
  perform (sorted_run run) b = merge_sorted order run b
  perform (unsorted_run run) b = merge_unsorted order run b
  perform (appended_run run) b = append_sorted order run b

  unfoldable pub perform_all : List (Insertion K V) → MergeBuffer K V → Option (MergeBuffer K V)
  unfolding perform
  perform_all [] b = some b
  perform_all (i ∷ insertions) b = do b' ← perform i b; perform_all insertions b'

  perform-Keeps :
      (i : Insertion K V) (b : MergeBuffer K V)
      → AllRuns order b.levels
      → IsFair i
      → length (contents b.levels) + length (run_of i) < 2 ^ 63
      → Keeps order b (run_of i) (perform i b)
  unfolding perform
  perform-Keeps (sorted_run run) b all fair small = merge_sorted-Keeps order run b all fair small
  perform-Keeps (unsorted_run run) b all fair small = merge_unsorted-Keeps order run b all small
  perform-Keeps (appended_run run) b all fair small = append_sorted-Keeps order run b all fair small

  perform_all-Keeps :
      (insertions : List (Insertion K V)) (b : MergeBuffer K V)
      → AllRuns order b.levels
      → AllFair insertions
      → length (contents b.levels) + length (inserted insertions) < 2 ^ 63
      → Keeps order b (inserted insertions) (perform_all insertions b)
  unfolding perform_all
  perform_all-Keeps [] b all fair small =
      (b, refl, all, perm_of (sym (append-nil (contents b.levels))))
  perform_all-Keeps (i ∷ insertions) b all fair small =
      let joined = length-append (run_of i) (inserted insertions) in
      let (b', done, all', kept) = perform-Keeps i b all fair.0 (omega (arith, small, joined)) in
      let longer = length-Perm kept ∙ length-append (contents b.levels) (run_of i) in
      let (b'', done', all'', kept') =
        perform_all-Keeps insertions b' all' fair.1 (omega (arith, small, joined, longer)) in
      rw (perform_all, done)
        (
          b'',
          done',
          all'',
          Perm.trans kept' (
              Perm.trans (Perm.append_right (inserted insertions) kept)
                (perm_of (append_assoc (contents b.levels) (run_of i) (inserted insertions)))),
        )

  -- A new buffer, given fewer than 2 ^ 63 entries by any insertions in any order, those of sorted
  -- runs with sorted ones, never panics, and `take_sorted` then returns exactly the entries
  -- inserted, in the order of their keys, and leaves the buffer as new.
  pub perform_all-take_sorted :
      (insertions : List (Insertion K V))
      → AllFair insertions
      → length (inserted insertions) < 2 ^ 63
      → (out : List (K × V)) × ((do b ← perform_all insertions new; take_sorted order b)
          ≡ some (new, out))
        × IsSorted order out
        × Perm out (inserted insertions)
  unfolding new
  perform_all-take_sorted insertions fair small =
      let (b, done, all, kept) = perform_all-Keeps insertions new tt fair (omega (arith, small)) in
      let (out, taken, sorted, kept') =
        take_sorted-IsSorted order b all (omega (arith, length-Perm kept, small)) in
      (out, rw (done, taken) refl, sorted, Perm.trans kept' kept)
