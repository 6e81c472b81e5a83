-- ===== src/Storage/SortBuffer/Insertions.antt =====
-- `merge_sorted`, `merge_unsorted` and `append_sorted` of `MergeBuffer`.
use redbit.Prelude.{
  ℕ, zero, suc, ◌+◌, ◌^◌, ◌<◌, ◌≡◌, refl, sym, ap, ◌∙◌, subst, Option, none, some, List, [], ◌∷◌,
  ◌++◌, length, append-nil, append_assoc, arith, set,
}
use mathlib.Core.Option.{some_inj}
use mathlib.Core.List.{Perm}
use mathlib.Core.List.Perm
use redbit.Prelude.Order.{KeyOrder}
use redbit.Storage.SortBuffer.Search.{IsSorted}
use redbit.Storage.SortBuffer.Stable.{stable_merge-IsSorted, stable_merge-Perm, length-stable_merge}
use redbit.Storage.SortBuffer.Levels.{
  Level, MergeBuffer, run_at, merge_sorted, sort_by_key, merge_unsorted,
}
use redbit.Storage.SortBuffer.Carry.{contents, perm_of, perm_behind, IsRun, AllRuns, carry_lem}

module _ {ℓ κ} {K : Type ℓ} {V : Type κ} (order : KeyOrder K) where
  -- The insertion does not panic, and its result has sorted runs that hold the entries of the
  -- buffer and of the run.
  abbrev pub Keeps : MergeBuffer K V → List (K × V) → Option (MergeBuffer K V) → Type (ℓ ⊔ κ)
  Keeps b run result =
      (b' : MergeBuffer K V) × (result ≡ some b')
      × AllRuns order b'.levels
      × Perm (contents b'.levels) (contents b.levels ++ run)

  -- Merging a sorted run into a buffer of sorted runs never panics, keeps all runs sorted and not
  -- empty, and keeps all entries, while there are fewer than 2 ^ 63 of them.
  pub merge_sorted-Keeps :
      (run : List (K × V)) (b : MergeBuffer K V)
      → AllRuns order b.levels
      → IsSorted order run
      → length (contents b.levels) + length run < 2 ^ 63
      → Keeps b run (merge_sorted order run b)
  unfolding merge_sorted
  merge_sorted-Keeps [] b all sorted small =
      (b, refl, all, perm_of (sym (append-nil (contents b.levels))))
  merge_sorted-Keeps (e ∷ run) b all sorted small =
      let (levels, carried, all', moved) =
        carry_lem order b.levels (e ∷ run) all (omega arith, sorted) small in
      rw (merge_sorted, carried) (record b { levels = levels }, refl, all', moved)

  sort_by_key-IsSorted : (run : List (K × V)) → IsSorted order (sort_by_key order run)
  unfolding sort_by_key
  sort_by_key-IsSorted [] = tt
  sort_by_key-IsSorted (e ∷ run) =
      stable_merge-IsSorted order (e ∷ []) (sort_by_key order run) (tt, tt)
        (sort_by_key-IsSorted run)

  sort_by_key-Perm : (run : List (K × V)) → Perm (sort_by_key order run) run
  unfolding sort_by_key
  sort_by_key-Perm [] = Perm.refl []
  sort_by_key-Perm (e ∷ run) =
      Perm.trans (stable_merge-Perm order (e ∷ []) (sort_by_key order run))
        (Perm.cons e (sort_by_key-Perm run))

  length-sort_by_key : (run : List (K × V)) → length (sort_by_key order run) ≡ length run
  unfolding sort_by_key
  length-sort_by_key [] = refl
  length-sort_by_key (e ∷ run) =
      length-stable_merge order (e ∷ []) (sort_by_key order run)
      ∙ omega (arith, length-sort_by_key run)

  -- Merging any run into a buffer of sorted runs never panics, keeps all runs sorted and not
  -- empty, and keeps all entries, while there are fewer than 2 ^ 63 of them.
  pub merge_unsorted-Keeps :
      (run : List (K × V)) (b : MergeBuffer K V)
      → AllRuns order b.levels
      → length (contents b.levels) + length run < 2 ^ 63
      → Keeps b run (merge_unsorted order run b)
  unfolding merge_unsorted
  merge_unsorted-Keeps [] b all small =
      (b, refl, all, perm_of (sym (append-nil (contents b.levels))))
  merge_unsorted-Keeps (e ∷ run) b all small =
      let sorted_run = sort_by_key order (e ∷ run) in
      let (b', done, all', kept) =
        merge_sorted-Keeps sorted_run b all (sort_by_key-IsSorted (e ∷ run))
          (omega (arith, length-sort_by_key (e ∷ run))) in
      (
        b',
        done,
        all',
        Perm.trans kept (Perm.append_left (contents b.levels) (sort_by_key-Perm (e ∷ run))),
      )

  pub run_at-IsRun :
      (levels : List (Level K V)) (i : ℕ) (run : List (K × V))
      → AllRuns order levels
      → run_at levels i ≡ some run
      → IsRun order run
  run_at-IsRun [] i run all h = absurd (ground arith)
  run_at-IsRun (none ∷ levels) zero run all h = absurd (ground arith)
  run_at-IsRun (some run' ∷ levels) zero run all h = subst (IsRun order) (some_inj.0 h) all.0
  run_at-IsRun (none ∷ levels) (suc i) run all h = run_at-IsRun levels i run all h
  run_at-IsRun (some run' ∷ levels) (suc i) run all h = run_at-IsRun levels i run all.1 h

  pub set-AllRuns :
      (levels : List (Level K V)) (i : ℕ) (run : List (K × V))
      → AllRuns order levels
      → IsRun order run
      → AllRuns order (set levels i (some run))
  set-AllRuns [] i run all is_run = tt
  set-AllRuns (none ∷ levels) zero run all is_run = (is_run, all)
  set-AllRuns (some run' ∷ levels) zero run all is_run = (is_run, all.1)
  set-AllRuns (none ∷ levels) (suc i) run all is_run = set-AllRuns levels i run all is_run
  set-AllRuns (some run' ∷ levels) (suc i) run all is_run =
      (all.0, set-AllRuns levels i run all.1 is_run)

  pub set-Perm :
      (levels : List (Level K V)) (i : ℕ) (existing run : List (K × V))
      → run_at levels i ≡ some existing
      → Perm (contents (set levels i (some (existing ++ run)))) (contents levels ++ run)
  set-Perm [] i existing run h = absurd (ground arith)
  set-Perm (none ∷ levels) zero existing run h = absurd (ground arith)
  set-Perm (some run' ∷ levels) zero existing run h =
      Perm.trans (perm_behind existing run (contents levels))
        (perm_of (ap (λ (t : List (K × V)). (t ++ contents levels) ++ run) (sym (some_inj.0 h))))
  set-Perm (none ∷ levels) (suc i) existing run h = set-Perm levels i existing run h
  set-Perm (some run' ∷ levels) (suc i) existing run h =
      Perm.trans (Perm.append_left run' (set-Perm levels i existing run h))
        (perm_of (sym (append_assoc run' (contents levels) run)))
