-- ===== src/Storage/SortBuffer/Taking.antt =====
-- `take_sorted` of `MergeBuffer`.
use redbit.Prelude.{
  ℕ, suc, ◌+◌, ◌^◌, ◌<◌, ◌≡◌, refl, sym, ap, ◌∙◌, Option, none, some, List, [], ◌∷◌, ◌++◌, length,
  length-map, append-nil, arith, Bool-cases, inl, inr, get_elem?, map,
}
use mathlib.Core.List.{flatten, Perm}
use mathlib.Core.List.Perm
use redbit.Prelude.Order.{KeyOrder}
use redbit.Storage.SortBuffer.Search.{IsSorted}
use redbit.Storage.SortBuffer.Levels.{Level, MergeBuffer}
use redbit.Storage.SortBuffer.Carry.{contents, perm_of, AllRuns}
use redbit.Storage.SortBuffer.Reduction.{runs_of, heap_from, take_runs, take_sorted}
use redbit.Storage.SortBuffer.Heap.{NotIn, Held, held_nil, held_cons}
use redbit.Storage.SortBuffer.Reducing.{Reduces, reduce_lem}
use redbit.Storage.SortBuffer.Runs.{AreRuns, sort_runs_lem, disjoint_chain_lem}

module _ {ℓ κ} {K : Type ℓ} {V : Type κ} (order : KeyOrder K) where
  heap_from-NotIn : (i k : ℕ) (runs : List (List (K × V))) → i < k → NotIn i (heap_from k runs)
  unfolding heap_from
  heap_from-NotIn i k [] lt = tt
  heap_from-NotIn i k (run ∷ runs) lt =
      (λ h. absurd (omega (arith, h, lt)), heap_from-NotIn i (suc k) runs (omega arith))

  heap_from-Held :
      (pool : List (Level K V)) (k : ℕ) (runs : List (List (K × V)))
      → AreRuns order runs
      → ((j : ℕ) → get_elem? (map some runs) j ≡ get_elem? pool (k + j))
      → Held order pool (heap_from k runs) runs
  unfolding heap_from
  heap_from-Held pool k [] all from = held_nil
  heap_from-Held pool k (run ∷ runs) all from =
      held_cons (length run, k) run (ap (get_elem? pool) (omega arith) ∙ sym (from 0)) all.0
        (heap_from-NotIn k (suc k) runs (omega arith))
        (heap_from-Held pool (suc k) runs all.1
          (λ j. from (suc j) ∙ ap (get_elem? pool) (omega arith)))

  length-heap_from : (k : ℕ) (runs : List (List (K × V))) → length (heap_from k runs) ≡ length runs
  unfolding heap_from
  length-heap_from k [] = refl
  length-heap_from k (run ∷ runs) = ap suc (length-heap_from (suc k) runs)

  take_runs_lem :
      (runs : List (List (K × V)))
      → AreRuns order runs
      → 0 < length runs
      → length (flatten runs) < 2 ^ 63
      → Reduces order runs (take_runs order runs)
  unfolding take_runs
  take_runs_lem runs all pos small =
      let (sorted, done, all', perm, long, count) = sort_runs_lem order runs all in
      let (b, chain, in_order) = disjoint_chain_lem order sorted all' in
      elim (Bool-cases b) [
        | inl disjoint ↦
            rw (take_runs, done, chain, disjoint) (flatten sorted, refl, in_order disjoint, perm)
        | inr overlap ↦
            let (out, reduced, out_sorted, kept) =
              reduce_lem order (length sorted) (map some sorted) (heap_from 0 sorted) sorted
                (length sorted)
                (heap_from-Held (map some sorted) 0 sorted all'
                  (λ j. ap (get_elem? (map some sorted)) (omega arith)))
                (length-map sorted some) (omega (arith, length-heap_from 0 sorted, count, pos))
                (omega (arith, length-heap_from 0 sorted)) (omega (arith, long, small)) in
            rw (take_runs, done, chain, overlap, reduced)
              (out, refl, out_sorted, Perm.trans kept perm)
      ]

  runs_of-AreRuns :
      (levels : List (Level K V)) → AllRuns order levels → AreRuns order (runs_of levels)
  unfolding runs_of
  runs_of-AreRuns [] all = tt
  runs_of-AreRuns (none ∷ levels) all = runs_of-AreRuns levels all
  runs_of-AreRuns (some run ∷ levels) all = (all.0, runs_of-AreRuns levels all.1)

  flatten-runs_of : (levels : List (Level K V)) → flatten (runs_of levels) ≡ contents levels
  unfolding runs_of flatten
  flatten-runs_of [] = refl
  flatten-runs_of (none ∷ levels) = flatten-runs_of levels
  flatten-runs_of (some run ∷ levels) = ap (λ (t : List (K × V)). run ++ t) (flatten-runs_of levels)

  -- What `take_sorted` takes out of a buffer.
  abbrev pub Takes : MergeBuffer K V → Option (MergeBuffer K V × List (K × V)) → Type (ℓ ⊔ κ)
  Takes b result =
      (out : List (K × V)) × (result ≡ some (record b { levels = [] }, out))
      × IsSorted order out
      × Perm out (contents b.levels)

  by_runs :
      (b : MergeBuffer K V) (runs : List (List (K × V)))
      → runs_of b.levels ≡ runs
      → AreRuns order runs
      → flatten runs ≡ contents b.levels
      → length (contents b.levels) < 2 ^ 63
      → Takes b (take_sorted order b)
  unfolding take_sorted flatten
  by_runs b [] e all joined small = rw (take_sorted, e) ([], refl, tt, perm_of joined)
  by_runs b (run ∷ []) e all joined small =
      rw (take_sorted, e) (run, refl, all.0.1, perm_of (sym (append-nil run) ∙ joined))
  by_runs b (run ∷ next ∷ runs) e all joined small =
      let (out, taken, sorted, kept) =
        take_runs_lem (run ∷ next ∷ runs) all (omega arith)
          (omega (arith, ap length joined, small)) in
      rw (take_sorted, e, taken) (out, refl, sorted, Perm.trans kept (perm_of joined))

  -- From a buffer of sorted runs that are not empty and have fewer than 2 ^ 63 entries, `take_sorted`
  -- never panics, empties the buffer, and returns all entries in the order of their keys, whether
  -- it concatenates the runs or merges them; its loop ends within the number of runs.
  pub take_sorted-IsSorted :
      (b : MergeBuffer K V)
      → AllRuns order b.levels
      → length (contents b.levels) < 2 ^ 63
      → Takes b (take_sorted order b)
  take_sorted-IsSorted b all small =
      by_runs b (runs_of b.levels) refl (runs_of-AreRuns b.levels all) (flatten-runs_of b.levels)
        small
