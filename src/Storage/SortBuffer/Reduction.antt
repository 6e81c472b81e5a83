-- ===== src/Storage/SortBuffer/Reduction.antt =====
-- `take_sorted` of `MergeBuffer`: the runs one behind the other if they do not overlap, or else
-- merged two by two, the shortest first. The binary heap of the standard library is a list whose
-- greatest entry is popped. `none` as a result is a panic, or fuel that ran out.
use redbit.Prelude.{
  ℕ, zero, suc, Bool, true, false, ◌&&◌, ◌||◌, Option, none, some, List, [], ◌∷◌, ◌++◌,
  if◌then◌else◌, get_elem?, set, length, ltb, ◌==◌, map,
}
use mathlib.Core.List.{flatten}
use redbit.Prelude.Order.{KeyOrder}
use redbit.Storage.SortBuffer.{◌>>=◌, is_up_to, merge_sorted_by_key_gallop}
use redbit.Storage.SortBuffer.Levels.{Level, MergeBuffer, first_of, can_append, run_at}

module _ {ℓ κ} {K : Type ℓ} {V : Type κ} where
  -- `levels.into_iter().flatten().collect()`
  unfoldable pub runs_of : List (Level K V) → List (List (K × V))
  runs_of [] = []
  runs_of (none ∷ levels) = runs_of levels
  runs_of (some run ∷ levels) = run ∷ runs_of levels

  -- The heap of `(Reverse(len), index)` over runs from an index on.
  unfoldable pub heap_from : ℕ → List (List (K × V)) → List (ℕ × ℕ)
  heap_from i [] = []
  heap_from i (run ∷ runs) = (length run, i) ∷ heap_from (suc i) runs

-- An entry of the heap is greater than another one: it is shorter, or as long and has a greater
-- index.
abbrev pub is_before : ℕ × ℕ → ℕ × ℕ → Bool
is_before (len, i) (len', j) = ltb len len' || ((len == len') && ltb j i)

-- `heap.pop()`
unfoldable pub pop : List (ℕ × ℕ) → Option ((ℕ × ℕ) × List (ℕ × ℕ))
pop [] = none
pop (e ∷ heap) = elim (pop heap) [
  | none ↦ some (e, [])
  | some (top, rest) ↦ if is_before top e then some (top, e ∷ rest) else some (e, top ∷ rest)
]

module _ {ℓ κ} {K : Type ℓ} {V : Type κ} (order : KeyOrder K) where
  -- `runs.sort_by` of the first keys, a stable sort, by insertion
  unfoldable pub place : List (K × V) → List (List (K × V)) → Option (List (List (K × V)))
  place run [] = some (run ∷ [])
  place run (r ∷ runs) = do
    first ← first_of run
    first' ← first_of r
    elim (is_up_to order first' first) [
      | true ↦ some (run ∷ r ∷ runs)
      | false ↦ do placed ← place run runs; some (r ∷ placed)
    ]

  unfoldable pub sort_runs : List (List (K × V)) → Option (List (List (K × V)))
  unfolding place
  sort_runs [] = some []
  sort_runs (run ∷ runs) = do sorted ← sort_runs runs; place run sorted

  unfoldable pub disjoint_chain : List (List (K × V)) → Option Bool
  unfolding can_append
  disjoint_chain [] = some true
  disjoint_chain (run ∷ []) = some true
  disjoint_chain (run ∷ next ∷ runs) = do
    follows ← can_append order run next
    elim follows [ true ↦ disjoint_chain (next ∷ runs) | false ↦ some false ]

  -- `while heap.len() > 1`, and the run that remains. Every round makes the heap smaller by one.
  unfoldable pub reduce : ℕ → List (Level K V) → List (ℕ × ℕ) → ℕ → Option (List (K × V))
  reduce fuel pool [] next_idx = none
  reduce fuel pool (e ∷ []) next_idx = do
    slot ← get_elem? pool e.1
    some (elim slot [ none ↦ [] | some run ↦ run ])
  reduce zero pool (e ∷ e' ∷ heap) next_idx = none
  reduce (suc fuel) pool (e ∷ e' ∷ heap) next_idx = do
    ((_, ia), heap') ← pop (e ∷ e' ∷ heap)
    ((_, ib), heap'') ← pop heap'
    a ← run_at pool ia
    let pool' = set pool ia none
    b ← run_at pool' ib
    let pool'' = set pool' ib none
    merged ← merge_sorted_by_key_gallop order a b
    reduce fuel (pool'' ++ some merged ∷ []) ((length merged, next_idx) ∷ heap'') (suc next_idx)

  -- From two runs on.
  unfoldable pub take_runs : List (List (K × V)) → Option (List (K × V))
  unfolding sort_runs disjoint_chain reduce
  take_runs runs = do
    sorted ← sort_runs runs
    disjoint ← disjoint_chain sorted
    elim disjoint [
      | true ↦ some (flatten sorted)
      | false ↦ reduce (length sorted) (map some sorted) (heap_from 0 sorted) (length sorted)
    ]

  unfoldable pub take_sorted : MergeBuffer K V → Option (MergeBuffer K V × List (K × V))
  unfolding runs_of take_runs
  take_sorted b = do
    out ← (elim (runs_of b.levels) [
      | [] ↦ some []
      | run ∷ runs ↦ elim runs [ [] ↦ some run | next ∷ runs' ↦ take_runs (run ∷ next ∷ runs') ]
    ])
    some (record b { levels = [] }, out)
