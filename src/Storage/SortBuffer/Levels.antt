-- ===== src/Storage/SortBuffer/Levels.antt =====
-- `MergeBuffer` of redbit/src/storage/sort_buffer.rs: at most one sorted run at each level, and an
-- insertion that carries merged runs upward. `none` as a result is a panic, as in SortBuffer.
use redbit.Prelude.{
  ℕ, zero, suc, Bool, true, false, Option, none, some, List, [], ◌∷◌, ◌++◌, if◌then◌else◌,
  get_elem?, set,
}
use redbit.Prelude.Order.{KeyOrder, is_greater}
use redbit.Storage.SortBuffer.{◌>>=◌, is_below, is_up_to, merge_sorted_by_key_gallop, last_key}
use redbit.Storage.SortBuffer.Stable.{stable_merge}

-- A level: a run, or nothing.
abbrev pub Level {ℓ κ} : Type ℓ → Type κ → Type (ℓ ⊔ κ)
Level K V = Option (List (K × V))

pub record MergeBuffer {ℓ κ} (K : Type ℓ) (V : Type κ) : Type (ℓ ⊔ κ) where
  pub levels : List (Level K V)

-- What the scan of `append_sorted` has counted: the runs, the level of the first one, and the level
-- of the run with the largest last key.
abbrev pub Scan : Type 0
Scan = ℕ × Option ℕ × Option ℕ

module _ {ℓ κ} {K : Type ℓ} {V : Type κ} where
  unfoldable pub new : MergeBuffer K V
  new = record { levels = [] }

  unfoldable pub clear : MergeBuffer K V → MergeBuffer K V
  clear b = record b { levels = [] }

  unfoldable pub all_empty : List (Level K V) → Bool
  all_empty [] = true
  all_empty (none ∷ levels) = all_empty levels
  all_empty (some run ∷ levels) = false

  unfoldable pub is_empty : MergeBuffer K V → Bool
  is_empty b = all_empty b.levels

  unfoldable pub from_sorted : List (K × V) → MergeBuffer K V
  unfolding new
  from_sorted [] = new
  from_sorted (e ∷ run) = record { levels = some (e ∷ run) ∷ [] }

  -- the run at a level, a panic if there is none
  abbrev pub run_at : List (Level K V) → ℕ → Option (List (K × V))
  run_at levels i = do slot ← get_elem? levels i; slot

  -- `first_key` and `last_key`, which panic on an empty run
  abbrev pub first_of : List (K × V) → Option K
  first_of [] = none
  first_of (e ∷ run) = some e.0

  abbrev pub last_of : List (K × V) → Option K
  last_of [] = none
  last_of (e ∷ run) = some (last_key e run)

module _ {ℓ κ} {K : Type ℓ} {V : Type κ} (order : KeyOrder K) where
  -- the last key of the first run is at most the first key of the second run
  unfoldable pub can_append : List (K × V) → List (K × V) → Option Bool
  can_append existing run = do
    last ← last_of existing
    first ← first_of run
    some (is_up_to order first last)

  -- the last key of the second run is below the first key of the first run
  unfoldable pub can_prepend : List (K × V) → List (K × V) → Option Bool
  can_prepend existing run = do
    last ← last_of run
    first ← first_of existing
    some (is_below order first last)

  -- The loop of `merge_sorted` from a level on: the levels that it leaves there.
  unfoldable pub carry : List (Level K V) → List (K × V) → Option (List (Level K V))
  unfolding can_append can_prepend
  carry [] run = some (some run ∷ [])
  carry (none ∷ levels) run = some (some run ∷ levels)
  carry (some existing ∷ levels) run = do
    append ← can_append existing run
    elim append [
      | true ↦ some (some (existing ++ run) ∷ levels)
      | false ↦ do
        prepend ← can_prepend existing run
        elim prepend [
          | true ↦ some (some (run ++ existing) ∷ levels)
          | false ↦ do
            merged ← merge_sorted_by_key_gallop order existing run
            levels' ← carry levels merged
            some (none ∷ levels')
        ]
    ]

  unfoldable pub merge_sorted : List (K × V) → MergeBuffer K V → Option (MergeBuffer K V)
  unfolding carry
  merge_sorted [] b = some b
  merge_sorted (e ∷ run) b = do
    levels ← carry b.levels (e ∷ run)
    some (record b { levels = levels })

  -- `sort_by` of the standard library, a stable sort, by insertion
  unfoldable pub sort_by_key : List (K × V) → List (K × V)
  sort_by_key [] = []
  sort_by_key (e ∷ run) = stable_merge order (e ∷ []) (sort_by_key run)

  unfoldable pub merge_unsorted : List (K × V) → MergeBuffer K V → Option (MergeBuffer K V)
  unfolding merge_sorted sort_by_key
  merge_unsorted [] b = some b
  merge_unsorted (e ∷ run) b = merge_sorted (sort_by_key (e ∷ run)) b

  -- whether the run at level `i` has a greater last key than the one at level `j`
  unfoldable pub take_i : List (Level K V) → ℕ → ℕ → Option Bool
  take_i levels i j = do
    ri ← run_at levels i
    rj ← run_at levels j
    li ← last_of ri
    lj ← last_of rj
    some (is_greater (order.cmp li lj))

  -- the loop over the levels from the one with index `i` on
  unfoldable pub scan : List (Level K V) → List (Level K V) → ℕ → Scan → Option Scan
  unfolding take_i
  scan levels [] i s = some s
  scan levels (none ∷ slots) i s = scan levels slots (suc i) s
  scan levels (some run ∷ slots) i (n_runs, only_idx, max_idx) = do
    max_idx' ← (elim max_idx [
      | none ↦ some i
      | some j ↦ do greater ← take_i levels i j; some (if greater then i else j)
    ])
    scan levels slots (suc i)
        (suc n_runs, elim only_idx [ none ↦ some i | some k ↦ some k ], some max_idx')

  -- The appending to the run at a level, or else `merge_sorted`.
  unfoldable pub append_at : ℕ → List (K × V) → MergeBuffer K V → Option (MergeBuffer K V)
  unfolding merge_sorted can_append
  append_at i run b = do
    existing ← run_at b.levels i
    append ← can_append existing run
    elim append [
      | true ↦ some (record b { levels = set b.levels i (some (existing ++ run)) })
      | false ↦ merge_sorted run b
    ]

  unfoldable pub append_sorted : List (K × V) → MergeBuffer K V → Option (MergeBuffer K V)
  unfolding scan append_at
  append_sorted [] b = some b
  append_sorted (e ∷ run) b = do
    (n_runs, only_idx, max_idx) ← scan b.levels b.levels 0 (0, none, none)
    elim n_runs [
      | zero ↦ some (record b { levels = some (e ∷ run) ∷ [] })
      | suc more ↦ elim more [
        | zero ↦ do idx ← only_idx; append_at idx (e ∷ run) b
        | suc _ ↦ elim max_idx [
          | none ↦ merge_sorted (e ∷ run) b
          | some mx ↦ append_at mx (e ∷ run) b
        ]
      ]
    ]
