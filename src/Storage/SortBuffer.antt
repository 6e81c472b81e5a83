-- ===== src/Storage/SortBuffer.antt =====
-- redbit/src/storage/sort_buffer.rs: the galloping searches and the merge of sorted runs. A run is a
-- list of entries, sorted by `K::compare` of the keys (`KeyOrder`). `none` is a panic, an index out
-- of range or `unwrap` of nothing, or fuel that ran out, which the code has not.
pub mod Bisect
pub mod Search
pub mod Stable
pub mod Merge
pub mod Levels
pub mod Carry
pub mod Insertions
pub mod Appends
pub mod Reduction
pub mod Heap
pub mod Reducing
pub mod Runs
pub mod Taking
pub mod History
pub mod Emptiness
mod Tests
use redbit.Prelude.{
  ℕ, zero, suc, ◌+◌, ◌-◌, ◌*◌, ◌/◌, ◌%◌, ◌^◌, min, Bool, true, false, not, Option, none, some, List,
  [], ◌∷◌, ◌++◌, ltb, ◌==◌, if◌then◌else◌, length, get_elem?,
}
use redbit.Prelude.Order.{KeyOrder, is_greater, is_less}

infixl 5 ◌>>=◌
abbrev pub ◌>>=◌ {ℓ κ} : {A : Type ℓ} {B : Type κ} → Option A → (A → Option B) → Option B
none >>= f = none
some a >>= f = f a

-- Where the binary search goes after the test at the middle.
abbrev pub halve : Bool → ℕ → ℕ → ℕ × ℕ
halve true lo hi = (lo + (hi - lo) / 2 + 1, hi)
halve false lo hi = (lo, lo + (hi - lo) / 2)

-- `while lo < hi`, over the test `passes` of the entry at an index. Every round makes `hi - lo`
-- smaller.
unfoldable pub bisect : ℕ → (ℕ → Option Bool) → ℕ → ℕ → Option ℕ
bisect zero passes lo hi = if ltb lo hi then none else some lo
bisect (suc fuel) passes lo hi = elim (ltb lo hi) [
  | false ↦ some lo
  | true ↦ do
    pass ← passes (lo + (hi - lo) / 2)
    let (lo', hi') = halve pass lo hi
    bisect fuel passes lo' hi'
]

-- `while last + ofs < n`, on `usize`. Every round makes `last` larger.
unfoldable pub leap : ℕ → (ℕ → Option Bool) → ℕ → ℕ → ℕ → Option (ℕ × ℕ)
leap zero passes n last ofs = if ltb ((last + ofs) % 2 ^ 64) n then none else some (last, ofs)
leap (suc fuel) passes n last ofs = elim (ltb ((last + ofs) % 2 ^ 64) n) [
  | false ↦ some (last, ofs)
  | true ↦ do
    pass ← passes ((last + ofs) % 2 ^ 64)
    elim pass [
      | false ↦ some (last, ofs)
      | true ↦ leap fuel passes n ((last + ofs) % 2 ^ 64) ((ofs * 2) % 2 ^ 64)
    ]
]

-- The body that both searches share: the first index below `n` whose entry does not pass.
unfoldable pub gallop : (ℕ → Option Bool) → ℕ → Option ℕ
unfolding bisect leap
gallop passes zero = some 0
gallop passes (suc n) = do
  first ← passes 0
  elim first [
    | false ↦ some 0
    | true ↦ do
      (last, ofs) ← leap (suc n) passes (suc n) 0 1
      bisect (suc n) passes (last + 1) (min ((last + ofs) % 2 ^ 64) (suc n))
  ]

module _ {ℓ} {K : Type ℓ} (order : KeyOrder K) where
  -- `K::compare(k, pivot)` is `Less`
  abbrev pub is_below : K → K → Bool
  is_below pivot k = is_less (order.cmp k pivot)

  -- `K::compare(k, pivot)` is not `Greater`
  abbrev pub is_up_to : K → K → Bool
  is_up_to pivot k = not (is_greater (order.cmp k pivot))

module _ {ℓ κ} {K : Type ℓ} {V : Type κ} where
  -- A test of the key at an index.
  abbrev pub test_at : (K → Bool) → List (K × V) → ℕ → Option Bool
  test_at test s i = do e ← get_elem? s i; some (test e.0)

  -- `for _ in 0..n { out.push(it.next().unwrap()) }`: what is taken and what is left
  abbrev pub advance : ℕ → List (K × V) → Option (List (K × V) × List (K × V))
  advance zero s = some ([], s)
  advance (suc n) [] = none
  advance (suc n) (e ∷ s) = do (taken, left) ← advance n s; some (e ∷ taken, left)

  -- The key of the last entry of `e ∷ s`.
  abbrev pub last_key : K × V → List (K × V) → K
  last_key e [] = e.0
  last_key e (e' ∷ s) = last_key e' s

module _ {ℓ κ} {K : Type ℓ} {V : Type κ} (order : KeyOrder K) where
  unfoldable pub gallop_right_slice : List (K × V) → ℕ → K → Option ℕ
  unfolding gallop
  gallop_right_slice s n pivot = gallop (test_at (is_below order pivot) s) n

  unfoldable pub gallop_left_slice : List (K × V) → ℕ → K → Option ℕ
  unfolding gallop
  gallop_left_slice s n pivot = gallop (test_at (is_up_to order pivot) s) n

  -- The loop over blocks of both runs, and what it leaves. Every full round takes an entry of the
  -- second run.
  unfoldable pub merge_blocks : ℕ → List (K × V) → List (K × V) → Option (List (K × V))
  unfolding gallop_left_slice gallop_right_slice
  merge_blocks fuel xs [] = some xs
  merge_blocks fuel [] (y ∷ ys) = some (y ∷ ys)
  merge_blocks zero (x ∷ xs) (y ∷ ys) = none
  merge_blocks (suc fuel) (x ∷ xs) (y ∷ ys) = do
    end_a ← gallop_left_slice (x ∷ xs) (length (x ∷ xs)) y.0
    (taken_a, left_a) ← advance end_a (x ∷ xs)
    elim left_a [
      | [] ↦ some (taken_a ++ y ∷ ys)
      | x' ∷ xs' ↦ do
        end_b ← gallop_right_slice (y ∷ ys) (length (y ∷ ys)) x'.0
        (taken_b, left_b) ← advance end_b (y ∷ ys)
        rest ← merge_blocks fuel (x' ∷ xs') left_b
        some (taken_a ++ taken_b ++ rest)
    ]

  unfoldable pub merge_sorted_by_key_gallop : List (K × V) → List (K × V) → Option (List (K × V))
  unfolding merge_blocks
  merge_sorted_by_key_gallop [] b = some b
  merge_sorted_by_key_gallop (x ∷ a) [] = some (x ∷ a)
  merge_sorted_by_key_gallop (x ∷ a) (y ∷ b) =
      if is_up_to order y.0 (last_key x a)
      then some (x ∷ a ++ y ∷ b)
      else if is_below order x.0 (last_key y b)
      then some (y ∷ b ++ x ∷ a)
      else merge_blocks (length (y ∷ b)) (x ∷ a) (y ∷ b)
