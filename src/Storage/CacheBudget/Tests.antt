-- ===== src/Storage/CacheBudget/Tests.antt =====
-- Three columns, one of them without a weight.
use redbit.Prelude.{ℕ, ◌≡◌, refl, Option, some, List, [], ◌∷◌, map, arith}
use redbit.Prelude.Sorting.{sort_by}
use redbit.Storage.CacheBudget.{
  DbDef, DbDefWithCache, sum_positive_weights, share, compute_shares_mb, give,
  distribute_remainder_mb, collect_allocations_mb, allocate_cache_mb,
}
use redbit.Storage.CacheBudget.Allocation.{Spends, allocate_cache_mb_lem}

abbrev column : ℕ → ℕ → ℕ → DbDef ℕ
column name shards w = record {
  name = name;
  shards = shards;
  db_cache_weight_or_zero = w;
  lru_cache_size_or_zero = 0;
}

abbrev columns : List (DbDef ℕ)
columns = column 1 2 10 ∷ column 2 1 5 ∷ column 3 4 0 ∷ []

allocate_cache_mb_lem_example :
    (out : List (DbDefWithCache ℕ)) × (allocate_cache_mb columns 10 ≡ some out) × Spends 10 out
allocate_cache_mb_lem_example =
    allocate_cache_mb_lem columns 10 (omega arith) (omega arith) (omega arith) (omega arith)
      (omega arith) (omega arith)

-- 10 * 10 / 15 is 6, with the larger remainder; 10 * 5 / 15 is 3.
abbrev budgets : List (DbDefWithCache ℕ) → List ℕ
budgets = map (λ o. o.db_cache_in_mb)

abbrev budgets_of : Option (List (DbDefWithCache ℕ)) → Option (List ℕ)
budgets_of out = elim out [ Option.none ↦ Option.none | some o ↦ some (budgets o) ]

first_gets_remainder : budgets_of (allocate_cache_mb columns 10) ≡ some (3 ∷ 3 ∷ 0 ∷ [])
unfolding allocate_cache_mb sum_positive_weights share compute_shares_mb give
    distribute_remainder_mb collect_allocations_mb sort_by
first_gets_remainder = refl
