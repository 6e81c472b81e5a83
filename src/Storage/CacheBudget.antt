-- ===== src/Storage/CacheBudget.antt =====
-- redbit/src/storage/cache.rs: `allocate_cache_mb`, and `DbDef` and `DbDefWithCache` of init.rs beside
-- it. Sums of u64 wrap, as in a release build. `none` is a panic.
pub mod Shares
pub mod Remainder
pub mod Allocation
mod Tests
use redbit.Prelude.{
  ℕ, zero, suc, ◌+◌, ◌-◌, ◌*◌, ◌/◌, ◌%◌, ◌^◌, Bool, true, false, ◌||◌, ◌≡◌, refl, ap, Option, none,
  some, List, [], ◌∷◌, map, min, compare, Ordering, get_elem?, total, saturating_add,
  saturating_mul, if◌then◌else◌, ltb, ◌==◌, arith,
}
use redbit.Prelude.Order.{KeyOrder, nat_order, is_greater, flip_ordering}
use redbit.Prelude.Sorting.{sort_by}
use redbit.Storage.PlainTable.{◌>>=◌}

abbrev pub u64_mod : ℕ
u64_mod = 2 ^ 64

pub record DbDef (Name : Type 0) : Type 0 where
  pub name : Name
  pub shards : ℕ
  pub db_cache_weight_or_zero : ℕ
  pub lru_cache_size_or_zero : ℕ

pub record DbDefWithCache (Name : Type 0) : Type 0 where
  pub name : Name
  pub shards : ℕ
  pub db_cache_weight : ℕ
  pub db_cache_in_mb : ℕ
  pub lru_cache : ℕ

pub record Share : Type 0 where
  pub idx : ℕ
  pub base_mb : ℕ
  pub rem_num : ℕ

-- The remainder descending, then the index ascending.
abbrev pub compare_ties : ℕ × ℕ → ℕ × ℕ → Ordering
compare_ties a b = elim (compare b.0 a.0) [
  | Ordering.lt ↦ Ordering.lt
  | Ordering.eq ↦ compare a.1 b.1
  | Ordering.gt ↦ Ordering.gt
]

pub compare_ties_flip : (a b : ℕ × ℕ) → compare_ties b a ≡ flip_ordering (compare_ties a b)
compare_ties_flip a b = ground arith

pub compare_ties-le_trans :
    (a b c : ℕ × ℕ)
    → is_greater (compare_ties a b) ≡ false
    → is_greater (compare_ties b c) ≡ false
    → is_greater (compare_ties a c) ≡ false
compare_ties-le_trans a b c p q = ground arith

abbrev pub ties_order : KeyOrder (ℕ × ℕ)
ties_order = record {
  cmp = compare_ties;
  cmp_flip = compare_ties_flip;
  le_trans = compare_ties-le_trans;
}

abbrev pub tie_key : Share → ℕ × ℕ
tie_key s = (s.rem_num, s.idx)

abbrev pub idx_key : Share → ℕ
idx_key s = s.idx

abbrev pub more : Share → Share
more s = record s { base_mb = saturating_add (u64_mod - 1) s.base_mb 1 }

module _ {Name : Type 0} where
  abbrev pub weight : DbDef Name → ℕ
  weight d = d.db_cache_weight_or_zero

  -- `DbDefWithCache::new`
  unfoldable pub new : DbDef Name → ℕ → DbDefWithCache Name
  new d mb = record {
    name = d.name;
    shards = d.shards;
    db_cache_weight = weight d;
    db_cache_in_mb = mb;
    lru_cache = d.lru_cache_size_or_zero;
  }

  abbrev pub positive_weights : List (DbDef Name) → List ℕ
  positive_weights [] = []
  positive_weights (d ∷ defs) =
      let rest = positive_weights defs in if ltb 0 (weight d) then weight d ∷ rest else rest

  unfoldable pub sum_positive_weights : List (DbDef Name) → ℕ
  sum_positive_weights defs = total (λ w. w) (positive_weights defs) % u64_mod

  unfoldable pub share : ℕ → ℕ → ℕ → DbDef Name → Share
  share total_mb sum_w idx d =
      if weight d == 0
      then record { idx = idx; base_mb = 0; rem_num = 0 }
      else let prod = saturating_mul (u64_mod - 1) total_mb (weight d) in
        record { idx = idx; base_mb = prod / sum_w; rem_num = prod % sum_w }

  unfoldable pub compute_shares_mb : ℕ → ℕ → ℕ → List (DbDef Name) → List Share
  compute_shares_mb total_mb sum_w idx [] = []
  compute_shares_mb total_mb sum_w idx (d ∷ defs) =
      share total_mb sum_w idx d ∷ compute_shares_mb total_mb sum_w (suc idx) defs

  -- The loop of `distribute_remainder_mb`.
  unfoldable pub give : List (DbDef Name) → ℕ → List Share → Option (List Share)
  give defs zero shares = some shares
  give defs (suc remainder) [] = some []
  give defs (suc remainder) (s ∷ shares) = elim (get_elem? defs s.idx) [
    | none ↦ none
    | some d ↦ elim (ltb 0 (weight d)) [
      | true ↦ do rest ← give defs remainder shares; some (more s ∷ rest)
      | false ↦ do rest ← give defs (suc remainder) shares; some (s ∷ rest)
    ]
  ]

  unfoldable pub distribute_remainder_mb : List (DbDef Name) → ℕ → List Share → Option (List Share)
  distribute_remainder_mb defs remainder shares = do
    given ← give defs remainder (sort_by tie_key ties_order shares)
    some (sort_by idx_key nat_order given)

  unfoldable pub collect_allocations_mb :
      List (DbDef Name) → List Share → Option (List (DbDefWithCache Name))
  unfolding new
  collect_allocations_mb defs [] = some []
  collect_allocations_mb defs (s ∷ shares) = elim (get_elem? defs s.idx) [
    | none ↦ none
    | some d ↦ if d.shards == 0 then none else do
      rest ← collect_allocations_mb defs shares
      some (new d (if d.shards == 1 then s.base_mb else s.base_mb / d.shards) ∷ rest)
  ]

  abbrev pub is_nil : List (DbDef Name) → Bool
  is_nil [] = true
  is_nil (_ ∷ _) = false

  unfoldable pub allocate_cache_mb : List (DbDef Name) → ℕ → Option (List (DbDefWithCache Name))
  unfolding new
  allocate_cache_mb defs total_mb =
      if is_nil defs || total_mb == 0
      then some (map (λ d. new d 0) defs)
      else let sum_w = sum_positive_weights defs in
        if sum_w == 0 then some (map (λ d. new d 0) defs) else do
          let shares = compute_shares_mb total_mb sum_w 0 defs
          let remainder = total_mb - total (λ s. s.base_mb) shares % u64_mod
          final ←
              if ltb 0 remainder then distribute_remainder_mb defs remainder shares else some shares
          collect_allocations_mb defs final
