-- ===== src/Storage/CacheBudget/Allocation.antt =====
-- The budget of the shards, together.
use native.Mathlib.Nat.{div-add-mod', mod-lt, zero-div, zero-add}
use redbit.Prelude.{
  ℕ, zero, suc, ◌+◌, ◌-◌, ◌*◌, ◌/◌, ◌%◌, ◌≤◌, ◌<◌, ◌≡◌, refl, ap, subst, true, false, some, List,
  [], ◌∷◌, get_elem?, total, if◌then◌else◌, ltb, ◌==◌, Bool-cases, dec_lt, inl, inr, arith,
}
use redbit.Prelude.Collect.{All, get_elem?-All}
use redbit.Storage.CacheBudget.{
  u64_mod, DbDef, DbDefWithCache, Share, weight, new, positive_weights, sum_positive_weights,
  compute_shares_mb, distribute_remainder_mb, collect_allocations_mb, allocate_cache_mb,
}
use redbit.Storage.CacheBudget.Shares.{
  BelongsTo, NoOverflow, counts, AreShares, compute_shares_mb_lem,
}
use redbit.Storage.CacheBudget.Remainder.{Gives, distribute_remainder_mb_lem}

per_shard :
    (n base : ℕ)
    → 0 < n
    → (n * (if n == 1 then base else base / n) ≤ base)
      × (base ≤ n * (if n == 1 then base else base / n) + (n - 1))
per_shard n base pos = elim (Bool-cases (n == 1)) [
  | inl one ↦
      let e : n ≡ 1 = ground arith in
      rw one (omega (arith, ap (λ k. k * base) e), omega (arith, ap (λ k. k * base) e))
  | inr other ↦
      let d = div-add-mod' base n in let m = mod-lt base pos in rw other (omega arith, omega arith)
]

per_shard_zero : (n base : ℕ) → base ≡ 0 → (if n == 1 then base else base / n) ≡ 0
per_shard_zero n base e =
    rw e (elim (Bool-cases (n == 1)) [ inl one ↦ rw one | inr other ↦ rw other (zero-div n) ])

module _ {Name : Type 0} where
  -- The megabytes of all shards of a column.
  abbrev pub column_mb : DbDefWithCache Name → ℕ
  column_mb o = o.shards * o.db_cache_in_mb

  -- The budget is not exceeded, a column leaves less than a megabyte for each shard, and one with no
  -- weight gets none.
  pub record Spends (budget : ℕ) (out : List (DbDefWithCache Name)) : Type 0 where
    pub within : total column_mb out ≤ budget
    pub spent : budget ≤ total (λ o. column_mb o + (o.shards - 1)) out
    pub weightless : All (λ o. o.db_cache_weight ≡ 0 → o.db_cache_in_mb ≡ 0) out

  collect_allocations_mb_lem :
      (defs : List (DbDef Name)) (shares : List Share)
      → ((i : ℕ) (d : DbDef Name) → get_elem? defs i ≡ some d → 0 < d.shards)
      → All (BelongsTo defs) shares
      → (out : List (DbDefWithCache Name)) × (collect_allocations_mb defs shares ≡ some out)
        × Spends (total (λ s. s.base_mb) shares) out
  unfolding collect_allocations_mb
  collect_allocations_mb_lem defs [] sharded belong =
      ([], refl, record { within = omega arith; spent = omega arith; weightless = tt })
  collect_allocations_mb_lem defs (s ∷ shares) sharded belong =
      let d = belong.0.column in
      let found = belong.0.found in
      let pos = sharded s.idx d found in
      let test : (d.shards == 0) ≡ false = ground arith in
      let (out, done, rest) = collect_allocations_mb_lem defs shares sharded belong.1 in
      let (low, high) = per_shard d.shards s.base_mb pos in
      let w = rest.within in
      let h = rest.spent in
      (
        new d (if d.shards == 1 then s.base_mb else s.base_mb / d.shards) ∷ out,
        rw (collect_allocations_mb, found, test, done) refl,
        record {
          within = omega arith;
          spent = omega arith;
          weightless =
              (λ e. per_shard_zero d.shards s.base_mb (belong.0.weightless e), rest.weightless);
        },
      )

  positive_weights-total :
      (defs : List (DbDef Name)) → total (λ w. w) (positive_weights defs) ≡ total weight defs
  positive_weights-total [] = refl
  positive_weights-total (d ∷ defs) = elim (Bool-cases (ltb 0 (weight d))) [
    | inl some_w ↦ rw some_w (omega (arith, positive_weights-total defs))
    | inr none_w ↦
        let e : weight d ≡ 0 = ground arith in
        rw none_w (omega (arith, positive_weights-total defs))
  ]

-- What is left after rounding down is at most one for each column with a weight.
few_left : (left sum_w count : ℕ) → 0 < sum_w → left * sum_w + count ≤ sum_w * count → left ≤ count
few_left left sum_w count pos h = elim (dec_lt count left) [
  | yes more ↦ let grown : suc count * sum_w ≤ left * sum_w = grind arith in absurd (grind arith)
  | no less ↦ omega arith
]

remainder-le :
    (budget base sum_w rest count : ℕ)
    → 0 < sum_w
    → base * sum_w + rest ≡ budget * sum_w
    → rest + count ≤ sum_w * count
    → (base ≤ budget) × (budget - base ≤ count)
remainder-le budget base sum_w rest count pos quota small =
    let le : base ≤ budget = grind arith in
    let split : budget ≡ base + (budget - base) = omega arith in
    let same : budget * sum_w ≡ (base + (budget - base)) * sum_w = ap (λ t. t * sum_w) split in
    let left : (budget - base) * sum_w ≡ rest = grind arith in
    (le, few_left (budget - base) sum_w count pos (omega arith))

module _ {Name : Type 0} where
  sum_positive_weights-total :
      (defs : List (DbDef Name))
      → total weight defs < u64_mod
      → sum_positive_weights defs ≡ total weight defs
  unfolding sum_positive_weights
  sum_positive_weights-total defs small = omega (arith, positive_weights-total defs)

  settle :
      (defs : List (DbDef Name)) (remainder : ℕ) (shares : List Share)
      → All (BelongsTo defs) shares
      → All (λ s. s.base_mb < u64_mod - 1) shares
      → remainder ≤ total (counts defs) shares
      → Gives defs remainder shares
          (if ltb 0 remainder then distribute_remainder_mb defs remainder shares else some shares)
  settle defs zero shares belong roomy few = record {
    out = shares;
    done = refl;
    adds = omega arith;
    belong = belong;
  }
  settle defs (suc remainder) shares belong roomy few =
      let some_left : ltb 0 (suc remainder) ≡ true = ground arith in
      rw some_left (distribute_remainder_mb_lem defs (suc remainder) shares belong roomy few)

  -- With a budget of megabytes, weights that are not all zero, at least one shard for each column and
  -- no product that overflows, the budget is allotted without a panic: all shards together never get
  -- more than it, what they get less is under a megabyte for each shard, and a column
  -- of weight zero gets nothing.
  pub allocate_cache_mb_lem :
      (defs : List (DbDef Name)) (total_mb : ℕ)
      → 0 < total_mb
      → total_mb < u64_mod
      → 0 < total weight defs
      → total weight defs < u64_mod
      → All (NoOverflow total_mb) defs
      → All (λ d. 0 < d.shards) defs
      → (out : List (DbDefWithCache Name)) × (allocate_cache_mb defs total_mb ≡ some out)
        × Spends total_mb out
  unfolding allocate_cache_mb
  allocate_cache_mb_lem [] total_mb some_mb fits some_w small products sharded =
      absurd (omega arith)
  allocate_cache_mb_lem (d ∷ defs) total_mb some_mb fits some_w small products sharded =
      let sum_w = total weight (d ∷ defs) in
      let e : sum_positive_weights (d ∷ defs) ≡ sum_w =
        sum_positive_weights-total (d ∷ defs) small in
      let shares = compute_shares_mb total_mb sum_w 0 (d ∷ defs) in
      let are : AreShares (d ∷ defs) total_mb sum_w (d ∷ defs) shares =
        compute_shares_mb_lem (d ∷ defs) total_mb sum_w 0 (d ∷ defs) some_w products
          (λ j. ap (get_elem? (d ∷ defs)) (zero-add j)) in
      let base = total (λ s. s.base_mb) shares in
      let (le, few) =
        remainder-le total_mb base sum_w (total (λ s. s.rem_num) shares)
          (total (counts (d ∷ defs)) shares) some_w are.quota are.small in
      let g = settle (d ∷ defs) (total_mb - base) shares are.belong are.roomy few in
      let adds : total (λ s. s.base_mb) g.out ≡ total_mb = let a = g.adds in omega arith in
      let (out, done, spends) =
        collect_allocations_mb_lem (d ∷ defs) g.out
          (λ i x h. get_elem?-All (λ (z : DbDef Name). 0 < z.shards) (d ∷ defs) i sharded h)
          g.belong in
      let some_budget : (total_mb == 0) ≡ false = ground arith in
      let some_sum : (sum_w == 0) ≡ false = ground arith in
      let kept : base % u64_mod ≡ base = omega arith in
      (out, rw (some_budget, e, some_sum, kept, g.done) done, subst (λ n. Spends n out) adds spends)
