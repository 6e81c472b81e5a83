-- ===== src/Storage/CacheBudget/Remainder.antt =====
-- What is left of the budget is given out, one each.
use redbit.Prelude.{
  ℕ, zero, suc, ◌+◌, ◌-◌, ◌≤◌, ◌<◌, ◌≡◌, refl, ◌∙◌, Option, some, List, [], ◌∷◌, total, ltb,
  Bool-cases, inl, inr, arith,
}
use redbit.Prelude.Collect.{All}
use redbit.Prelude.Order.{nat_order}
use redbit.Prelude.Sorting.{sort_by, total-sort_by, All-sort_by}
use redbit.Storage.CacheBudget.{
  u64_mod, DbDef, Share, weight, more, give, tie_key, idx_key, ties_order, distribute_remainder_mb,
}
use redbit.Storage.CacheBudget.Shares.{BelongsTo, counts, counts-some}

abbrev mb : Share → ℕ
mb s = s.base_mb

module _ {Name : Type 0} (defs : List (DbDef Name)) where
  -- What comes of giving: nothing is lost.
  pub record Gives (remainder : ℕ) (shares : List Share) (given : Option (List Share))
      : Type 0 where
    pub out : List Share
    pub done : given ≡ some out
    pub adds : total (λ s. s.base_mb) out ≡ total (λ s. s.base_mb) shares + remainder
    pub belong : All (BelongsTo defs) out

  give_lem :
      (remainder : ℕ) (shares : List Share)
      → All (BelongsTo defs) shares
      → All (λ s. s.base_mb < u64_mod - 1) shares
      → remainder ≤ total (counts defs) shares
      → Gives remainder shares (give defs remainder shares)
  unfolding give
  give_lem zero shares belong roomy few = record {
    out = shares;
    done = refl;
    adds = omega arith;
    belong = belong;
  }
  give_lem (suc remainder) [] belong roomy few = absurd (omega arith)
  give_lem (suc remainder) (s ∷ shares) belong roomy few =
      let d = belong.0.column in
      let found = belong.0.found in
      elim (Bool-cases (ltb 0 (weight d))) [
        | inl some_w ↦
            let one : counts defs s ≡ 1 = counts-some defs s d found ∙ rw some_w in
            let g = give_lem remainder shares belong.1 roomy.1 (omega arith) in
            record {
              out = more s ∷ g.out;
              done = rw (give, found, some_w, g.done) refl;
              adds = let a = g.adds in let r = roomy.0 in omega arith;
              belong = (
                record { column = d; found = found; weightless = λ e. absurd (ground arith) },
                g.belong,
              );
            }
        | inr none_w ↦
            let zero_count : counts defs s ≡ 0 = counts-some defs s d found ∙ rw none_w in
            let g = give_lem (suc remainder) shares belong.1 roomy.1 (omega arith) in
            record {
              out = s ∷ g.out;
              done = rw (give, found, none_w, g.done) refl;
              adds = let a = g.adds in omega arith;
              belong = (belong.0, g.belong);
            }
      ]

  pub distribute_remainder_mb_lem :
      (remainder : ℕ) (shares : List Share)
      → All (BelongsTo defs) shares
      → All (λ s. s.base_mb < u64_mod - 1) shares
      → remainder ≤ total (counts defs) shares
      → Gives remainder shares (distribute_remainder_mb defs remainder shares)
  unfolding distribute_remainder_mb
  distribute_remainder_mb_lem remainder shares belong roomy few =
      let sorted = sort_by tie_key ties_order shares in
      let g =
        give_lem remainder sorted (All-sort_by tie_key ties_order (BelongsTo defs) shares belong)
          (All-sort_by tie_key ties_order (λ s. s.base_mb < u64_mod - 1) shares roomy)
          (omega (arith, total-sort_by tie_key ties_order (counts defs) shares)) in
      let a = g.adds in
      record {
        out = sort_by idx_key nat_order g.out;
        done = rw (g.done) refl;
        adds = omega (
          arith,
          total-sort_by idx_key nat_order mb g.out,
          total-sort_by tie_key ties_order mb shares,
        );
        belong = All-sort_by idx_key nat_order (BelongsTo defs) g.out g.belong;
      }
