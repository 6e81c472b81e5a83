-- ===== src/Storage/CacheBudget/Shares.antt =====
-- The shares before the remainder is given out.
use native.Mathlib.Nat.{div-add-mod', mod-lt}
use redbit.Prelude.{
  ℕ, suc, ◌+◌, ◌-◌, ◌*◌, ◌/◌, ◌%◌, ◌≤◌, ◌<◌, ◌≡◌, refl, sym, ap, subst, ◌∙◌, Bool, true, false,
  none, some, List, [], ◌∷◌, get_elem?, total, saturating_mul, if◌then◌else◌, ltb, ◌==◌, Bool-cases,
  inl, inr, arith,
}
use redbit.Prelude.Collect.{All}
use redbit.Storage.CacheBudget.{u64_mod, DbDef, Share, weight, share, compute_shares_mb}

-- A share that belongs to a column; its budget may have grown by one.
pub record BelongsTo {Name : Type 0} (defs : List (DbDef Name)) (s : Share) : Type 0 where
  pub column : DbDef Name
  pub found : get_elem? defs s.idx ≡ some column
  pub weightless : weight column ≡ 0 → s.base_mb ≡ 0

base_le : (n m : ℕ) {k : ℕ} → 0 < m → n < k → n / m < k
base_le n m pos h = grind (arith, div-add-mod' n m)

module _ {Name : Type 0} where
  -- One for a share whose column has a weight.
  unfoldable pub counts : List (DbDef Name) → Share → ℕ
  counts defs s = elim (get_elem? defs s.idx) [
    | none ↦ 0
    | some d ↦ elim (ltb 0 (weight d)) [ true ↦ 1 | false ↦ 0 ]
  ]

  abbrev pub NoOverflow : ℕ → DbDef Name → Type 0
  NoOverflow total_mb d = total_mb * weight d < u64_mod - 1

  -- The share of a column: its quota, rounded down, with the remainder of the division.
  pub record IsShare (defs : List (DbDef Name)) (total_mb sum_w : ℕ) (d : DbDef Name) (s : Share)
      : Type 0 where
    pub quota : s.base_mb * sum_w + s.rem_num ≡ total_mb * weight d
    pub small : s.rem_num + counts defs s ≤ sum_w * counts defs s
    pub belongs : BelongsTo defs s
    pub roomy : s.base_mb < u64_mod - 1
    pub counted : counts defs s ≡ (if ltb 0 (weight d) then 1 else 0)

  share_zero :
      (total_mb sum_w idx : ℕ) (d : DbDef Name)
      → weight d ≡ 0
      → share total_mb sum_w idx d ≡ record { idx = idx; base_mb = 0; rem_num = 0 }
  unfolding share
  share_zero total_mb sum_w idx d e = ground arith

  share_pos :
      (total_mb sum_w idx : ℕ) (d : DbDef Name)
      → 0 < weight d
      → NoOverflow total_mb d
      → share total_mb sum_w idx d ≡ record {
        idx = idx;
        base_mb = total_mb * weight d / sum_w;
        rem_num = total_mb * weight d % sum_w;
      }
  unfolding share
  share_pos total_mb sum_w idx d pos small =
      let fits : saturating_mul (u64_mod - 1) total_mb (weight d) ≡ total_mb * weight d =
        omega arith in
      let test : (weight d == 0) ≡ false = ground arith in rw (test, fits)

  pub counts-some :
      (defs : List (DbDef Name)) (s : Share) (d : DbDef Name)
      → get_elem? defs s.idx ≡ some d
      → counts defs s ≡ (if ltb 0 (weight d) then 1 else 0)
  unfolding counts
  counts-some defs s d found = rw (counts, found) (by_test (ltb 0 (weight d)))
    where
      by_test : (b : Bool) → ◌≡◌ {A = ℕ} (elim b [ true ↦ 1 | false ↦ 0 ]) (if b then 1 else 0)
      by_test true = refl
      by_test false = refl

  share_lem :
      (defs : List (DbDef Name)) (total_mb sum_w idx : ℕ) (d : DbDef Name)
      → 0 < sum_w
      → NoOverflow total_mb d
      → get_elem? defs idx ≡ some d
      → IsShare defs total_mb sum_w d (share total_mb sum_w idx d)
  share_lem defs total_mb sum_w idx d pos small found = elim (Bool-cases (ltb 0 (weight d))) [
    | inl some_w ↦
        let w : 0 < weight d = ground arith in
        let s : Share = record {
          idx = idx;
          base_mb = total_mb * weight d / sum_w;
          rem_num = total_mb * weight d % sum_w;
        } in
        let one : counts defs s ≡ 1 = counts-some defs s d found ∙ rw some_w in
        let below = mod-lt (total_mb * weight d) pos in
        subst (IsShare defs total_mb sum_w d) (sym (share_pos total_mb sum_w idx d w small))
          (record {
            quota = div-add-mod' (total_mb * weight d) sum_w;
            small = omega (arith, ap (λ k. sum_w * k) one);
            belongs = record { column = d; found = found; weightless = λ e. absurd (omega arith) };
            roomy = base_le (total_mb * weight d) sum_w pos small;
            counted = counts-some defs s d found;
          })
    | inr none_w ↦
        let w : weight d ≡ 0 = ground arith in
        let s : Share = record { idx = idx; base_mb = 0; rem_num = 0 } in
        let zero_count : counts defs s ≡ 0 = counts-some defs s d found ∙ rw none_w in
        subst (IsShare defs total_mb sum_w d) (sym (share_zero total_mb sum_w idx d w)) (record {
          quota = omega (arith, ap (λ k. total_mb * k) w);
          small = omega (arith, zero_count);
          belongs = record { column = d; found = found; weightless = λ e. refl };
          roomy = omega arith;
          counted = counts-some defs s d found;
        })
  ]

  -- The shares of a part of the columns.
  pub record AreShares (defs : List (DbDef Name)) (total_mb sum_w : ℕ) (part : List (DbDef Name))
      (shares : List Share) : Type 0 where
    pub quota :
        total (λ s. s.base_mb) shares * sum_w + total (λ s. s.rem_num) shares
        ≡ total_mb * total weight part
    pub small :
        total (λ s. s.rem_num) shares + total (counts defs) shares
        ≤ sum_w * total (counts defs) shares
    pub belong : All (BelongsTo defs) shares
    pub roomy : All (λ s. s.base_mb < u64_mod - 1) shares

  AreShares-cons :
      {defs : List (DbDef Name)} {total_mb sum_w : ℕ} {d : DbDef Name} {part : List (DbDef Name)}
      {s : Share} {shares : List Share}
      → IsShare defs total_mb sum_w d s
      → AreShares defs total_mb sum_w part shares
      → AreShares defs total_mb sum_w (d ∷ part) (s ∷ shares)
  AreShares-cons {defs} {total_mb} {sum_w} {d} {part} {s} {shares} is are =
      let q = is.quota in
      let q' = are.quota in
      let r = is.small in
      let r' = are.small in
      record {
        quota = grind arith;
        small = grind arith;
        belong = (is.belongs, are.belong);
        roomy = (is.roomy, are.roomy);
      }

  pub compute_shares_mb_lem :
      (defs : List (DbDef Name)) (total_mb sum_w idx : ℕ) (part : List (DbDef Name))
      → 0 < sum_w
      → All (NoOverflow total_mb) part
      → ((j : ℕ) → get_elem? defs (idx + j) ≡ get_elem? part j)
      → AreShares defs total_mb sum_w part (compute_shares_mb total_mb sum_w idx part)
  unfolding compute_shares_mb
  compute_shares_mb_lem defs total_mb sum_w idx [] pos small at = record {
    quota = omega arith;
    small = omega arith;
    belong = tt;
    roomy = tt;
  }
  compute_shares_mb_lem defs total_mb sum_w idx (d ∷ part) pos small at =
      let zeroth : idx + 0 ≡ idx = omega arith in
      let shift : (j : ℕ) → suc idx + j ≡ idx + suc j = λ j. omega arith in
      AreShares-cons
        (share_lem defs total_mb sum_w idx d pos small.0 (ap (get_elem? defs) (sym zeroth) ∙ at 0))
        (compute_shares_mb_lem defs total_mb sum_w (suc idx) part pos small.1
          (λ j. ap (get_elem? defs) (shift j) ∙ at (suc j)))
