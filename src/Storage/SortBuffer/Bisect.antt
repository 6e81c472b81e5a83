-- ===== src/Storage/SortBuffer/Bisect.antt =====
-- The galloping search returns the boundary of its test.
use redbit.Prelude.{
  ℕ, zero, suc, ◌+◌, ◌-◌, ◌*◌, ◌/◌, ◌%◌, ◌^◌, ◌≤◌, ◌<◌, min, ◌≡◌, refl, ap, ◌∙◌, Bool, true, false,
  Option, some, ltb, arith, Bool-cases, inl, inr, ◌⊎◌,
}
use native.Mathlib.Nat.{mod-eq_of_lt}
use redbit.Storage.SortBuffer.{bisect, leap, gallop}

-- The test has an answer at every index below `n`.
abbrev pub Answers : (ℕ → Option Bool) → ℕ → Type 0
Answers passes n = (i : ℕ) → i < n → (b : Bool) × (passes i ≡ some b)

-- Below an index that passes, every index passes.
abbrev pub IsPrefix : (ℕ → Option Bool) → Type 0
IsPrefix passes = (i j : ℕ) → i ≤ j → passes j ≡ some true → passes i ≡ some true

-- `r` is the first index below `n` that does not pass, or `n`.
abbrev pub IsBoundary : (ℕ → Option Bool) → ℕ → ℕ → Type 0
IsBoundary passes n r =
    (r ≤ n) × ((i : ℕ) → i < r → passes i ≡ some true) × (r < n → passes r ≡ some false)

answer_cases :
    {passes : ℕ → Option Bool} {n : ℕ}
    → Answers passes n
    → (i : ℕ) → i < n
    → (passes i ≡ some true) ⊎ (passes i ≡ some false)
answer_cases answers i h =
    let (b, e) = answers i h in
    elim (Bool-cases b) [ inl t ↦ inl (e ∙ ap some t) | inr f ↦ inr (e ∙ ap some f) ]

module _ (passes : ℕ → Option Bool) (n : ℕ) (answers : Answers passes n)
    (prefix : IsPrefix passes) where
  -- The binary search between an end below which all pass and one that does not pass.
  bisect-IsBoundary :
      (fuel lo hi : ℕ)
      → hi ≤ lo + fuel
      → lo ≤ hi
      → hi ≤ n
      → ((i : ℕ) → i < lo → passes i ≡ some true)
      → (hi < n → passes hi ≡ some false)
      → (r : ℕ) × (bisect fuel passes lo hi ≡ some r) × IsBoundary passes n r
  unfolding bisect
  bisect-IsBoundary zero lo hi enough le le' low high =
      let e : lo ≡ hi = omega arith in
      (lo, ground arith, (omega arith, low, λ h. ap passes e ∙ high (omega arith)))
  bisect-IsBoundary (suc fuel) lo hi enough le le' low high = elim (Bool-cases (ltb lo hi)) [
    | inl more ↦
        let below : lo + (hi - lo) / 2 < hi = ground arith in
        elim (answer_cases answers (lo + (hi - lo) / 2) (omega arith)) [
          | inl e ↦
              rw (bisect, more, e)
                (bisect-IsBoundary fuel (lo + (hi - lo) / 2 + 1) hi (omega arith) (omega arith) le'
                  (λ i h. prefix i (lo + (hi - lo) / 2) (omega arith) e) high)
          | inr e ↦
              rw (bisect, more, e)
                (bisect-IsBoundary fuel lo (lo + (hi - lo) / 2) (omega arith) (omega arith)
                  (omega arith) low (λ h. e))
        ]
    | inr done ↦
        let e : lo ≡ hi = ground arith in
        rw (bisect, done) (lo, refl, (omega arith, low, λ h. ap passes e ∙ high (omega arith)))
  ]

  -- The leaps end at an index that passes, with the next leap out of range or at one that does not.
  abbrev Leaps : ℕ → ℕ → Type 0
  Leaps last ofs =
      (last < n)
      × (0 < ofs)
      × (last + ofs < 2 ^ 64)
      × (passes last ≡ some true)
      × (last + ofs < n → passes (last + ofs) ≡ some false)

  leap_lem :
      (fuel last ofs : ℕ)
      → n < 2 ^ 63
      → n ≤ last + fuel
      → last < n
      → 0 < ofs
      → ofs ≤ last + 1
      → passes last ≡ some true
      → (last' ofs' : ℕ) × (leap fuel passes n last ofs ≡ some (last', ofs')) × Leaps last' ofs'
  unfolding leap
  leap_lem zero last ofs small enough le pos short e = absurd (omega arith)
  leap_lem (suc fuel) last ofs small enough le pos short e =
      let fits : last + ofs < 2 ^ 64 = omega arith in
      let index : (last + ofs) % 2 ^ 64 ≡ last + ofs = mod-eq_of_lt fits in
      elim (Bool-cases (ltb (last + ofs) n)) [
        | inl more ↦ elim (answer_cases answers (last + ofs) (ground arith)) [
          | inl e' ↦
              let doubled : (ofs * 2) % 2 ^ 64 ≡ ofs * 2 = mod-eq_of_lt (omega arith) in
              rw (leap, index, more, index, e', index, doubled)
                (leap_lem fuel (last + ofs) (ofs * 2) small (omega arith) (ground arith)
                  (omega arith) (omega arith) e')
          | inr e' ↦
              rw (leap, index, more, index, e') (last, ofs, refl, (le, pos, fits, e, λ h. e'))
        ]
        | inr done ↦ rw (leap, index, done) (last, ofs, refl, (le, pos, fits, e, λ h. ground arith))
      ]

-- The search ends, within the fuel that it takes, at the boundary of the test.
pub gallop-IsBoundary :
    (passes : ℕ → Option Bool) (n : ℕ)
    → Answers passes n
    → IsPrefix passes
    → n < 2 ^ 63
    → (r : ℕ) × (gallop passes n ≡ some r) × IsBoundary passes n r
unfolding gallop
gallop-IsBoundary passes zero answers prefix small =
    (0, refl, (omega arith, λ i h. absurd (omega (arith, h)), λ h. absurd (omega (arith, h))))
gallop-IsBoundary passes (suc n) answers prefix small =
    elim (answer_cases answers 0 (omega arith)) [
      | inl e ↦
          let (last, ofs, leapt, (lt, pos, fits, e', stop)) =
            leap_lem passes (suc n) answers prefix (suc n) 0 1 small (omega arith) (omega arith)
              (omega arith) (omega arith) e in
          rw (gallop, e, leapt, mod-eq_of_lt fits)
            (bisect-IsBoundary passes (suc n) answers prefix (suc n) (last + 1)
              (min (last + ofs) (suc n)) (omega arith) (omega arith) (omega arith)
              (λ i h. prefix i last (omega arith) e')
              (λ h. ap passes (omega arith) ∙ stop (omega arith)))
      | inr e ↦ rw (gallop, e) (0, refl, (omega arith, λ i h. absurd (omega (arith, h)), λ h. e))
    ]
