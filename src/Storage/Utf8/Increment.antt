-- ===== src/Storage/Utf8/Increment.antt =====
-- The text that comes next.
use redbit.Prelude.{
  ℕ, zero, suc, ◌+◌, ◌-◌, ◌<◌, ◌≤◌, ◌≡◌, refl, ap, ◌∙◌, true, false, ltb, ltb→lt, lt→ltb,
  Bool-cases, none, some, List, [], ◌∷◌, ◌++◌, inl, inr, ◌⊎◌, arith,
}
use redbit.Storage.Utf8.{last_scalar, is_scalar, next_scalar, pop_char, increment_last_scalar}

pop_char-append : (s : List ℕ) (c : ℕ) → pop_char (s ++ c ∷ []) ≡ some (s, c)
unfolding pop_char
pop_char-append [] c = refl
pop_char-append (x ∷ s) c = rw (pop_char-append s c) refl

-- The least scalar value from a candidate on.
pub record IsNext (candidate d : ℕ) : Type 0 where
  pub scalar : is_scalar d ≡ true
  pub above : candidate ≤ d
  pub least : (i : ℕ) → candidate ≤ i → i < d → is_scalar i ≡ false

scalar_below : (d : ℕ) → is_scalar d ≡ true → d ≤ last_scalar
scalar_below d h = ground arith

not_above : (a b : ℕ) → b ≤ a → ltb a b ≡ false
not_above a b h = ground arith

next_scalar-finds :
    (fuel candidate d : ℕ)
    → IsNext candidate d
    → d < fuel + candidate
    → next_scalar fuel candidate ≡ some d
unfolding next_scalar
next_scalar-finds zero candidate d next h =
    (let le : candidate ≤ d = next.above in absurd (omega arith))
next_scalar-finds (suc fuel) candidate d next h =
    let le : candidate ≤ d = next.above in
    let top : d ≤ last_scalar = scalar_below d next.scalar in
    let low : ltb last_scalar candidate ≡ false = not_above last_scalar candidate (omega arith) in
    elim (Bool-cases (ltb candidate d)) [
      | inl under ↦
          let lt : candidate < d = ltb→lt candidate d under in
          let no : is_scalar candidate ≡ false = next.least candidate (omega arith) lt in
          let later : IsNext (suc candidate) d = record {
            scalar = next.scalar;
            above = omega arith;
            least = λ i h' h''. next.least i (omega arith) h'';
          } in
          rw (next_scalar, low, no) (next_scalar-finds fuel (suc candidate) d later (omega arith))
      | inr over ↦
          let same : candidate ≡ d = ground arith in
          let yes : is_scalar candidate ≡ true = ap is_scalar same ∙ next.scalar in
          rw (next_scalar, low, yes) (ap some same)
    ]

next_scalar-last :
    (fuel candidate : ℕ) → last_scalar < candidate → next_scalar fuel candidate ≡ none
unfolding next_scalar
next_scalar-last zero candidate h = refl
next_scalar-last (suc fuel) candidate h =
    let high : ltb last_scalar candidate ≡ true = lt→ltb last_scalar candidate h in
    rw (next_scalar, high) refl

-- Every scalar value but the last one has a next one: the surrogates are passed over.
IsNext-exists : (c : ℕ) → is_scalar c ≡ true → c < last_scalar → (d : ℕ) × IsNext (suc c) d
IsNext-exists c is below = elim (Bool-cases (is_scalar (suc c))) [
  | inl plain ↦ (
    suc c,
    record { scalar = plain; above = omega arith; least = λ i h h'. absurd (omega arith) },
  )
  | inr surrogate ↦
      let at : suc c ≡ 0xD800 = ground arith in
      (
        0xE000,
        record {
          scalar = refl;
          above = omega arith;
          least = λ i h h'. (let le : 0xD800 ≤ i = omega arith in ground arith);
        },
      )
]

-- The last character of a text is replaced by the next one that there is; the last one of all, which
-- has none, is replaced by U+0001.
pub increment_last_scalar_lem :
    (s : List ℕ) (c : ℕ)
    → is_scalar c ≡ true
    → ((d : ℕ) × IsNext (suc c) d × (increment_last_scalar (s ++ c ∷ []) ≡ s ++ d ∷ []))
      ⊎ ((c ≡ last_scalar) × (increment_last_scalar (s ++ c ∷ []) ≡ s ++ 1 ∷ []))
unfolding increment_last_scalar
increment_last_scalar_lem s c is =
    let up : c ≤ last_scalar = scalar_below c is in
    elim (Bool-cases (ltb c last_scalar)) [
      | inl under ↦
          let (d, next) = IsNext-exists c is (ltb→lt c last_scalar under) in
          let le : suc c ≤ d = next.above in
          let top : d ≤ last_scalar = scalar_below d next.scalar in
          let enough : d < (suc last_scalar - c) + suc c = omega arith in
          let found = next_scalar-finds (suc last_scalar - c) (suc c) d next enough in
          inl (d, next, rw (increment_last_scalar, pop_char-append s c, found) refl)
      | inr over ↦
          let same : c ≡ last_scalar = ground arith in
          let none_left = next_scalar-last (suc last_scalar - c) (suc c) (omega arith) in
          inr (same, rw (increment_last_scalar, pop_char-append s c, none_left) refl)
    ]
