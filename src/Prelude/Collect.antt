-- ===== src/Prelude/Collect.antt =====
-- A loop over the positions of a list whose body may panic, as `enumerate`, `map` and `collect` make
-- it.
use redbit.Prelude.Lists.{get_elem?, length}
use Prim.Native.Nat.{ℕ, zero, suc, ◌+◌}
use mathlib.Core.Path.{◌≡◌, refl, ap, subst}
use mathlib.Core.Option.{Option, none, some}
use mathlib.Core.Option
use mathlib.Core.List.{List, [], ◌∷◌, ◌++◌}
use native.Mathlib.Omega.{arith}

abbrev pub All : {A : Type 0} → (A → Type 0) → List A → Type 0
All P [] = Unit {0}
All P (x ∷ xs) = P x × All P xs

module _ {A B : Type 0} where
  unfoldable pub collect_from : (ℕ → A → Option B) → ℕ → List A → Option (List B)
  collect_from f i [] = some []
  collect_from f i (x ∷ xs) = elim (f i x) [
    | none ↦ none
    | some y ↦ Option.map (λ ys. y ∷ ys) (collect_from f (suc i) xs)
  ]

  -- What stands where, if the body never panics.
  pub record Collected (R : ℕ → A → B → Type 0) (i : ℕ) (xs : List A) (ys : List B) : Type 0 where
    pub lengths : length ys ≡ length xs
    pub at :
        (j : ℕ) {x : A}
        → get_elem? xs j ≡ some x
        → (y : B) × (get_elem? ys j ≡ some y) × R (i + j) x y

  Collected-cons :
      {R : ℕ → A → B → Type 0} {i : ℕ} {x : A} {y : B} {xs : List A} {ys : List B}
      → R i x y
      → Collected R (suc i) xs ys
      → Collected R i (x ∷ xs) (y ∷ ys)
  Collected-cons {R} {i} {x} {y} {xs} {ys} is more = record {
    lengths = ap suc more.lengths;
    at = at;
  }
    where
      at :
          (j : ℕ) {x' : A}
          → get_elem? (x ∷ xs) j ≡ some x'
          → (y' : B) × (get_elem? (y ∷ ys) j ≡ some y') × R (i + j) x' y'
      at zero {x'} h =
          let same : i ≡ i + 0 = omega arith in
          let it : x ≡ x' = cc in (y, refl, subst (λ k. R k x' y) same (subst (λ z. R i z y) it is))
      at (suc j) {x'} h =
          let (y', found, is') = more.at j h in
          let same : suc i + j ≡ i + suc j = omega arith in
          (y', found, subst (λ k. R k x' y') same is')

  pub collect_from_lem :
      {P : A → Type 0} (R : ℕ → A → B → Type 0) (f : ℕ → A → Option B)
      → ((i : ℕ) (x : A) → P x → (y : B) × (f i x ≡ some y) × R i x y)
      → (i : ℕ) (xs : List A) → All P xs
      → (ys : List B) × (collect_from f i xs ≡ some ys) × Collected R i xs ys
  unfolding collect_from
  collect_from_lem R f body i [] all =
      ([], refl, record { lengths = refl; at = λ j h. absurd (cc) })
  collect_from_lem R f body i (x ∷ xs) all =
      let (y, done, is) = body i x all.0 in
      let (ys, rest, more) = collect_from_lem R f body (suc i) xs all.1 in
      (y ∷ ys, rw (collect_from, done, rest) refl, Collected-cons is more)

-- A list that is as long has an element where the other has one.
get_elem?-length :
    {A B : Type 0} (xs : List A) (ys : List B) (j : ℕ) {y : B}
    → length ys ≡ length xs
    → get_elem? ys j ≡ some y
    → (x : A) × (get_elem? xs j ≡ some x)
get_elem?-length xs [] j n h = absurd (cc)
get_elem?-length [] (y ∷ ys) j n h = absurd (omega (arith, n))
get_elem?-length (x ∷ xs) (y ∷ ys) zero n h = (x, refl)
get_elem?-length (x ∷ xs) (y ∷ ys) (suc j) n h = get_elem?-length xs ys j (omega (arith, n)) h

pub Collected-back :
    {A B : Type 0} {R : ℕ → A → B → Type 0} {i : ℕ} {xs : List A} {ys : List B} (j : ℕ) {y : B}
    → Collected R i xs ys
    → get_elem? ys j ≡ some y
    → (x : A) × (get_elem? xs j ≡ some x) × R (i + j) x y
Collected-back {R = R} {i} {xs} {ys} j {y} c h =
    let (x, found) = get_elem?-length xs ys j c.lengths h in
    let (y', found', is) = c.at j found in
    let same : y' ≡ y = cc in (x, found, subst (λ z. R (i + j) x z) same is)

pub get_elem?-All :
    {A : Type 0} (P : A → Type 0) (xs : List A) (i : ℕ) {x : A}
    → All P xs
    → get_elem? xs i ≡ some x
    → P x
get_elem?-All P [] i all h = absurd (cc)
get_elem?-All P (y ∷ xs) zero {x} all h = let same : y ≡ x = cc in subst P same all.0
get_elem?-All P (x ∷ xs) (suc i) all h = get_elem?-All P xs i all.1 h

pub All-append :
    {A : Type 0} (P : A → Type 0) (xs ys : List A) → All P xs → All P ys → All P (xs ++ ys)
All-append P [] ys all all' = all'
All-append P (x ∷ xs) ys all all' = (all.0, All-append P xs ys all.1 all')
