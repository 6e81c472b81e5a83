-- ===== src/Prelude/Assoc.antt =====
-- Hash maps keyed by a number: association lists with at most one entry for a key. The code never
-- iterates over such a map, so the order of the entries is not modelled.
use redbit.Prelude.{
  ℕ, ◌≤◌, ◌<◌, ◌≡◌, refl, Option, none, some, List, [], ◌∷◌, ◌++◌, arith, ◌==◌, length,
  if◌then◌else◌,
}

module _ {ℓ} {V : Type ℓ} where
  -- `map.get(&k)`
  abbrev pub get : ℕ → List (ℕ × V) → Option V
  get k [] = none
  get k ((j, v) ∷ m) = if j == k then some v else get k m

  -- the map that `map.remove(&k)` leaves
  abbrev pub without : ℕ → List (ℕ × V) → List (ℕ × V)
  without k [] = []
  without k ((j, v) ∷ m) = if j == k then without k m else (j, v) ∷ without k m

  -- `map.insert(k, v)`
  abbrev pub put : ℕ → V → List (ℕ × V) → List (ℕ × V)
  put k v m = (k, v) ∷ without k m

  pub get-without :
      (k j : ℕ) (m : List (ℕ × V)) → get j (without k m) ≡ (if k == j then none else get j m)
  get-without k j [] = ground arith
  get-without k j ((i, v) ∷ m) = ground (arith, get-without k j m)

  pub get-put :
      (k j : ℕ) (v : V) (m : List (ℕ × V))
      → get j (put k v m) ≡ (if k == j then some v else get j m)
  get-put k j v m = ground (arith, get-without k j m)

  pub length-without-le : (k : ℕ) (m : List (ℕ × V)) → length (without k m) ≤ length m
  length-without-le k [] = omega arith
  length-without-le k ((i, v) ∷ m) = ground (arith, length-without-le k m)

  pub length-without-lt :
      (k : ℕ) (m : List (ℕ × V)) (v : V) → get k m ≡ some v → length (without k m) < length m
  length-without-lt k [] v h = ground arith
  length-without-lt k ((i, w) ∷ m) v h =
      ground (arith, length-without-lt k m v, length-without-le k m)

  -- In a list of arrivals `get` finds the first one.
  pub get-append :
      (k : ℕ) (m n : List (ℕ × V))
      → get k (m ++ n) ≡ elim (get k m) [ none ↦ get k n | some v ↦ some v ]
  get-append k [] n = refl
  get-append k ((i, v) ∷ m) n = ground (arith, get-append k m n)
