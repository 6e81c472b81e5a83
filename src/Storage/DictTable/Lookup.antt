-- ===== src/Storage/DictTable/Lookup.antt =====
-- The value of a key of a dictionary: the value of its birth id.
use redbit.Prelude.{
  ◌≡◌, inl, inr, refl, ◌∙◌, Bool-cases, Option, none, some, Option-cases, if◌then◌else◌,
}
use redbit.Prelude.Equality.{Eq}
use redbit.Storage.Redb.{Updated, Removed}
use redbit.Storage.PlainTable.{◌>>=◌}

module _ {K V : Type 0} where
  abbrev pub lookup : (K → Option K) → (K → Option V) → K → Option V
  lookup birth value_of k = birth k >>= value_of

  -- A look-up sees only the birth ids that keys have.
  pub lookup_same :
      (birth : K → Option K) (value_of value_of' : K → Option V) (j : K)
      → ((c : K) → birth j ≡ some c → value_of' c ≡ value_of c)
      → lookup birth value_of' j ≡ lookup birth value_of j
  lookup_same birth value_of value_of' j same = elim (Option-cases (birth j)) [
    | inl absent ↦ rw (absent) refl
    | inr (c, at) ↦ rw (at) (same c at)
  ]

module _ {K V : Type 0} (keys : Eq K) {birth birth' : K → Option K}
    (value_of value_of' : K → Option V) {k : K} where
  -- A key with a new birth id has its value.
  pub lookup-Updated :
      {b : K} {v : V}
      → Updated keys birth k b birth'
      → value_of' b ≡ some v
      → ((j c : K) → birth j ≡ some c → value_of' c ≡ value_of c)
      → Updated keys (lookup birth value_of) k v (lookup birth' value_of')
  lookup-Updated {b} {v} up at same = record {
    at = λ j. elim (Bool-cases (keys.same k j)) [
      | inl here ↦ rw (up.at j, here) at
      | inr other ↦ rw (up.at j, other) (lookup_same birth value_of value_of' j (same j))
    ];
  }

  pub lookup-Removed :
      Removed keys birth k birth'
      → ((j c : K) → birth' j ≡ some c → value_of' c ≡ value_of c)
      → Removed keys (lookup birth value_of) k (lookup birth' value_of')
  lookup-Removed gone same = record {
    at = λ j.
        lookup_same birth' value_of value_of' j (same j)
        ∙ elim (Bool-cases (keys.same k j))
            as (λ _.
              lookup birth' value_of j
              ≡ (if keys.same k j then none else lookup birth value_of j)) [
                | inl here ↦ rw (gone.at j, here) refl
                | inr other ↦ rw (gone.at j, other) refl
              ];
  }
