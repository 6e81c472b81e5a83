-- ===== src/Prelude/Order.antt =====
-- `K::compare` of a redb key, as an interface: the three-way comparison of the encoded keys, which
-- redb documents to be a total order.
use redbit.Prelude.{refl, sym, ap, ◌∙◌, ◌≡◌, Ordering, ℕ, compare, arith, Bool, true, false}

-- The comparison with its arguments exchanged.
abbrev pub flip_ordering : Ordering → Ordering
flip_ordering Ordering.lt = Ordering.gt
flip_ordering Ordering.eq = Ordering.eq
flip_ordering Ordering.gt = Ordering.lt

-- `matches!(o, Ordering::Greater)`.
abbrev pub is_greater : Ordering → Bool
is_greater Ordering.gt = true
is_greater _ = false

-- `matches!(o, Ordering::Less)`.
abbrev pub is_less : Ordering → Bool
is_less Ordering.lt = true
is_less _ = false

pub record KeyOrder {ℓ} (K : Type ℓ) : Type ℓ where
  pub cmp : K → K → Ordering
  pub cmp_flip : (a b : K) → cmp b a ≡ flip_ordering (cmp a b)
  pub le_trans :
      (a b c : K)
      → is_greater (cmp a b) ≡ false
      → is_greater (cmp b c) ≡ false
      → is_greater (cmp a c) ≡ false

is_less_of_flip : (o : Ordering) → is_less o ≡ is_greater (flip_ordering o)
is_less_of_flip Ordering.lt = refl
is_less_of_flip Ordering.eq = refl
is_less_of_flip Ordering.gt = refl

module _ {ℓ} {K : Type ℓ} (order : KeyOrder K) where
  -- One key is below another exactly when the other one is greater.
  pub is_less-flip : (a b : K) → is_less (order.cmp a b) ≡ is_greater (order.cmp b a)
  is_less-flip a b = is_less_of_flip (order.cmp a b) ∙ ap is_greater (sym (order.cmp_flip a b))

pub compare_flip : (a b : ℕ) → compare b a ≡ flip_ordering (compare a b)
compare_flip a b = ground arith

pub compare-le_trans :
    (a b c : ℕ)
    → is_greater (compare a b) ≡ false
    → is_greater (compare b c) ≡ false
    → is_greater (compare a c) ≡ false
compare-le_trans a b c p q = ground arith

-- Numbers as keys.
abbrev pub nat_order : KeyOrder ℕ
nat_order = record { cmp = compare; cmp_flip = compare_flip; le_trans = compare-le_trans }
