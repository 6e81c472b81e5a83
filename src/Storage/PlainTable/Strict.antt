-- ===== src/Storage/PlainTable/Strict.antt =====
-- Batches that are sorted by key, as `is_sorted_by_key` tests it.
use redbit.Prelude.{
  ◌≡◌, refl, sym, ap, ◌∙◌, subst, Bool, true, false, not, ◌&&◌, Bool-cases, inl, inr, List, [], ◌∷◌,
  Ordering,
}
use mathlib.Core.List.{Memᴰ}
use mathlib.Core.List.Memᴰ
use mathlib.Core.Bool.{false≢true}
use redbit.Prelude.Order.{KeyOrder, flip_ordering, is_greater, is_less, is_less-flip}
use redbit.Prelude.Equality.{Eq}
use redbit.Storage.Redb.Views.{not-same}
use redbit.Storage.PlainTable.{is_sorted_by_key, is_refused}

and-true : (a b : Bool) → (a && b) ≡ true → (a ≡ true) × (b ≡ true)
and-true true b h = (refl, h)
and-true false b h = absurd (false≢true h)

is_less_of_self : (o : Ordering) → o ≡ flip_ordering o → is_less o ≡ false
is_less_of_self Ordering.lt h = absurd (cc)
is_less_of_self Ordering.eq h = refl
is_less_of_self Ordering.gt h = refl

module _ {K : Type 0} (order : KeyOrder K) where
  not_greater : (a b : K) → is_less (order.cmp a b) ≡ true → is_greater (order.cmp a b) ≡ false
  not_greater a b h = go (order.cmp a b) h
    where
      go : (o : Ordering) → is_less o ≡ true → is_greater o ≡ false
      go Ordering.lt h = refl
      go Ordering.eq h = absurd (false≢true h)
      go Ordering.gt h = absurd (false≢true h)

  is_less_trans :
      (a b c : K)
      → is_less (order.cmp a b) ≡ true
      → is_less (order.cmp b c) ≡ true
      → is_less (order.cmp a c) ≡ true
  is_less_trans a b c ab bc = elim (Bool-cases (is_less (order.cmp a c))) [
    | inl ac ↦ ac
    | inr not_ac ↦
        let ca : is_greater (order.cmp c a) ≡ false = sym (is_less-flip order a c) ∙ not_ac in
        let ba = order.le_trans b c a (not_greater b c bc) ca in
        absurd (false≢true (sym ba ∙ sym (is_less-flip order a b) ∙ ab))
  ]

  pub is_less-apart :
      (keys : Eq K) (a b : K) → is_less (order.cmp a b) ≡ true → keys.same a b ≡ false
  is_less-apart keys a b h = not-same keys (λ e. false≢true (
      sym (is_less_of_self (order.cmp b b) (order.cmp_flip b b))
      ∙ ap (λ x. is_less (order.cmp x b)) (sym e)
      ∙ h))

  module _ {V : Type 0} where
    pub sorted-rest :
        (p : K × V) (pairs : List (K × V))
        → is_sorted_by_key order (p ∷ pairs) ≡ true
        → is_sorted_by_key order pairs ≡ true
    unfolding is_sorted_by_key
    sorted-rest p [] h = refl
    sorted-rest (k, v) ((j, w) ∷ pairs) h =
        (and-true (is_less (order.cmp k j)) (is_sorted_by_key order ((j, w) ∷ pairs)) h).1

    -- The first key is less than all others.
    pub sorted-below :
        (k : K) (v : V) (pairs : List (K × V)) {j : K} {w : V}
        → is_sorted_by_key order ((k, v) ∷ pairs) ≡ true
        → Memᴰ (j, w) pairs
        → is_less (order.cmp k j) ≡ true
    unfolding is_sorted_by_key
    sorted-below k v [] h m = absurd (Memᴰ.not-nil m)
    sorted-below k v ((i, u) ∷ pairs) {j} {w} h m =
        let (less, rest) =
          and-true (is_less (order.cmp k i)) (is_sorted_by_key order ((i, u) ∷ pairs)) h in
        elim m [
          | Memᴰ.head e ↦ subst (λ x. is_less (order.cmp k x) ≡ true) (sym (ap (λ p. p.0) e)) less
          | Memᴰ.tail m' ↦ is_less_trans k i j less (sorted-below i u pairs rest m')
        ]

    -- A sorted batch is never refused.
    pub sorted-accepted :
        (cfg_test : Bool) (pairs : List (K × V))
        → is_sorted_by_key order pairs ≡ true
        → is_refused cfg_test order pairs ≡ false
    sorted-accepted true pairs h = ap not h
    sorted-accepted false pairs h = refl

    pub sorted-cons :
        (k : K) (v : V) (pairs : List (K × V))
        → ((j : K) (w : V) → Memᴰ (j, w) pairs → is_less (order.cmp k j) ≡ true)
        → is_sorted_by_key order pairs ≡ true
        → is_sorted_by_key order ((k, v) ∷ pairs) ≡ true
    unfolding is_sorted_by_key
    sorted-cons k v [] less sorted = refl
    sorted-cons k v ((j, w) ∷ pairs) less sorted = rw (less j w (Memᴰ.head refl)) sorted
