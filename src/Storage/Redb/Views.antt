-- ===== src/Storage/Redb/Views.antt =====
-- How the views of a map and of a relation change by one write.
use redbit.Prelude.{
  ◌≡◌, ◌≢◌, ◌⊎◌, inl, inr, refl, sym, ap, ◌∙◌, Bool, true, false, ◌&&◌, Bool-cases, Option, none,
  some, if◌then◌else◌,
}
use mathlib.Core.Option.{some_inj, none-ne-some}
use mathlib.Core.Bool.{false≢true}
use redbit.Prelude.Equality.{Eq, same_refl}
use redbit.Storage.Redb.{Updated, Removed, Added, Dropped}

module _ {K : Type 0} (eq : Eq K) where
  pub same_of_eq : {k j : K} → k ≡ j → eq.same k j ≡ true
  same_of_eq {k} {j} e = (eq.same_iff k j).1 e

  pub not-same : {k j : K} → k ≢ j → eq.same k j ≡ false
  not-same {k} {j} ne = elim (Bool-cases (eq.same k j)) [
    | inl here ↦ absurd (ne ((eq.same_iff k j).0 here))
    | inr other ↦ other
  ]

module _ {K V : Type 0} (eq : Eq K) {f : K → Option V} {k : K} {v : V} {f' : K → Option V}
    (up : Updated eq f k v f') where
  pub updated_here : f' k ≡ some v
  updated_here = up.at k ∙ ap (λ (b : Bool). if b then some v else f k) (same_refl eq k)

  pub updated_other : {j : K} → eq.same k j ≡ false → f' j ≡ f j
  updated_other {j} other = up.at j ∙ ap (λ (b : Bool). if b then some v else f j) other

  pub updated_inv : {j : K} {w : V} → f' j ≡ some w → ((k ≡ j) × (v ≡ w)) ⊎ (f j ≡ some w)
  updated_inv {j} {w} h = elim (Bool-cases (eq.same k j)) [
    | inl here ↦
        let e : k ≡ j = (eq.same_iff k j).0 here in
        inl (e, some_inj.0 (sym updated_here ∙ ap f' e ∙ h))
    | inr other ↦ inr (sym (updated_other other) ∙ h)
  ]

  -- A write to a key that was absent keeps what was there.
  pub updated_keeps : f k ≡ none → {j : K} {w : V} → f j ≡ some w → f' j ≡ some w
  updated_keeps fresh {j} {w} h = elim (Bool-cases (eq.same k j)) [
    | inl here ↦ absurd (none-ne-some w (sym fresh ∙ ap f ((eq.same_iff k j).0 here) ∙ h))
    | inr other ↦ updated_other other ∙ h
  ]

module _ {K V : Type 0} (eq : Eq K) {f : K → Option V} {k : K} {f' : K → Option V}
    (re : Removed eq f k f') where
  pub removed_here : f' k ≡ none
  removed_here = re.at k ∙ ap (λ (b : Bool). if b then none else f k) (same_refl eq k)

  pub removed_other : {j : K} → eq.same k j ≡ false → f' j ≡ f j
  removed_other {j} other = re.at j ∙ ap (λ (b : Bool). if b then none else f j) other

  -- Removing an absent key changes nothing.
  pub removed_absent : f k ≡ none → (j : K) → f' j ≡ f j
  removed_absent absent j = elim (Bool-cases (eq.same k j)) [
    | inl here ↦
        let kj : k ≡ j = (eq.same_iff k j).0 here in
        ap f' (sym kj) ∙ removed_here ∙ sym absent ∙ ap f kj
    | inr other ↦ removed_other other
  ]

  pub removed_inv : {j : K} {w : V} → f' j ≡ some w → (eq.same k j ≡ false) × (f j ≡ some w)
  removed_inv {j} {w} h = elim (Bool-cases (eq.same k j)) [
    | inl here ↦ absurd (none-ne-some w (sym removed_here ∙ ap f' ((eq.same_iff k j).0 here) ∙ h))
    | inr other ↦ (other, sym (removed_other other) ∙ h)
  ]

module _ {K V : Type 0} (eq : Eq K) (eq' : Eq V) {r : K → V → Bool} {k : K} {v : V}
    {r' : K → V → Bool} (add : Added eq eq' r k v r') where
  pub added_here : r' k v ≡ true
  added_here = rw (add.at k v, same_refl eq k, same_refl eq' v) refl

  pub added_keeps : {j : K} {w : V} → r j w ≡ true → r' j w ≡ true
  added_keeps {j} {w} h = elim (Bool-cases (eq.same k j && eq'.same v w)) [
    | inl both ↦ rw (add.at j w, both) refl
    | inr other ↦ rw (add.at j w, other) h
  ]

  pub added_inv : {j : K} {w : V} → r' j w ≡ true → ((k ≡ j) × (v ≡ w)) ⊎ (r j w ≡ true)
  added_inv {j} {w} h = elim (Bool-cases (eq.same k j)) [
    | inl here ↦ elim (Bool-cases (eq'.same v w)) [
      | inl here' ↦ inl ((eq.same_iff k j).0 here, (eq'.same_iff v w).0 here')
      | inr other ↦ inr (sym (rw (add.at j w, here, other) refl) ∙ h)
    ]
    | inr other ↦ inr (sym (rw (add.at j w, other) refl) ∙ h)
  ]

module _ {K V : Type 0} (eq : Eq K) (eq' : Eq V) {r : K → V → Bool} {k : K} {v : V}
    {r' : K → V → Bool} (drop : Dropped eq eq' r k v r') where
  pub dropped_here : r' k v ≡ false
  dropped_here = rw (drop.at k v, same_refl eq k, same_refl eq' v) refl

  pub dropped_keeps : {j : K} {w : V} → eq'.same v w ≡ false → r j w ≡ true → r' j w ≡ true
  dropped_keeps {j} {w} other h = elim (Bool-cases (eq.same k j)) [
    | inl here ↦ rw (drop.at j w, here, other) h
    | inr other' ↦ rw (drop.at j w, other') h
  ]

  pub dropped_inv : {j : K} {w : V} → r' j w ≡ true → r j w ≡ true
  dropped_inv {j} {w} h = elim (Bool-cases (eq.same k j && eq'.same v w)) [
    | inl both ↦ absurd (false≢true (sym (rw (drop.at j w, both) refl) ∙ h))
    | inr other ↦ sym (rw (drop.at j w, other) refl) ∙ h
  ]
