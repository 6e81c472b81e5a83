-- ===== src/Prelude/Equality.antt =====
-- Equality of keys and values as a Boolean test, which their bytes decide.
use redbit.Prelude.{ℕ, ◌≡◌, ◌↔◌, Bool, true, ◌==◌, ==_iff, refl}

pub record Eq (A : Type 0) : Type 0 where
  pub same : A → A → Bool
  pub same_iff : (a b : A) → (same a b ≡ true) ↔ (a ≡ b)

abbrev pub nat_eq : Eq ℕ
nat_eq = record { same = λ a b. a == b; same_iff = ==_iff }

module _ {A : Type 0} (eq : Eq A) where
  pub same_refl : (a : A) → eq.same a a ≡ true
  same_refl a = (eq.same_iff a a).1 refl
