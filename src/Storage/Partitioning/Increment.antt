-- ===== src/Storage/Partitioning/Increment.antt =====
-- `inc_le` is the increment of a fixed-width little-endian number.
use redbit.Prelude.{
  ℕ, ◌+◌, ◌*◌, ◌%◌, ◌^◌, ◌<◌, ◌≡◌, refl, ap, ◌∙◌, List, [], ◌∷◌, ◌==◌, length, arith, Bool-cases,
  ==_iff, suc, sym, dec_lt, inl, inr,
}
use native.Mathlib.Nat.{pow-suc, mod-eq_of_lt, mod_self}
use redbit.Storage.Partitioning.{inc_le}
use redbit.Storage.Partitioning.Shards.{le_value, AllBytes}

le_value-lt : (bytes : List ℕ) → AllBytes bytes → le_value bytes < 256 ^ length bytes
le_value-lt [] all = omega arith
le_value-lt (b ∷ bytes) all = rw pow-suc (omega (arith, le_value-lt bytes all.1))

-- The carry out of the lowest byte.
carry_mod : (v w p : ℕ) → v < p → w ≡ (v + 1) % p → 256 * w ≡ (255 + 256 * v + 1) % (p * 256)
carry_mod v w p h e = elim (dec_lt (v + 1) p) [
  | yes lt ↦
      ap (λ (t : ℕ). 256 * t) (e ∙ mod-eq_of_lt lt)
      ∙ sym (mod-eq_of_lt {n = 255 + 256 * v + 1} (omega arith) ∙ omega arith)
  | no ge ↦
      let top : v + 1 ≡ p = omega arith in
      ap (λ (t : ℕ). 256 * t) (e ∙ ap (λ (t : ℕ). t % p) top ∙ mod_self p)
      ∙ sym (ap (λ (t : ℕ). t % (p * 256)) (omega arith) ∙ mod_self (p * 256))
]

-- The bytes stay bytes, as many as before, and the number that they write grows by one, or wraps
-- from the largest one of this length to 0.
inc_le-le_value :
    (bytes : List ℕ)
    → AllBytes bytes
    → (length (inc_le bytes) ≡ length bytes)
      × AllBytes (inc_le bytes)
      × (le_value (inc_le bytes) ≡ (le_value bytes + 1) % 256 ^ length bytes)
unfolding inc_le
inc_le-le_value [] all = (refl, tt, refl)
inc_le-le_value (b ∷ bytes) all = elim (Bool-cases (b == 0xFF)) [
  | inl carry ↦
      let (long, bytes', value) = inc_le-le_value bytes all.1 in
      let top : b ≡ 255 = (==_iff b 0xFF).0 carry in
      let bound = le_value-lt bytes all.1 in
      let carried =
        carry_mod (le_value bytes) (le_value (inc_le bytes)) (256 ^ length bytes) bound value in
      rw carry (ap suc long, (omega arith, bytes'), rw (top, pow-suc) (omega arith ∙ carried))
  | inr room ↦
      let small : b < 255 = ground arith in
      rw room (
        refl,
        (omega arith, all.1),
        omega arith
            ∙ sym (
                mod-eq_of_lt {n = b + 256 * le_value bytes + 1}
                  (rw pow-suc (omega (arith, le_value-lt bytes all.1)))),
      )
]
