-- ===== src/Prelude/Words.antt =====
-- Rust's fixed-width unsigned integers: the bounds of `u32`, and of `u64` and a 64-bit `usize`.
use Prim.Native.Nat.{ℕ, ◌+◌, ◌*◌, ◌%◌, ◌^◌, ◌-◌, min}

abbrev pub u32_mod : ℕ
u32_mod = 2 ^ 32

abbrev pub u32_max : ℕ
u32_max = 2 ^ 32 - 1

abbrev pub usize_max : ℕ
usize_max = 2 ^ 64 - 1

-- `a.saturating_add(b)` of the type whose largest value is `top`.
abbrev pub saturating_add : ℕ → ℕ → ℕ → ℕ
saturating_add top a b = min (a + b) top

-- `a.saturating_mul(b)` of the type whose largest value is `top`.
abbrev pub saturating_mul : ℕ → ℕ → ℕ → ℕ
saturating_mul top a b = min (a * b) top

-- `a += 1` on a `u32`, as a release build computes it.
abbrev pub wrapping_inc : ℕ → ℕ
wrapping_inc a = (a + 1) % u32_mod

abbrev pub u128_mod : ℕ
u128_mod = 2 ^ 128
