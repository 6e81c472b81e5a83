-- ===== src/Storage/Utf8.antt =====
-- redbit/src/codec.rs: `Utf8::increment_last_scalar`, over the scalar values of a text. The loop runs on
-- fuel for the values up to the last one.
pub mod Increment
mod Tests
use redbit.Prelude.{
  ℕ, zero, suc, ◌+◌, ◌-◌, ◌%◌, Bool, true, false, ◌&&◌, ◌||◌, ltb, leb, Option, none, some, List,
  [], ◌∷◌, ◌++◌, if◌then◌else◌,
}

abbrev pub last_scalar : ℕ
last_scalar = 0x10FFFF

-- `char::from_u32` finds a character for all values but the surrogates.
abbrev pub is_scalar : ℕ → Bool
is_scalar c = leb c last_scalar && (ltb c 0xD800 || ltb 0xDFFF c)

-- The loop, from a candidate on.
unfoldable pub next_scalar : ℕ → ℕ → Option ℕ
next_scalar zero candidate = none
next_scalar (suc fuel) candidate =
    let rest = next_scalar fuel (suc candidate) in
    if ltb last_scalar candidate then none else if is_scalar candidate then some candidate else rest

-- `Vec::pop`
unfoldable pub pop_char : List ℕ → Option (List ℕ × ℕ)
pop_char [] = none
pop_char (c ∷ chars) = elim (pop_char chars) [
  | none ↦ some ([], c)
  | some (rest, last) ↦ some (c ∷ rest, last)
]

unfoldable pub increment_last_scalar : List ℕ → List ℕ
increment_last_scalar s = elim (pop_char s) [
  | none ↦ 1 ∷ []
  | some (chars, last_cp) ↦ elim (next_scalar (suc last_scalar - last_cp) (suc last_cp)) [
    | none ↦ chars ++ 1 ∷ []
    | some c ↦ chars ++ c ∷ []
  ]
]
