-- ===== src/Storage/Utf8/Tests.antt =====
-- A text that ends before the surrogates, an empty one, and one that ends with the last character.
use redbit.Prelude.{◌≡◌, refl, [], ◌∷◌, ◌⊎◌, ℕ}
use redbit.Storage.Utf8.{last_scalar, next_scalar, pop_char, increment_last_scalar}
use redbit.Storage.Utf8.Increment.{IsNext, increment_last_scalar_lem}

empty_starts : increment_last_scalar [] ≡ 1 ∷ []
unfolding increment_last_scalar pop_char
empty_starts = refl

letter_steps : increment_last_scalar (0x62 ∷ 0x61 ∷ []) ≡ 0x62 ∷ 0x62 ∷ []
unfolding increment_last_scalar pop_char next_scalar
letter_steps = refl

-- The text that comes out is below the one that went in.
last_falls_back : increment_last_scalar (0x61 ∷ last_scalar ∷ []) ≡ 0x61 ∷ 1 ∷ []
unfolding increment_last_scalar pop_char next_scalar
last_falls_back = refl

increment_last_scalar_lem_example :
    ((d : ℕ) × IsNext 0xD800 d × (increment_last_scalar (0x61 ∷ 0xD7FF ∷ []) ≡ 0x61 ∷ d ∷ []))
    ⊎ ((0xD7FF ≡ last_scalar) × (increment_last_scalar (0x61 ∷ 0xD7FF ∷ []) ≡ 0x61 ∷ 1 ∷ []))
increment_last_scalar_lem_example = increment_last_scalar_lem (0x61 ∷ []) 0xD7FF refl
