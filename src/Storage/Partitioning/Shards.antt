-- ===== src/Storage/Partitioning/Shards.antt =====
-- The shard of a key, against the number that its bytes write.
use redbit.Prelude.{
  ℕ, ◌+◌, ◌*◌, ◌%◌, ◌/◌, ◌^◌, ◌≤◌, ◌<◌, ◌≡◌, ap, ◌∙◌, sym, false, none, some, List, [], ◌∷◌, ◌++◌,
  ◌==◌, arith, length, Bool-cases, inl, inr, usize_max, u128_mod, ◌↔◌,
}
use native.Mathlib.Nat.{
  mod-lt, mod-add-mod, add-mod-mod, mod-eq_of_lt, mod-one, mod-add-div, add-mul-mod_self_left,
  pow-suc,
}
use redbit.Storage.Partitioning.{fold_bytes, partition_bytes_le, partition_key_redb}

-- The number that the bytes write, lowest first.
abbrev pub le_value : List ℕ → ℕ
le_value [] = 0
le_value (b ∷ bytes) = b + 256 * le_value bytes

-- Every byte is one.
abbrev pub AllBytes : List ℕ → Type 0
AllBytes [] = Unit
AllBytes (b ∷ bytes) = (b < 256) × AllBytes bytes

mod-mul : (x y m : ℕ) → ((x % m) * y) % m ≡ (x * y) % m
mod-mul x y m =
    sym (add-mul-mod_self_left ((x % m) * y) m ((x / m) * y))
    ∙ ap (λ (t : ℕ). t % m) (omega (arith, ap (λ (t : ℕ). t * y) (mod-add-div x m)))

-- One round modulo `m`.
round_mod :
    (m p a b v : ℕ) → ((a + b * p) % m + ((p * 256) % m) * v) % m ≡ (a + p * (b + 256 * v)) % m
round_mod m p a b v =
    let sum = a + b * p in
    mod-add-mod sum m ((p * 256) % m * v)
    ∙ sym (add-mod-mod sum ((p * 256) % m * v) m)
    ∙ ap (λ (t : ℕ). (sum + t) % m) (mod-mul (p * 256) v m)
    ∙ add-mod-mod sum (p * 256 * v) m
    ∙ ap (λ (t : ℕ). t % m) (omega arith)

-- The sums and products of a round fit a `u128`.
round_fits :
    (m p a b : ℕ)
    → m ≤ usize_max
    → p < m
    → a < m
    → b < 256
    → (p * 256 < u128_mod) × (b * p < u128_mod) × (a + b * p < u128_mod)
round_fits m p a b hm hp ha hb =
    let product : b * p ≤ 256 * p = grind arith in (omega arith, omega arith, omega arith)

fold_lem :
    (m : ℕ) (bytes : List ℕ) (p a : ℕ)
    → m ≤ usize_max
    → AllBytes bytes
    → p < m
    → a < m
    → (fold_bytes m p a bytes).1 % m ≡ (a + p * le_value bytes) % m
unfolding fold_bytes
fold_lem m [] p a hm all hp ha = ap (λ (t : ℕ). t % m) (omega arith)
fold_lem m (b ∷ bytes) p a hm all hp ha =
    let (fits, fits', fits'') = round_fits m p a b hm hp ha all.0 in
    rw (fold_bytes, mod-eq_of_lt fits, mod-eq_of_lt fits', mod-eq_of_lt fits'')
      (fold_lem m bytes ((p * 256) % m) ((a + b * p) % m) hm all.1 (mod-lt _ (omega arith))
          (mod-lt _ (omega arith))
        ∙ round_mod m p a b (le_value bytes))

ne_one : (n : ℕ) → 0 < n → (n == 1) ≡ false → 1 < n
ne_one n pos more = ground arith

le_value-append :
    (low xs : List ℕ) → le_value (low ++ xs) ≡ le_value low + 256 ^ length low * le_value xs
le_value-append [] xs = omega arith
le_value-append (b ∷ low) xs = rw (pow-suc, le_value-append low xs) (omega arith)

low_mod :
    (n : ℕ) (low xs : List ℕ) (q : ℕ)
    → 256 ^ length low ≡ n * q
    → le_value (low ++ xs) % n ≡ le_value low % n
low_mod n low xs q e =
    ap (λ (t : ℕ). t % n)
      (le_value-append low xs ∙ omega (arith, ap (λ (t : ℕ). t * le_value xs) e))
    ∙ add-mul-mod_self_left (le_value low) n (q * le_value xs)

-- For every number of shards of a `usize`, the shard of some bytes is the number that they write,
-- lowest byte first, modulo the number of shards: the `u128` sums never wrap.
pub partition-le_value :
    (n : ℕ) (bytes : List ℕ)
    → 0 < n
    → n ≤ usize_max
    → AllBytes bytes
    → partition_bytes_le n bytes ≡ le_value bytes % n
unfolding partition_bytes_le
partition-le_value n bytes pos small all = elim (Bool-cases (n == 1)) [
  | inl one ↦ rw one (ground (arith, mod-one (le_value bytes)))
  | inr more ↦
      rw more (
        fold_lem n bytes 1 0 small all (ne_one n pos more) pos
        ∙ ap (λ (t : ℕ). t % n) (omega arith))
]

-- The shard that a partitioner computes is one of its shards, and there is one unless the number
-- of shards is 0, which panics.
partition_key_redb-lt :
    (n : ℕ) (bytes : List ℕ)
    → n ≤ usize_max
    → AllBytes bytes
    → ((partition_key_redb n bytes ≡ none) ↔ (n ≡ 0))
      × ((shard : ℕ) → partition_key_redb n bytes ≡ some shard → shard < n)
unfolding partition_key_redb
partition_key_redb-lt n bytes small all = (
  (λ h. ground arith, λ e. ground arith),
  λ shard h. ground (arith, partition-le_value n bytes, mod-lt (le_value bytes)),
)

-- Two keys whose bytes agree up to `k` are in the same shard if the number of shards divides
-- 256 ^ k; so the low bytes decide alone.
partition_low_bytes :
    (n : ℕ) (low xs ys : List ℕ) (q : ℕ)
    → 0 < n
    → n ≤ usize_max
    → AllBytes (low ++ xs)
    → AllBytes (low ++ ys)
    → 256 ^ length low ≡ n * q
    → partition_bytes_le n (low ++ xs) ≡ partition_bytes_le n (low ++ ys)
partition_low_bytes n low xs ys q pos small all all' divides =
    partition-le_value n (low ++ xs) pos small all
    ∙ low_mod n low xs q divides
    ∙ sym (low_mod n low ys q divides)
    ∙ sym (partition-le_value n (low ++ ys) pos small all')
