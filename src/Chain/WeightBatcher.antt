-- ===== src/Chain/WeightBatcher.antt =====
-- chain/src/weight_batcher.rs: `WeightBatcher<TB>`, which groups an ordered stream by weight and
-- count. `weight_of` of `push_with` is a parameter. `Durability` is redb's enumeration, of which
-- the batcher knows two modes; `none` as a result is the panic of its `unreachable!` arms.
pub mod Batches
pub mod Fullness
mod Tests
use redbit.Prelude.{
  ℕ, Bool, true, false, ◌||◌, Option, none, some, List, [], ◌∷◌, ◌++◌, leb, ◌==◌, length,
  if◌then◌else◌, usize_max, saturating_add,
}

-- `unsupported` stands for every other mode of the enumeration.
pub data Durability : Type 0 where
  immediate deferred unsupported : Durability

pub record WeightBatcher {ℓ} (TB : Type ℓ) : Type ℓ where
  pub buf : List TB
  pub weight : ℕ
  pub min_weight : ℕ
  pub cap : ℕ
  pub mode : Durability

-- A state and, if a batch is ready, the batch.
abbrev pub Step {ℓ} : Type ℓ → Type ℓ
Step TB = WeightBatcher TB × Option (List TB)

module _ {ℓ} {TB : Type ℓ} where
  unfoldable pub new : ℕ → ℕ → Durability → WeightBatcher TB
  new min_weight cap mode = record {
    buf = [];
    weight = 0;
    min_weight = min_weight;
    cap = cap;
    mode = mode;
  }

  -- the state that `take_inner` leaves; the batch is the old `buf`
  unfoldable pub take_inner : WeightBatcher TB → WeightBatcher TB × List TB
  take_inner b = (record b { weight = 0; buf = [] }, b.buf)

  -- the test after a push
  unfoldable pub flush_if_full : WeightBatcher TB → Step TB
  unfolding take_inner
  flush_if_full b =
      if leb b.min_weight b.weight || leb b.cap (length b.buf)
      then (let (b', out) = take_inner b in (b', some out))
      else (b, none)

  unfoldable pub flush : WeightBatcher TB → Option (Step TB)
  unfolding take_inner
  flush b = elim b.mode [
    | immediate ↦ some (b, none)
    | deferred ↦ elim b.buf [
      | [] ↦ some (b, none)
      | x ∷ xs ↦ let (b', out) = take_inner b in some (b', some out)
    ]
    | unsupported ↦ none
  ]

  unfoldable pub len : WeightBatcher TB → Option ℕ
  len b = elim b.mode [ immediate ↦ some 0 | deferred ↦ some (length b.buf) | unsupported ↦ none ]

  unfoldable pub is_empty : WeightBatcher TB → Option Bool
  unfolding len
  is_empty b = elim (len b) [ none ↦ none | some n ↦ some (n == 0) ]

module _ {ℓ} {TB : Type ℓ} (weight_of : TB → ℕ) where
  unfoldable pub push_with : TB → WeightBatcher TB → Option (Step TB)
  unfolding flush_if_full
  push_with item b = elim b.mode [
    | immediate ↦ some (b, some (item ∷ []))
    | deferred ↦ some (
        flush_if_full (record b {
          weight = saturating_add usize_max b.weight (weight_of item);
          buf = b.buf ++ item ∷ [];
        }))
    | unsupported ↦ none
  ]

  -- The batches of a run: those that `push_with` returns, and the one that `flush` returns at the
  -- end (`sort` in chain/src/syncer.rs).
  unfoldable pub batches : List TB → WeightBatcher TB → Option (List (List TB))
  batches [] b = elim (flush b) [
    | none ↦ none
    | some (b', out) ↦ elim out [ none ↦ some [] | some tail ↦ some (tail ∷ []) ]
  ]
  batches (item ∷ items) b = elim (push_with item b) [
    | none ↦ none
    | some (b', out) ↦ elim (batches items b') [
      | none ↦ none
      | some later ↦ elim out [ none ↦ some later | some batch ↦ some (batch ∷ later) ]
    ]
  ]
