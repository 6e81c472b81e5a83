-- ===== src/Chain/Syncer/Plan.antt =====
-- The plan of `ChainSyncer::sync` in chain/src/syncer.rs: what to fetch, and how to persist it.
-- `u32` subtractions wrap as in a release build (a debug build panics instead).
use redbit.Prelude.{
  ℕ, ◌+◌, ◌-◌, ◌%◌, ◌≤◌, ◌<◌, ◌≡◌, Bool, false, Option, none, some, arith, ltb, if◌then◌else◌,
  u32_mod, u32_max, ◌↔◌,
}
use redbit.Chain.WeightBatcher.{Durability, immediate, deferred}

-- `a - b` on `u32`
abbrev pub wrapping_sub : ℕ → ℕ → ℕ
wrapping_sub a b = (a + u32_mod - b) % u32_mod

pub record Plan : Type 0 where
  pub height_to_index_from : ℕ
  pub heights_to_fetch : ℕ
  pub fork_detection_height : ℕ
  pub batching : Bool
  pub default_durability : Durability

-- `last_persisted_header.map_or(1, |h| h.height() + 1)`
unfoldable pub index_from : Option ℕ → ℕ
index_from none = 1
index_from (some h) = (h + 1) % u32_mod

-- `last_persisted_header.map_or(0, |h| h.height())`
unfoldable pub last_height : Option ℕ → ℕ
last_height none = 0
last_height (some h) = h

-- The plan for the node's tip, the last persisted height and `fork_detection_heights`, or nothing
-- to do.
unfoldable pub plan : ℕ → Option ℕ → ℕ → Option Plan
unfolding index_from last_height
plan tip last fork_detection_heights =
    let to_fetch = wrapping_sub tip (last_height last) in
    let batch = ltb fork_detection_heights to_fetch in
    if ltb to_fetch 1
    then none
    else some (record {
      height_to_index_from = index_from last;
      heights_to_fetch = to_fetch;
      fork_detection_height = wrapping_sub tip fork_detection_heights;
      batching = batch;
      default_durability = if batch then deferred else immediate;
    })

-- With a persisted header whose height is at most the tip, heights of fork detection at most the tip,
-- and a tip below the largest `u32`: a plan fetches the heights after the last persisted one up to the tip, at least one,
-- its fork detection height is that many heights below the tip, and if it does not batch, every
-- height that it fetches is above its fork detection height.
pub plan_lem :
    (tip last fork_detection_heights : ℕ) (p : Plan)
    → tip < u32_max
    → last ≤ tip
    → fork_detection_heights ≤ tip
    → plan tip (some last) fork_detection_heights ≡ some p
    → (last < tip)
      × (p.height_to_index_from ≡ last + 1)
      × (p.height_to_index_from + p.heights_to_fetch ≡ tip + 1)
      × (p.fork_detection_height + fork_detection_heights ≡ tip)
      × (p.batching ≡ false → p.fork_detection_height < p.height_to_index_from)
unfolding plan
plan_lem tip last k p small le le' h = ground arith

-- With the last persisted height at or below the tip and in range, there is no plan exactly when
-- the tip is persisted.
pub plan_done :
    (tip last fork_detection_heights : ℕ)
    → tip < u32_max
    → last ≤ tip
    → (plan tip (some last) fork_detection_heights ≡ none) ↔ (last ≡ tip)
unfolding plan
plan_done tip last k small le = (λ h. ground arith, λ e. ground arith)

-- While the chain of the node is shorter than the heights of fork detection, the fork detection
-- height wraps round to a height above the tip.
pub plan_wraps :
    (tip fork_detection_heights : ℕ) (last : Option ℕ) (p : Plan)
    → tip < fork_detection_heights
    → fork_detection_heights < 256
    → plan tip last fork_detection_heights ≡ some p
    → tip < p.fork_detection_height
unfolding plan
plan_wraps tip k last p low byte h = ground arith
