-- ===== src/Chain/ReorderBuffer.antt =====
-- chain/src/reorder_buffer.rs: `ReorderBuffer<TB>`, which releases blocks in the order of their
-- heights. Heights are `u32`, and `next_height += 1` wraps as in a release build. The hash map
-- `pending` is an association list; `insert` returns the new buffer beside the released blocks.
pub mod Drain
pub mod Delivery
pub mod Agreement
pub mod Gap
mod Tests
use redbit.Prelude.{
  ℕ, zero, suc, ◌≤◌, Bool, Option, none, some, List, [], ◌∷◌, ◌++◌, ltb, leb, length, if◌then◌else◌,
  u32_max, saturating_add, wrapping_inc,
}
use redbit.Prelude.Assoc.{get, put, without}

pub record ReorderBuffer {ℓ} (TB : Type ℓ) : Type ℓ where
  pub next_height : ℕ
  pub pending : List (ℕ × TB)
  pub max_buffer_hint : ℕ
  pub max_seen : Option ℕ
  pub dropped_too_low : ℕ

-- the `match` on `self.max_seen`
unfoldable pub see : Option ℕ → ℕ → Option ℕ
see none height = some height
see (some ms) height = if ltb ms height then some height else some ms

module _ {ℓ} {TB : Type ℓ} where
  unfoldable pub new : ℕ → ℕ → ReorderBuffer TB
  new start_lower_bound max_buffer_hint = record {
    next_height = start_lower_bound;
    pending = [];
    max_buffer_hint = max_buffer_hint;
    max_seen = none;
    dropped_too_low = 0;
  }

  -- `while let Some(b) = self.pending.remove(&self.next_height)`: the released blocks, the next
  -- height and what stays pending. Every round takes an entry out, so the number of entries is
  -- fuel enough.
  unfoldable pub drain : ℕ → ℕ → List (ℕ × TB) → List TB × ℕ × List (ℕ × TB)
  drain zero next pending = ([], next, pending)
  drain (suc fuel) next pending = elim (get next pending) [
    | none ↦ ([], next, pending)
    | some b ↦
        let (ready, next', pending') = drain fuel (wrapping_inc next) (without next pending) in
        (b ∷ ready, next', pending')
  ]

  -- the `match` on `self.pending.entry(height)`: first come wins
  unfoldable pub admit : ℕ → TB → List (ℕ × TB) → List (ℕ × TB)
  admit height block pending = elim (get height pending) [
    | none ↦ put height block pending
    | some _ ↦ pending
  ]

  -- the loop, run on a buffer
  unfoldable pub release : ReorderBuffer TB → ReorderBuffer TB × List TB
  release r =
      let (ready, next', pending') = drain (length r.pending) r.next_height r.pending in
      (record r { next_height = next'; pending = pending' }, ready)

  unfoldable pub insert : ℕ → TB → ReorderBuffer TB → ReorderBuffer TB × List TB
  insert height block r =
      if ltb height r.next_height
      then (record r { dropped_too_low = saturating_add u32_max r.dropped_too_low 1 }, [])
      else release
          (record r { max_seen = see r.max_seen height; pending = admit height block r.pending })

  unfoldable pub pending_len : ReorderBuffer TB → ℕ
  pending_len r = length r.pending

  unfoldable pub is_saturated : ReorderBuffer TB → Bool
  is_saturated r = leb r.max_buffer_hint (length r.pending)

  unfoldable pub gap_span : ReorderBuffer TB → Option (ℕ × ℕ)
  gap_span r = elim r.max_seen [
    | none ↦ none
    | some ms ↦ if leb r.next_height ms then some (r.next_height, ms) else none
  ]

  -- A run of the buffer: the arrivals one after the other, the releases joined.
  unfoldable pub feed : List (ℕ × TB) → ReorderBuffer TB → ReorderBuffer TB × List TB
  feed [] r = (r, [])
  feed ((height, block) ∷ arrivals) r =
      let (r', ready) = insert height block r in
      let (r'', later) = feed arrivals r' in (r'', ready ++ later)
