-- ===== src/Chain/SizeBatcher.antt =====
-- chain/src/size_batcher.rs: `SizeBatcher<T>`, which groups items by their bytes. `T::size()` is the
-- parameter `size`. An operation returns the new state beside its result.
pub mod Batches
mod Tests
use redbit.Prelude.{
  ℕ, ◌*◌, ◌%◌, ◌^◌, Bool, true, false, ◌||◌, Option, none, some, List, [], ◌∷◌, ◌++◌, ltb,
  if◌then◌else◌, usize_max, saturating_add,
}

pub record SizeBatcher {ℓ} (T : Type ℓ) : Type ℓ where
  pub byte_limit : ℕ
  pub buf : List T
  pub bytes : ℕ
  pub immediate : Bool

-- `Vec::is_empty`
abbrev pub is_empty {ℓ} : {A : Type ℓ} → List A → Bool
is_empty [] = true
is_empty (x ∷ xs) = false

module _ {ℓ} {T : Type ℓ} where
  unfoldable pub new : ℕ → Bool → SizeBatcher T
  new byte_limit immediate = record {
    byte_limit = byte_limit;
    buf = [];
    bytes = 0;
    immediate = immediate;
  }

  unfoldable pub from_kb : ℕ → Bool → SizeBatcher T
  unfolding new
  from_kb kb_limit immediate = new ((kb_limit * 1024) % 2 ^ 64) immediate

  unfoldable pub take_all : SizeBatcher T → SizeBatcher T × Option (List T)
  take_all s =
      if s.immediate || is_empty s.buf
      then (s, none)
      else (record s { buf = []; bytes = 0 }, some s.buf)

module _ {ℓ} {T : Type ℓ} (size : T → ℕ) where
  unfoldable pub push : T → SizeBatcher T → SizeBatcher T × Option (List T)
  push item s =
      if s.immediate
      then (s, some (item ∷ []))
      else let projected = saturating_add usize_max s.bytes (size item) in
        if ltb s.byte_limit projected
        then (if is_empty s.buf
            then (s, some (item ∷ []))
            else (record s { bytes = size item; buf = item ∷ [] }, some s.buf))
        else (record s { bytes = projected; buf = s.buf ++ item ∷ [] }, none)

  -- The batches that `block_stream` sends for a stream of items: those that `push` returns, and
  -- at the end the one that `take_all` returns.
  unfoldable pub batches : List T → SizeBatcher T → List (List T)
  batches [] s = elim (take_all s).1 [ none ↦ [] | some tail ↦ tail ∷ [] ]
  batches (item ∷ items) s =
      let (s', out) = push item s in
      let later = batches items s' in elim out [ none ↦ later | some batch ↦ batch ∷ later ]
