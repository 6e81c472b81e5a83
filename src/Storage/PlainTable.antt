-- ===== src/Storage/PlainTable.antt =====
-- redbit/src/storage/table_plain_write.rs: `PlainTable`, a redb table from keys to values. `none` is
-- an error, which ends an operation. Whether the test that the keys are sorted is compiled in, as it is
-- for the tests of the crate alone, is a parameter. The test is of table_writer_api.rs beside it.
pub mod Contents
pub mod Strict
use redbit.Prelude.Order.{KeyOrder, is_less}
use redbit.Prelude.{Bool, true, false, not, ◌&&◌, if◌then◌else◌, Option, none, some, List, [], ◌∷◌}
use redbit.Storage.Redb.{Table}

infixl 5 ◌>>=◌
abbrev pub ◌>>=◌ {ℓ κ} : {A : Type ℓ} {B : Type κ} → Option A → (A → Option B) → Option B
none >>= f = none
some a >>= f = f a

abbrev pub is_some : {A : Type 0} → Option A → Bool
is_some none = false
is_some (some a) = true

-- Each key is less than the next one.
unfoldable pub is_sorted_by_key : {K V : Type 0} → KeyOrder K → List (K × V) → Bool
is_sorted_by_key order [] = true
is_sorted_by_key order (p ∷ []) = true
is_sorted_by_key order ((k, v) ∷ (j, w) ∷ pairs) =
    is_less (order.cmp k j) && is_sorted_by_key order ((j, w) ∷ pairs)

-- `#[cfg(test)]`: a batch that is not sorted is refused.
abbrev pub is_refused : {K V : Type 0} → Bool → KeyOrder K → List (K × V) → Bool
is_refused cfg_test order pairs = cfg_test && not (is_sorted_by_key order pairs)

module _ {K V : Type 0} (T : Table K V) where
  unfoldable pub insert_kv : K → V → T.State → Option T.State
  insert_kv key value t = T.insert t key value

  unfoldable pub insert_pairs : List (K × V) → T.State → Option T.State
  insert_pairs [] t = some t
  insert_pairs ((k, v) ∷ pairs) t = do t' ← T.insert t k v; insert_pairs pairs t'

  unfoldable pub insert_many_sorted_by_key :
      Bool → KeyOrder K → List (K × V) → T.State → Option T.State
  insert_many_sorted_by_key cfg_test order pairs t =
      if is_refused cfg_test order pairs then none else insert_pairs pairs t

  unfoldable pub delete_kv : K → T.State → Option (T.State × Bool)
  delete_kv key t = do (t', removed) ← T.remove t key; some (t', is_some removed)
