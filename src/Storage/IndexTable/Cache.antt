-- ===== src/Storage/IndexTable/Cache.antt =====
-- The optional LRU cache of the index and dictionary tables.
use redbit.Prelude.{◌≡◌, ◌⊎◌, inr, refl, false, Option, none, some}
use mathlib.Core.Option.{none-ne-some}
use redbit.Prelude.Equality.{Eq}
use redbit.Storage.Redb.{Lru, IsCache}
use redbit.Storage.IndexTable.{cache_put, cache_pop, cache_get}

module _ {CK K : Type 0} {keys : Eq CK} {C : Lru CK K} (cached : IsCache keys C) where
  -- What the cache has for a cache key, if there is a cache.
  abbrev pub hit : Option C.State → CK → Option K
  hit none ck = none
  hit (some c) ck = cached.view c ck

  pub put-hit :
      (c : Option C.State) (ck : CK) (k : K) (cj : CK) (j : K)
      → hit (cache_put C ck k c) cj ≡ some j
      → ((ck ≡ cj) × (k ≡ j)) ⊎ (hit c cj ≡ some j)
  put-hit none ck k cj j h = inr h
  put-hit (some c) ck k cj j h = cached.put_view c ck k cj j h

  pub pop-hit :
      (c : Option C.State) (ck cj : CK) (j : K)
      → hit (cache_pop C ck c) cj ≡ some j
      → (keys.same ck cj ≡ false) × (hit c cj ≡ some j)
  pop-hit none ck cj j h = absurd (none-ne-some j h)
  pop-hit (some c) ck cj j h = cached.pop_view c ck cj j h

  -- A look-up has the result of the cache, and the cache keeps its entries.
  pub get-hit : (c : Option C.State) (ck : CK) → (cache_get C ck c).1 ≡ hit c ck
  get-hit none ck = refl
  get-hit (some c) ck = cached.get_result c ck

  pub get-kept : (c : Option C.State) (ck cj : CK) → hit (cache_get C ck c).0 cj ≡ hit c cj
  get-kept none ck cj = refl
  get-kept (some c) ck cj = cached.get_state c ck cj
