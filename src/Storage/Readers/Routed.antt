-- ===== src/Storage/Readers/Routed.antt =====
-- What the look-ups find of entries that were written to the shards of a router.
use redbit.Prelude.{
  ℕ, suc, ◌+◌, ◌<◌, ◌≡◌, refl, sym, ap, ap₂, ◌∙◌, Bool-cases, Bool, true, false, inl, inr, ◌==◌,
  ==_iff, Option, some, List, [], ◌∷◌, if◌then◌else◌, length, get_elem?, arith,
}
use mathlib.Core.Option.{some_inj, none-ne-some}
use mathlib.Core.Bool.{false≢true}
use redbit.Prelude.Equality.{Eq}
use redbit.Storage.Redb.{Table, IsMap}
use redbit.Storage.Redb.Views.{not-same}
use redbit.Prelude.Order.{KeyOrder}
use mathlib.Core.List.{Memᴰ}
use redbit.Storage.SortBuffer.Levels.{MergeBuffer, from_sorted, new}
use redbit.Storage.SortBuffer.Reduction.{take_sorted, runs_of}
use redbit.Storage.PlainTable.Strict.{sorted-rest, sorted-below, sorted-cons, sorted-accepted}
use redbit.Storage.PlainTable.{◌>>=◌, is_sorted_by_key, insert_many_sorted_by_key}
use redbit.Storage.PlainTable.Contents.{written, insert_pairs_lem}
use redbit.Storage.Router.{shard_of, Partitioning}
use redbit.Storage.Router.Buckets.{keep, get_elem?-lt}
use redbit.Storage.Router.Delivery.{index_cases}
use redbit.Storage.Readers.{select_shard, plain_get_value}

-- With one shard every key is its.
select_lem :
    {A S : Type 0} (f : A → ℕ) (shards : List S) (a : A)
    → f a < length shards
    → select_shard f shards a ≡ get_elem? shards (f a)
select_lem f shards a below = elim (Bool-cases (length shards == 1)) [
  | inl one ↦
      let e : 0 ≡ f a = omega (arith, below, (==_iff (length shards) 1).0 one) in
      rw (one) (ap (get_elem? shards) e)
  | inr more ↦ rw (more) refl
]

module _ {K V : Type 0} (keys : Eq K) (f : K → ℕ) where
  -- The entries of a shard are all that is written to its keys.
  written-keep :
      (pairs : List (K × V)) (k : K) (old : Option V)
      → written keys (keep (shard_of (Partitioning.by_key f)) (f k) pairs) k old
        ≡ written keys pairs k old
  written-keep [] k old = refl
  written-keep ((j, v) ∷ pairs) k old = elim (Bool-cases (f j == f k)) [
    | inl here ↦ rw (here) (written-keep pairs k (if keys.same j k then some v else old))
    | inr other ↦
        let apart : keys.same j k ≡ false =
          not-same keys (λ e. false≢true (sym other ∙ (==_iff (f j) (f k)).1 (ap f e))) in
        rw (other, apart) (written-keep pairs k old)
  ]

module _ {K V : Type 0} (order : KeyOrder K) (shard : K × V → ℕ) (i : ℕ) where
  keep-Mem : (pairs : List (K × V)) {p : K × V} → Memᴰ p (keep shard i pairs) → Memᴰ p pairs
  keep-Mem [] m = m
  keep-Mem (q ∷ pairs) {p} m = elim (Bool-cases (shard q == i)) [
    | inl here ↦
        let m' : Memᴰ p (q ∷ keep shard i pairs) = rw (here) at m in
        elim m' [ Memᴰ.head e ↦ Memᴰ.head e | Memᴰ.tail m'' ↦ Memᴰ.tail (keep-Mem pairs m'') ]
    | inr other ↦
        let m' : Memᴰ p (keep shard i pairs) = rw (other) at m in Memᴰ.tail (keep-Mem pairs m')
  ]

  -- The entries of a shard are sorted as all are.
  sorted-keep :
      (pairs : List (K × V))
      → is_sorted_by_key order pairs ≡ true
      → is_sorted_by_key order (keep shard i pairs) ≡ true
  sorted-keep [] sorted = sorted
  sorted-keep ((k, v) ∷ pairs) sorted =
      let rest = sorted-keep pairs (sorted-rest order (k, v) pairs sorted) in
      elim (Bool-cases (shard (k, v) == i)) [
        | inl here ↦ rw (here) (
            sorted-cons order k v (keep shard i pairs)
              (λ j w m. sorted-below order k v pairs sorted (keep-Mem pairs m)) rest)
        | inr other ↦ rw (other) rest
      ]

-- A buffer made of a run gives it back.
take_sorted-from_sorted :
    {K V : Type 0} (order : KeyOrder K) (run : List (K × V))
    → (b : MergeBuffer K V) × (take_sorted order (from_sorted run) ≡ some (b, run))
unfolding take_sorted from_sorted new runs_of
take_sorted-from_sorted order [] = (record { levels = [] }, refl)
take_sorted-from_sorted order (e ∷ run) = (record { levels = [] }, refl)

module _ {K V : Type 0} {keys : Eq K} (T : Table K V) (laws : IsMap keys T) (cfg_test : Bool)
    (order : KeyOrder K) (f : K → ℕ) (pairs : List (K × V)) where
  -- Each shard from one on writes the entries that the router sends it, as its thread does: it makes a
  -- buffer of them, which a flush takes and writes.
  abbrev pub write_shards : ℕ → List T.State → Option (List T.State)
  write_shards i [] = some []
  write_shards i (s ∷ shards) = do
    (_, kvs) ← take_sorted order (from_sorted (keep (shard_of (Partitioning.by_key f)) i pairs))
    s' ← insert_many_sorted_by_key T cfg_test order kvs s
    shards' ← write_shards (suc i) shards
    some (s' ∷ shards')

  write_shard_lem :
      (run : List (K × V)) (s : T.State)
      → is_sorted_by_key order run ≡ true
      → (s' : T.State) × (insert_many_sorted_by_key T cfg_test order run s ≡ some s')
        × ((k : K) → laws.view s' k ≡ written keys run k (laws.view s k))
  unfolding insert_many_sorted_by_key
  write_shard_lem run s sorted =
      rw (insert_many_sorted_by_key, sorted-accepted order cfg_test run sorted)
        (insert_pairs_lem keys T laws run s)

  write_shards_lem :
      (i : ℕ) (shards : List T.State)
      → is_sorted_by_key order pairs ≡ true
      → (shards' : List T.State) × (write_shards i shards ≡ some shards')
        × (length shards' ≡ length shards)
        × ((j : ℕ) (s : T.State)
            → get_elem? shards j ≡ some s
            → (s' : T.State) × (get_elem? shards' j ≡ some s')
              × ((k : K)
                  → laws.view s' k
                    ≡ written keys
                        (keep (shard_of (Partitioning.by_key f)) (i + j) pairs)
                        k
                        (laws.view s k)))
  write_shards_lem i [] sorted = ([], refl, refl, λ j s h. absurd (none-ne-some s h))
  write_shards_lem i (s ∷ shards) sorted =
      let run = keep (shard_of (Partitioning.by_key f)) i pairs in
      let (b, taken) = take_sorted-from_sorted order run in
      let (s', done, after) =
        write_shard_lem run s
          (sorted-keep order (shard_of (Partitioning.by_key f)) i pairs sorted) in
      let (shards', done', long, at) = write_shards_lem (suc i) shards sorted in
      rw (taken, done, done')
        (
          s' ∷ shards',
          refl,
          ap suc long,
          λ j t h.
              index_cases j
                (λ e.
                  let front : i ≡ i + j = omega (arith, e) in
                  (
                    s',
                    ap (get_elem? (s' ∷ shards')) e,
                    λ k.
                        after k
                        ∙ ap₂
                            (λ n u.
                              written keys (keep (shard_of (Partitioning.by_key f)) n pairs) k
                                (laws.view u k))
                            front (some_inj.0 (ap (get_elem? (s ∷ shards)) (sym e) ∙ h)),
                  ))
                (λ m e.
                  let behind : suc i + m ≡ i + j = omega (arith, e) in
                  let (u, at_u, view) = at m t (ap (get_elem? (s ∷ shards)) (sym e) ∙ h) in
                  (
                    u,
                    ap (get_elem? (s' ∷ shards')) e ∙ at_u,
                    λ k.
                        view k
                        ∙ ap
                            (λ n.
                              written keys (keep (shard_of (Partitioning.by_key f)) n pairs) k
                                (laws.view t k))
                            behind,
                  )),
        )

  -- While redb has no error: after each shard has written the entries of a batch, sorted by key, that
  -- the router sends it, from the buffer that its thread makes of them, whether or not the test for
  -- that order is compiled in, the look-up of a key finds what the entry with it wrote, and without one what it found before.
  pub plain_get_value-written :
      (shards : List T.State)
      → is_sorted_by_key order pairs ≡ true
      → ((k : K) → f k < length shards)
      → (shards' : List T.State) × (write_shards 0 shards ≡ some shards')
        × ((k : K)
            → (old : Option V) × (plain_get_value T f shards k ≡ some old)
              × (plain_get_value T f shards' k ≡ some (written keys pairs k old)))
  unfolding plain_get_value
  plain_get_value-written shards sorted below =
      let (shards', done, long, at) = write_shards_lem 0 shards sorted in
      (
        shards',
        done,
        λ k.
            let (s, at_s) = get_elem?-lt shards (f k) (below k) in
            let (s', at_s', view) = at (f k) s at_s in
            let own : 0 + f k ≡ f k = omega arith in
            (
              laws.view s k,
              rw (plain_get_value, select_lem f shards k (below k), at_s) (laws.get_ok s k),
              rw (plain_get_value, select_lem f shards' k (omega (arith, below k, long)), at_s')
                  (laws.get_ok s' k
                    ∙ ap some (
                        view k
                        ∙ ap
                            (λ n.
                              written keys (keep (shard_of (Partitioning.by_key f)) n pairs) k
                                (laws.view s k))
                            own
                        ∙ written-keep keys f pairs k (laws.view s k))),
            ),
      )
