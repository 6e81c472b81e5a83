-- ===== src/Storage/Router.antt =====
-- redbit/src/storage/router.rs: `ShardedRouter`, which sends the commands of a table to the writer
-- threads of its shards, as the messages it sends, each with its shard, and whether it could send
-- them all. The partitioner is a function into shards, and which threads still receive is a
-- parameter; what is not Full is sent at once. `none` is a panic, of a shard that is not there, or of
-- no shards at all. The reply to a removal comes from the shard's thread, a parameter; reply channels
-- and sinks are numbers.
pub mod Buckets
pub mod Delivery
pub mod Routes
mod Tests
use redbit.Prelude.{
  ℕ, zero, suc, ◌+◌, Bool, true, false, not, ◌&&◌, ◌==◌, ltb, Option, none, some, List, [], ◌∷◌,
  ◌++◌, if◌then◌else◌, get_elem?, set, replicate,
}
use redbit.Storage.PlainTable.{◌>>=◌}
use redbit.Storage.WriterApi.{WriterCommand}

-- `Partitioning`, with the partitioner's function.
pub data Partitioning (K V : Type 0) : Type 0 where
  by_key : (K → ℕ) → Partitioning K V
  by_value : (V → ℕ) → Partitioning K V

-- The messages sent, each with its shard, and whether nothing failed.
pub record Sent (K V : Type 0) : Type 0 where
  pub messages : List (ℕ × WriterCommand K V)
  pub is_ok : Bool

abbrev pub is_nil : {A : Type 0} → List A → Bool
is_nil [] = true
is_nil (_ ∷ _) = false

module _ {K V : Type 0} where
  abbrev pub nothing_sent : Sent K V
  nothing_sent = record { messages = []; is_ok = true }

  -- `?`: what follows is done only if nothing failed.
  abbrev pub then_send : Sent K V → Sent K V → Sent K V
  then_send s s' =
      if s.is_ok then record { messages = s.messages ++ s'.messages; is_ok = s'.is_ok } else s

  abbrev pub shard_of : Partitioning K V → K × V → ℕ
  shard_of (Partitioning.by_key f) (k, v) = f k
  shard_of (Partitioning.by_value f) (k, v) = f v

module _ {A : Type 0} where
  -- `buckets[sid].push(p)`
  abbrev pub push_to : ℕ → A → List (List A) → Option (List (List A))
  push_to sid p buckets = do
    bucket ← get_elem? buckets sid
    some (set buckets sid (bucket ++ p ∷ []))

  -- The loops that fill the buckets.
  unfoldable pub fill : (A → ℕ) → List A → List (List A) → Option (List (List A))
  fill shard [] buckets = some buckets
  fill shard (p ∷ pairs) buckets = do
    buckets' ← push_to (shard p) p buckets
    fill shard pairs buckets'

  -- `n` empty buckets, filled.
  unfoldable pub bucket : ℕ → (A → ℕ) → List A → Option (List (List A))
  bucket n shard pairs = fill shard pairs (replicate n [])

  -- `values.into_iter().enumerate()`
  abbrev pub enumerate_from : ℕ → List A → List (ℕ × A)
  enumerate_from i [] = []
  enumerate_from i (a ∷ xs) = (i, a) ∷ enumerate_from (suc i) xs

module _ {K V : Type 0} (receives : ℕ → Bool) where
  unfoldable pub fast_send : ℕ → WriterCommand K V → Sent K V
  fast_send sid msg =
      if receives sid
      then record { messages = (sid, msg) ∷ []; is_ok = true }
      else record { messages = []; is_ok = false }

  -- The loop over the buckets, from a shard on, which skips those that are not wanted.
  unfoldable pub send_buckets :
      {A : Type 0} → (List A → Bool) → (List A → WriterCommand K V) → ℕ → List (List A) → Sent K V
  send_buckets wanted command sid [] = nothing_sent
  send_buckets wanted command sid (b ∷ buckets) =
      let rest = send_buckets wanted command (suc sid) buckets in
      if wanted b then then_send (fast_send sid (command b)) rest else rest

  -- A loop over the senders that sends each shard a command, from a shard on.
  unfoldable pub send_each : (ℕ → WriterCommand K V) → ℕ → ℕ → Sent K V
  send_each command sid zero = nothing_sent
  send_each command sid (suc n) =
      then_send (fast_send sid (command sid)) (send_each command (suc sid) n)

  unfoldable pub ready_for_flush : ℕ → ℕ → Sent K V
  ready_for_flush n shards = send_each (λ _. WriterCommand.ready_for_flush shards) 0 n

  -- The insertions of `merge_unsorted_inserts` and of `write_sorted_inserts_on_flush`.
  unfoldable pub send_pairs :
      ℕ → Partitioning K V → (List (K × V) → WriterCommand K V) → List (K × V) → Option (Sent K V)
  send_pairs n part command pairs =
      if is_nil pairs
      then some nothing_sent
      else if n == 1
      then some (fast_send 0 (command pairs))
      else do
        buckets ← if n == 0 then none else bucket n (shard_of part) pairs
        some (send_buckets (λ b. not (is_nil b)) command 0 buckets)

  unfoldable pub merge_unsorted_inserts :
      ℕ → Partitioning K V → List (K × V) → Option ℕ → Option (Sent K V)
  merge_unsorted_inserts n part pairs last_shards = do
    sent ← send_pairs n part WriterCommand.merge_unsorted_inserts pairs
    some (elim last_shards [
      | none ↦ sent
      | some from_shards ↦ then_send sent (ready_for_flush n from_shards)
    ])

  unfoldable pub write_sorted_inserts_on_flush :
      ℕ → Partitioning K V → List (K × V) → Option (Sent K V)
  write_sorted_inserts_on_flush n part pairs =
      send_pairs n part WriterCommand.write_sorted_inserts_on_flush pairs

  -- `senders[sid]` is a panic out of range.
  unfoldable pub send_to : ℕ → ℕ → WriterCommand K V → Option (Sent K V)
  send_to n sid msg = if ltb sid n then some (fast_send sid msg) else none

  unfoldable pub write_insert_now : ℕ → Partitioning K V → K → V → Option (Sent K V)
  write_insert_now n part k v =
      if n == 1
      then some (fast_send 0 (WriterCommand.write_insert_now k v))
      else send_to n (shard_of part (k, v)) (WriterCommand.write_insert_now k v)

  -- `query_and_write`; by key with several shards it is an error.
  unfoldable pub query_and_write : ℕ → Partitioning K V → List V → Bool → ℕ → Option (Sent K V)
  query_and_write n part values is_last sink =
      if n == 1
      then some (
          fast_send 0 (
            WriterCommand.query_and_write (if is_last then some 1 else none)
              (enumerate_from 0 values) sink))
      else elim part [
        | Partitioning.by_key f ↦ some (record { messages = []; is_ok = false })
        | Partitioning.by_value f ↦ if is_nil values && not is_last then some nothing_sent else do
          buckets ← bucket n (λ (p : ℕ × V). f p.1) (enumerate_from 0 values)
          some (
              send_buckets (λ b. not (is_nil b && not is_last))
                (λ b. WriterCommand.query_and_write (if is_last then some n else none) b sink) 0
                buckets)
      ]

-- `delete_kv`. A removal asks a shard's thread and waits for its reply; `none` is an error, or the
-- panic of a shard that is not there.
module _ {K : Type 0} (ask : ℕ → K → Option Bool) where
  -- The loop over the shards, which stops at the first one that had the key.
  unfoldable pub ask_from : ℕ → ℕ → K → Option Bool
  ask_from sid zero key = some false
  ask_from sid (suc n) key = do
    had ← ask sid key
    elim had [ true ↦ some true | false ↦ ask_from (suc sid) n key ]

  unfoldable pub delete_kv : {V : Type 0} → ℕ → Partitioning K V → K → Option Bool
  delete_kv n part key = if n == 1 then ask 0 key else elim part [
    | Partitioning.by_key f ↦ ask (f key) key
    | Partitioning.by_value f ↦ ask_from 0 n key
  ]
