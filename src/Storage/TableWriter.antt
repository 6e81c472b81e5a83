-- ===== src/Storage/TableWriter.antt =====
-- redbit/src/storage/table_writer.rs: `ShardedTableWriter`, by what it sends to the writer threads of
-- its shards through its router. A reply channel is the number of the shard; the reply that comes
-- through it is a parameter, `none` if the thread is gone. `none` as a result is an error or a panic.
pub mod Flushing
mod Tests
use redbit.Prelude.{
  ℕ, zero, suc, ◌+◌, Bool, true, false, Option, none, some, List, [], ◌∷◌, ◌++◌, if◌then◌else◌, ltb,
}
use redbit.Storage.PlainTable.{◌>>=◌}
use redbit.Storage.WriterApi.{AppError, TxDurability, WriterCommand, TaskResult, sum}
use redbit.Storage.Router.{
  Partitioning, Sent, is_nil, nothing_sent, then_send, send_each, write_sorted_inserts_on_flush,
  write_insert_now,
}

pub record TableWriter (K V : Type 0) : Type 0 where
  pub root_pk : Bool
  pub shards : ℕ
  pub part : Partitioning K V
  pub deferred : Bool
  pub sync_buf : List (K × V)

-- `FlushFuture`, by its shard: the flush is sent already, or will be when it is waited for.
pub data FlushFuture : Type 0 where
  eager : ℕ → FlushFuture
  lazy : ℕ → FlushFuture

abbrev pub futures_from : (ℕ → FlushFuture) → ℕ → ℕ → List FlushFuture
futures_from future sid zero = []
futures_from future sid (suc n) = future sid ∷ futures_from future (suc sid) n

module _ {K V : Type 0} where
  unfoldable pub new : Bool → ℕ → Partitioning K V → Bool → TableWriter K V
  new root_pk shards part deferred = record {
    root_pk = root_pk;
    shards = shards;
    part = part;
    deferred = deferred;
    sync_buf = [];
  }

  -- The router is handed out for deferred insertions.
  unfoldable pub acquire_router : TableWriter K V → TableWriter K V
  acquire_router w = record w { deferred = true }

  unfoldable pub insert_on_flush : K → V → TableWriter K V → TableWriter K V
  insert_on_flush key value w = record w { sync_buf = w.sync_buf ++ (key, value) ∷ [] }

  -- The command that a flush sends to a shard.
  abbrev pub flush_command : TableWriter K V → ℕ → WriterCommand K V
  flush_command w sid =
      if w.deferred then WriterCommand.flush_when_ready sid else WriterCommand.flush sid

module _ {K V : Type 0} (receives : ℕ → Bool) where
  unfoldable pub insert_now : K → V → TableWriter K V → Option (Sent K V)
  insert_now key value w = write_insert_now receives w.shards w.part key value

  unfoldable pub begin_async : TxDurability → TableWriter K V → Sent K V
  begin_async durability w =
      send_each receives (λ sid. WriterCommand.begin sid durability) 0 w.shards

  -- The loop of `begin`, which waits for each reply, but not for what it says.
  unfoldable pub begin_from :
      (ℕ → Option (Option AppError)) → TxDurability → ℕ → ℕ → TableWriter K V → Sent K V
  begin_from reply durability sid zero w = nothing_sent
  begin_from reply durability sid (suc n) w =
      let sent = send_each receives (λ i. WriterCommand.begin i durability) sid 1 in
      let rest = begin_from reply durability (suc sid) n w in
      elim (reply sid) [ none ↦ record sent { is_ok = false } | some _ ↦ then_send sent rest ]

  unfoldable pub begin : (ℕ → Option (Option AppError)) → TxDurability → TableWriter K V → Sent K V
  begin reply durability w = begin_from reply durability 0 w.shards w

  -- What was kept for the flush goes to the shards first.
  unfoldable pub send_sync_buf : TableWriter K V → Option (Sent K V)
  send_sync_buf w =
      if is_nil w.sync_buf
      then some nothing_sent
      else write_sorted_inserts_on_flush receives w.shards w.part w.sync_buf

  unfoldable pub flush_async :
      TableWriter K V → Option (TableWriter K V × Sent K V × List FlushFuture)
  flush_async w = do
    sent ← send_sync_buf w
    let w' = record w { sync_buf = [] }
    some (
        if w.root_pk then (w', sent, futures_from FlushFuture.lazy 0 w.shards) else (
          w',
          then_send sent (send_each receives (flush_command w) 0 w.shards),
          futures_from FlushFuture.eager 0 w.shards,
        ))

  -- `FlushFuture::wait` up to its reply.
  unfoldable pub fire : FlushFuture → Sent K V
  fire (FlushFuture.eager sid) = nothing_sent
  fire (FlushFuture.lazy sid) = send_each receives (λ i. WriterCommand.flush i) sid 1

  unfoldable pub shutdown_async : TableWriter K V → Sent K V
  shutdown_async w = send_each receives WriterCommand.shutdown 0 w.shards

module _ {Name : Type 0} where
  -- `max_by_key` of the sums, the last of the largest ones.
  unfoldable pub max_by_sum : TaskResult Name → List (TaskResult Name) → TaskResult Name
  max_by_sum best [] = best
  max_by_sum best (t ∷ tasks) =
      max_by_sum (if ltb (sum t.stats) (sum best.stats) then best else t) tasks

  -- The loop of `flush` that waits for the results of the shards, from one on.
  unfoldable pub wait_all : (ℕ → Option (TaskResult Name)) → ℕ → ℕ → Option (List (TaskResult Name))
  wait_all result sid zero = some []
  wait_all result sid (suc n) = do
    t ← result sid
    tasks ← wait_all result (suc sid) n
    some (t ∷ tasks)

  -- What `flush` returns, once everything is sent.
  unfoldable pub flush_result : (ℕ → Option (TaskResult Name)) → ℕ → Option (TaskResult Name)
  flush_result result n = do
    tasks ← wait_all result 0 n
    elim tasks [ [] ↦ none | t ∷ rest ↦ some (max_by_sum t rest) ]

module _ {K V Name : Type 0} (receives : ℕ → Bool) where
  -- The table afterwards, what was sent, and the result of the shard that wrote the most.
  unfoldable pub flush :
      (ℕ → Option (TaskResult Name))
      → TableWriter K V
      → Option (TableWriter K V × Sent K V × Option (TaskResult Name))
  flush result w = do
    sent ← send_sync_buf receives w
    let all = then_send sent (send_each receives (flush_command w) 0 w.shards)
    some (
      record w { sync_buf = [] },
      all,
      (if all.is_ok then flush_result result w.shards else none),
    )
