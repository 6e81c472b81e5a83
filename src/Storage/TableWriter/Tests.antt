-- ===== src/Storage/TableWriter/Tests.antt =====
-- A table of three shards, whose router was handed out, with two entries for its flush.
use redbit.Prelude.{
  ℕ, ◌<◌, ◌%◌, ◌≡◌, refl, Bool, true, false, none, some, [], ◌∷◌, ◌++◌, if◌then◌else◌, arith,
}
use redbit.Storage.WriterApi.{AppError, TxDurability, WriterCommand}
use redbit.Storage.Router.{Partitioning, Sent, shard_of, fast_send, send_each}
use redbit.Storage.Router.Buckets.{keep}
use redbit.Storage.Router.Delivery.{inbox}
use redbit.Storage.Router.Routes.{unless_empty}
use redbit.Storage.TableWriter.{
  TableWriter, FlushFuture, new, acquire_router, insert_on_flush, flush_command, futures_from,
  flush_async, fire, begin, begin_from,
}
use redbit.Storage.TableWriter.Flushing.{flush_async_lem}

abbrev table : TableWriter ℕ ℕ
table = record {
  root_pk = false;
  shards = 3;
  part = Partitioning.by_key (λ k. k % 3);
  deferred = true;
  sync_buf = (4, 0) ∷ (6, 1) ∷ [];
}

abbrev all_receive : ℕ → Bool
all_receive sid = true

insertions_make_table :
    insert_on_flush 6 1 (insert_on_flush 4 0 (acquire_router (new false 3 table.part false)))
    ≡ table
unfolding insert_on_flush acquire_router new
insertions_make_table = refl

wait_sends_flush :
    fire {K = ℕ} {V = ℕ} all_receive (FlushFuture.lazy 2)
    ≡ record { messages = (2, WriterCommand.flush 2) ∷ []; is_ok = true }
unfolding fire send_each fast_send
wait_sends_flush = refl

-- A shard that could not begin its transaction is not noticed.
begin_drops_errors :
    begin all_receive (λ sid. some (some AppError.begin_failed)) TxDurability.durable table
    ≡ begin all_receive (λ sid. some none) TxDurability.durable table
unfolding begin begin_from
begin_drops_errors = refl

flush_async_lem_example :
    (sent : Sent ℕ ℕ) × (flush_async all_receive table
      ≡ some (
        record table { sync_buf = [] },
        sent,
        futures_from (if table.root_pk then FlushFuture.lazy else FlushFuture.eager) 0 3,
      ))
    × (sent.is_ok ≡ true)
    × ((i : ℕ)
        → i < 3
        → inbox i sent.messages
          ≡ unless_empty WriterCommand.write_sorted_inserts_on_flush
              (keep (shard_of table.part) i table.sync_buf)
            ++ (if table.root_pk then [] else flush_command table i ∷ []))
flush_async_lem_example =
    flush_async_lem all_receive (λ sid. refl) table (omega arith) (omega arith, (omega arith, tt))
