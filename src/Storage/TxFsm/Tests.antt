-- ===== src/Storage/TxFsm/Tests.antt =====
-- A writer thread whose table is a log of what was written to it, and which refuses the key 9.
use redbit.Prelude.{ℕ, ◌≡◌, refl, ◌==◌, not, true, false, none, some, List, [], ◌∷◌, ◌++◌, arith}
use mathlib.Core.Bool.{true≢false}
use mathlib.Core.List.{Perm}
use redbit.Prelude.Order.{nat_order}
use redbit.Storage.SortBuffer.Search.{IsSorted}
use redbit.Storage.WriterApi.{AppError, TxDurability, WriterCommand}
use redbit.Storage.TxFsm.{WriteTable, Peers, Outcome, step}
use redbit.Storage.TxFsm.Thread.{Begin, Database, new_state, in_tx, serve}
use redbit.Storage.TxFsm.Acknowledged.{acknowledged}
use redbit.Storage.TxFsm.Commits.{Commits, serve-Commits}
use redbit.Storage.TxFsm.Batching.{one_by_one, in_tx-one_by_one}
use redbit.Storage.TxFsm.Failure.{IsUncommitted, failed-IsUncommitted}
use redbit.Storage.TxFsm.Deferred.{committed, inserted, after_due}
use redbit.Storage.TxFsm.Deferred.Run.{deferred_commit}

abbrev log_table : WriteTable ℕ ℕ
log_table = record {
  State = List (ℕ × ℕ);
  insert_kv = λ k v s. (s ++ (k, v) ∷ [], not (k == 9));
  insert_many_sorted_by_key = λ kvs s. (s ++ kvs, true);
  delete_kv = λ k s. (s, some false);
  get_any_for_index = λ v s. (s, some none);
  range = λ from until s. some s;
}

abbrev everyone : Peers ℕ
everyone = record { listens = λ ack. true; sink = λ id last_shards out. true }

-- Two senders: the request to flush comes before the second is ready.
abbrev deferred_round : List (WriterCommand ℕ ℕ)
deferred_round =
    WriterCommand.merge_unsorted_inserts ((5, 1) ∷ (2, 1) ∷ [])
    ∷ WriterCommand.ready_for_flush 2
    ∷ WriterCommand.flush_when_ready 0
    ∷ WriterCommand.merge_unsorted_inserts ((3, 1) ∷ [])
    ∷ WriterCommand.ready_for_flush 2
    ∷ WriterCommand.shutdown 1
    ∷ []

in_tx-one_by_one_example :
    in_tx log_table nat_order everyone 6 (λ fuel. 2) deferred_round (new_state log_table [])
    ≡ one_by_one log_table nat_order everyone deferred_round (new_state log_table [])
in_tx-one_by_one_example =
    in_tx-one_by_one log_table nat_order everyone 6 (λ fuel. 2) deferred_round
      (new_state log_table []) (omega arith)

deferred_commit_example :
    (out : List (ℕ × ℕ)) × (in_tx log_table nat_order everyone 6
        (λ fuel. 2)
        deferred_round
        (new_state log_table [])
      ≡ committed log_table nat_order everyone 2 0 [] out
          (after_due nat_order 2 0 0 false deferred_round))
    × IsSorted nat_order out
    × Perm out (inserted nat_order 2 0 0 false deferred_round)
deferred_commit_example =
    deferred_commit log_table nat_order everyone 2 0 6 (λ fuel. 2) deferred_round [] (omega arith)
      (
        refl,
        omega arith,
        λ early. (refl, refl, λ early'. (refl, omega arith, λ late. absurd (true≢false late))),
      )
      (omega arith) (omega arith) (omega arith)

write_fails :
    (step log_table nat_order everyone
      (WriterCommand.write_insert_now 9 1)
      (new_state log_table [])).outcome
    ≡ Outcome.errs AppError.table_failed
unfolding step
write_fails = refl

-- A write that fails, and a flush after it.
failed-IsUncommitted_example :
    IsUncommitted
      (in_tx log_table nat_order everyone 2
        (λ fuel. 2)
        (WriterCommand.write_insert_now 9 1 ∷ WriterCommand.flush 0 ∷ [])
        (new_state log_table [])).ending
failed-IsUncommitted_example =
    failed-IsUncommitted log_table nat_order everyone 2 (λ fuel. 2)
      (WriterCommand.write_insert_now 9 1) (WriterCommand.flush 0 ∷ []) (new_state log_table [])
      AppError.table_failed (omega arith) write_fails

-- A database that is the log itself.
abbrev log_database : Database log_table
log_database = record {
  Data = List (ℕ × ℕ);
  begin_write = λ db durability. Begin.opened db;
  commit = λ db table. some table;
}

-- A transaction that commits, and one that a shutdown aborts.
abbrev two_transactions : List (WriterCommand ℕ ℕ)
two_transactions =
    WriterCommand.begin 0 TxDurability.durable
    ∷ WriterCommand.write_insert_now 1 1
    ∷ WriterCommand.flush 7
    ∷ WriterCommand.begin 0 TxDurability.durable
    ∷ WriterCommand.write_insert_now 2 2
    ∷ WriterCommand.shutdown 8
    ∷ []

serve-Commits_example :
    Commits log_database []
      (acknowledged
        (serve log_database nat_order everyone 9 (λ fuel. 2) two_transactions []).replies)
      (serve log_database nat_order everyone 9 (λ fuel. 2) two_transactions []).data_after
serve-Commits_example =
    serve-Commits log_database nat_order everyone 9 (λ fuel. 2) two_transactions []
