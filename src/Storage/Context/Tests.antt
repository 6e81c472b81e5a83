-- ===== src/Storage/Context/Tests.antt =====
-- A context of a table with two shards, one with root keys, and a context between them of one table.
use redbit.Prelude.{ℕ, ◌≡◌, refl, ◌⊎◌, ◌==◌, Bool, true, none, some, [], ◌∷◌, if◌then◌else◌, Option}
use redbit.Prelude.Equality.{nat_eq}
use redbit.Storage.WriterApi.{WriterCommand, TaskResult}
use redbit.Storage.Router.{Partitioning, fast_send, send_each}
use redbit.Storage.TableWriter.{TableWriter, send_sync_buf, flush_async, fire}
use redbit.Storage.Context.{
  WriterRefs, Event, commit_with_ref, commit_ctx_async, wait, wait_each, two_phase_commit,
}
use redbit.Storage.Context.Runs.{IsNoRootFlush, acks_of}
use redbit.Storage.Context.Collecting.{tables, all_shards}
use redbit.Storage.Context.Waiting.{Phased}
use redbit.Storage.Context.Phases.{two_phase_commit_lem}

abbrev Numbers : ℕ → Type 0
Numbers t = ℕ

abbrev writer : (t : ℕ) → TableWriter (Numbers t) (Numbers t)
writer t = record {
  root_pk = t == 0;
  shards = if t == 1 then 2 else 1;
  part = Partitioning.by_key (λ k. 0);
  deferred = t == 2;
  sync_buf = [];
}

abbrev receives : ℕ → ℕ → Bool
receives t sid = true

abbrev result : ℕ → ℕ → Option (TaskResult ℕ)
result t sid = some (record {
  name = t;
  stats = record { collect_took = 1; sort_took = 2; write_took = 3; flush_took = sid };
})

abbrev refs : WriterRefs ℕ
refs =
    WriterRefs.table 1
      (WriterRefs.context (WriterRefs.table 2 WriterRefs.done) (WriterRefs.table 0 WriterRefs.done))

-- The last shard asked is the one of the table with root keys.
log_ends_with_root :
    (two_phase_commit {K = Numbers} {V = Numbers} writer receives result nat_eq refs).log
    ≡ Event.sends 1 (0, WriterCommand.flush 0)
      ∷ Event.sends 1 (1, WriterCommand.flush 1)
      ∷ Event.sends 2 (0, WriterCommand.flush_when_ready 0)
      ∷ Event.acks 1 0
      ∷ Event.acks 1 1
      ∷ Event.acks 2 0
      ∷ Event.sends 0 (0, WriterCommand.flush 0)
      ∷ Event.acks 0 0
      ∷ []
unfolding two_phase_commit commit_ctx_async commit_with_ref wait_each wait flush_async send_sync_buf
    fire send_each fast_send
log_ends_with_root = refl

-- A table that fails keeps the one with root keys from being asked.
log_of_failure :
    (two_phase_commit {K = Numbers} {V = Numbers} writer receives
      (λ t sid. if t == 2 then none else result t sid)
      nat_eq
      refs).log
    ≡ Event.sends 1 (0, WriterCommand.flush 0)
      ∷ Event.sends 1 (1, WriterCommand.flush 1)
      ∷ Event.sends 2 (0, WriterCommand.flush_when_ready 0)
      ∷ Event.acks 1 0
      ∷ Event.acks 1 1
      ∷ []
unfolding two_phase_commit commit_ctx_async commit_with_ref wait_each wait flush_async send_sync_buf
    fire send_each fast_send
log_of_failure = refl

two_phase_commit_lem_example :
    Phased {K = Numbers} {V = Numbers}
      (IsNoRootFlush writer)
      (all_shards writer (1 ∷ 2 ∷ []))
      (two_phase_commit writer receives result nat_eq refs).log
    × (((two_phase_commit {K = Numbers} {V = Numbers} writer receives result nat_eq refs).outcome
          ≡ none)
        ⊎ (acks_of
              (two_phase_commit {K = Numbers} {V = Numbers} writer receives result nat_eq refs).log
            ≡ all_shards writer (tables refs)))
two_phase_commit_lem_example =
    two_phase_commit_lem writer receives result nat_eq refs (1 ∷ 2 ∷ []) (0 ∷ []) refl
      (refl, (refl, tt))
