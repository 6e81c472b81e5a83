-- ===== src/Storage/WriterApi.antt =====
-- redbit/src/storage/table_writer_api.rs: the commands of a writer thread, what a step of it ends in,
-- and `FlushFuture::dedup_tasks_keep_slowest`. A channel for a reply, and a sink, are numbers; an
-- error is its kind, without its text; the times of a `WriteResult` are left out.
pub mod Slowest
mod Tests
use redbit.Prelude.{
  ℕ, ◌+◌, ◌%◌, Bool, true, false, Option, none, some, List, [], ◌∷◌, if◌then◌else◌, ltb, u128_mod,
}
use redbit.Prelude.Equality.{Eq}

pub data AppError : Type 0 where
  table_failed : AppError
  mixed_inserts : AppError
  flush_pending : AppError
  ack_dropped : AppError
  sink_failed : AppError
  database_closed : AppError
  begin_failed : AppError
  commit_failed : AppError
  aborted : AppError

-- `redb::Durability`
pub data TxDurability : Type 0 where
  durable : TxDurability
  non_durable : TxDurability

pub data WriterCommand (K V : Type 0) : Type 0 where
  begin : ℕ → TxDurability → WriterCommand K V
  write_sorted_inserts_on_flush : List (K × V) → WriterCommand K V
  write_insert_now : K → V → WriterCommand K V
  append_sorted_inserts : List (K × V) → WriterCommand K V
  merge_unsorted_inserts : List (K × V) → WriterCommand K V
  remove : K → ℕ → WriterCommand K V
  query_and_write : Option ℕ → List (ℕ × V) → ℕ → WriterCommand K V
  range : K → K → ℕ → WriterCommand K V
  flush : ℕ → WriterCommand K V
  flush_when_ready : ℕ → WriterCommand K V
  ready_for_flush : ℕ → WriterCommand K V
  shutdown : ℕ → WriterCommand K V

pub record FlushState : Type 0 where
  pub sender : Option ℕ
  pub sum : ℕ
  pub shards : Option ℕ

-- `Control`; of a commit its error, if it has one.
pub data Control : Type 0 where
  continues : Control
  readies : ℕ → Control
  commits : ℕ → Option AppError → Control
  awaits_flush : ℕ → Control
  fails : ℕ → AppError → Control
  shuts_down : ℕ → Control
  finishes : Control

-- What a writer thread sends: the replies to its commands, and the calls of a sink.
pub data Reply (K V : Type 0) : Type 0 where
  begun : ℕ → Option AppError → Reply K V
  removed : ℕ → Bool → Reply K V
  ranged : ℕ → List (K × V) → Reply K V
  flushed : ℕ → Option AppError → Reply K V
  stopped : ℕ → Reply K V
  sunk : ℕ → Option ℕ → List (ℕ × Option K) → Reply K V

pub record TaskStats : Type 0 where
  pub collect_took : ℕ
  pub sort_took : ℕ
  pub write_took : ℕ
  pub flush_took : ℕ

unfoldable pub sum : TaskStats → ℕ
sum s = (s.collect_took + s.sort_took + s.write_took + s.flush_took) % u128_mod

pub record TaskResult (Name : Type 0) : Type 0 where
  pub name : Name
  pub stats : TaskStats

module _ {Name : Type 0} (names : Eq Name) where
  -- The entry of the map for one result: a vacant one takes it, an occupied one keeps the slowest.
  unfoldable pub keep_slowest : TaskResult Name → List (TaskResult Name) → List (TaskResult Name)
  keep_slowest res [] = res ∷ []
  keep_slowest res (e ∷ by_name) =
      let rest = keep_slowest res by_name in
      if names.same e.name res.name
      then (if ltb (sum e.stats) (sum res.stats) then res ∷ by_name else e ∷ by_name)
      else e ∷ rest

  -- The loop over the futures, of which `none` is one that fails.
  unfoldable pub dedup_from :
      List (Option (TaskResult Name)) → List (TaskResult Name) → Option (List (TaskResult Name))
  dedup_from [] by_name = some by_name
  dedup_from (none ∷ futs) by_name = none
  dedup_from (some res ∷ futs) by_name = dedup_from futs (keep_slowest res by_name)

  unfoldable pub dedup_tasks_keep_slowest :
      List (Option (TaskResult Name)) → Option (List (TaskResult Name))
  dedup_tasks_keep_slowest futs = dedup_from futs []
