-- ===== src/Storage/Context.antt =====
-- redbit/src/storage/context.rs: the write context of an entity, whose tables flush in two phases. The
-- refs of a context are its tables and the contexts in it, in the order of the entity's columns. Of
-- each table its writer, the shards whose threads still receive and the results that the flushes of
-- its shards reply are parameters, `none` for an error or a thread that is gone.
pub mod Runs
pub mod Collecting
pub mod Waiting
pub mod Phases
pub mod Quiet
mod Tests
use redbit.Prelude.{
  ℕ, Bool, true, false, Option, none, some, List, [], ◌∷◌, ◌++◌, map, if◌then◌else◌,
}
use redbit.Prelude.Equality.{Eq}
use redbit.Storage.WriterApi.{WriterCommand, TaskResult, dedup_tasks_keep_slowest}
use redbit.Storage.TableWriter.{TableWriter, FlushFuture, flush_async, fire}

pub data WriterRefs (Tab : Type 0) : Type 0 where
  done : WriterRefs Tab
  table : Tab → WriterRefs Tab → WriterRefs Tab
  context : WriterRefs Tab → WriterRefs Tab → WriterRefs Tab

-- What the thread that commits sends to a shard, and the result that it gets from one.
pub data Event (Tab : Type 0) (K V : Tab → Type 0) : Type 0 where
  sends : (t : Tab) → ℕ × WriterCommand (K t) (V t) → Event Tab K V
  acks : Tab → ℕ → Event Tab K V

-- The events so far, and what `?` goes on with, if nothing failed.
pub record Logged (E A : Type 0) : Type 0 where
  pub log : List E
  pub outcome : Option A

module _ {E : Type 0} where
  abbrev pub and_then : {A B : Type 0} → Logged E A → (A → Logged E B) → Logged E B
  and_then l f = elim l.outcome [
    | none ↦ record { log = l.log; outcome = none }
    | some a ↦ record { log = l.log ++ (f a).log; outcome = (f a).outcome }
  ]

  abbrev pub returns : {A : Type 0} → A → Logged E A
  returns a = record { log = []; outcome = some a }

  -- The loops that extend a vector by each result.
  abbrev pub extended : {A : Type 0} → Logged E (List A) → Logged E (List A) → Logged E (List A)
  extended l l' = and_then l (λ xs. and_then l' (λ ys. returns (xs ++ ys)))

module _ {Tab : Type 0} {K V : Tab → Type 0} (writer : (t : Tab) → TableWriter (K t) (V t))
    (receives : Tab → ℕ → Bool) where
  unfoldable pub commit_with_ref : Tab → Logged (Event Tab K V) (List (Tab × FlushFuture))
  commit_with_ref t = elim (flush_async (receives t) (writer t)) [
    | none ↦ record { log = []; outcome = none }
    | some (w, sent, futures) ↦ record {
      log = map (Event.sends t) sent.messages;
      outcome = if sent.is_ok then some (map (λ f. (t, f)) futures) else none;
    }
  ]

  unfoldable pub commit_ctx_async :
      WriterRefs Tab → Logged (Event Tab K V) (List (Tab × FlushFuture))
  commit_ctx_async WriterRefs.done = returns []
  commit_ctx_async (WriterRefs.table t refs) = extended (commit_with_ref t) (commit_ctx_async refs)
  commit_ctx_async (WriterRefs.context inner refs) =
      extended (commit_ctx_async inner) (commit_ctx_async refs)

abbrev pub shard : FlushFuture → ℕ
shard (FlushFuture.eager sid) = sid
shard (FlushFuture.lazy sid) = sid

module _ {Tab Name : Type 0} {K V : Tab → Type 0} (receives : Tab → ℕ → Bool)
    (result : Tab → ℕ → Option (TaskResult Name)) where
  unfoldable pub wait : Tab × FlushFuture → Logged (Event Tab K V) (List (TaskResult Name))
  wait (t, f) =
      let sent = fire {K = K t} {V = V t} (receives t) f in
      let log = map (Event.sends t) sent.messages in
      if sent.is_ok
      then elim (result t (shard f)) [
        | none ↦ record { log = log; outcome = none }
        | some res ↦ record { log = log ++ Event.acks t (shard f) ∷ []; outcome = some (res ∷ []) }
      ]
      else record { log = log; outcome = none }

  -- The waits of the loop of `dedup_tasks_keep_slowest`.
  unfoldable pub wait_each :
      List (Tab × FlushFuture) → Logged (Event Tab K V) (List (TaskResult Name))
  wait_each [] = returns []
  wait_each (f ∷ futures) = extended (wait f) (wait_each futures)

module _ {Tab Name : Type 0} {K V : Tab → Type 0} (writer : (t : Tab) → TableWriter (K t) (V t))
    (receives : Tab → ℕ → Bool) (result : Tab → ℕ → Option (TaskResult Name))
    (names : Eq Name) where
  unfoldable pub two_phase_commit : WriterRefs Tab → Logged (Event Tab K V) (List (TaskResult Name))
  two_phase_commit refs = and_then (commit_ctx_async writer receives refs) (λ futures.
      and_then (wait_each receives result futures)
        (λ tasks. record { log = []; outcome = dedup_tasks_keep_slowest names (map some tasks) }))
