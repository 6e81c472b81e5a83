-- ===== src/Storage/TxFsm/Deferred.antt =====
-- The deferred flush of a writer thread: `FlushWhenReady` and `ReadyForFlush` among the insertions of
-- a transaction.
pub mod Run
use redbit.Prelude.{
  ℕ, zero, suc, ◌+◌, ◌%◌, ◌^◌, ◌<◌, ◌≤◌, ◌≡◌, refl, sym, ap, ◌∙◌, ◌&&◌, ◌==◌, Bool, Bool-cases,
  true, false, inl, inr, Option, none, some, List, [], ◌∷◌, ◌++◌, length, length-append, append-nil,
  append_assoc, if◌then◌else◌, arith,
}
use mathlib.Core.List.{Perm}
use mathlib.Core.List.Perm
use redbit.Prelude.Order.{KeyOrder}
use redbit.Storage.SortBuffer.Search.{IsSorted}
use redbit.Storage.SortBuffer.Levels.{MergeBuffer, new, clear, merge_unsorted, append_sorted}
use redbit.Storage.SortBuffer.Reduction.{take_sorted}
use redbit.Storage.SortBuffer.Carry.{contents, perm_of, AllRuns}
use redbit.Storage.SortBuffer.Insertions.{Keeps, merge_unsorted-Keeps}
use redbit.Storage.SortBuffer.Appends.{append_sorted-Keeps}
use redbit.Storage.SortBuffer.Taking.{take_sorted-IsSorted}
use redbit.Storage.SortBuffer.History.{length-Perm}
use redbit.Storage.WriterApi.{AppError, WriterCommand, FlushState, Control, Reply}
use redbit.Storage.TxFsm.{
  WriteTable, Peers, TxState, Outcome, Stepped, goes_on, write_all, step, flush, flush_if_due,
}
use redbit.Storage.TxFsm.Thread.{TxRun, Ending, Turn, before, turn, in_tx}
use redbit.Storage.TxFsm.Batching.{one_by_one, resume, in_tx-one_by_one}

module _ (total : ℕ) where
  -- Whether the flush is due after some messages of readiness, and with the flush asked for or not.
  abbrev pub is_due : ℕ → Bool → Bool
  is_due ready asked = (ready == total) && asked

  -- What a transaction has of the messages.
  abbrev pub state_of : ℕ → ℕ → Bool → FlushState
  state_of ack zero asked = record {
    sender = if asked then some ack else none;
    sum = 0;
    shards = none;
  }
  state_of ack (suc ready) asked = record {
    sender = if asked then some ack else none;
    sum = suc ready;
    shards = some total;
  }

  abbrev pub deferred_by : ℕ → ℕ → Bool → Option FlushState
  deferred_by ack zero false = none
  deferred_by ack zero true = some (state_of ack zero true)
  deferred_by ack (suc ready) asked = some (state_of ack (suc ready) asked)

module _ {K V : Type 0} (order : KeyOrder K) (total ack : ℕ) where
  -- The commands of a deferred commit up to the one that makes it due: insertions, sorted where they
  -- are appended, messages that one of `total` senders is ready, and one request to flush.
  abbrev pub IsDeferred : ℕ → Bool → List (WriterCommand K V) → Type 0
  IsDeferred ready asked [] = ⊥
  IsDeferred ready asked (WriterCommand.merge_unsorted_inserts kvs ∷ cmds) =
      IsDeferred ready asked cmds
  IsDeferred ready asked (WriterCommand.append_sorted_inserts kvs ∷ cmds) =
      IsSorted order kvs × IsDeferred ready asked cmds
  IsDeferred ready asked (WriterCommand.ready_for_flush n ∷ cmds) =
      (n ≡ total)
      × (ready < total)
      × ((is_due total (suc ready) asked ≡ false) → IsDeferred (suc ready) asked cmds)
  IsDeferred ready asked (WriterCommand.flush_when_ready a ∷ cmds) =
      (a ≡ ack) × (asked ≡ false) × ((is_due total ready true ≡ false) → IsDeferred ready true cmds)
  IsDeferred ready asked (_ ∷ cmds) = ⊥

  -- The entries inserted by then, and the commands after it.
  abbrev pub inserted : ℕ → Bool → List (WriterCommand K V) → List (K × V)
  inserted ready asked [] = []
  inserted ready asked (WriterCommand.merge_unsorted_inserts kvs ∷ cmds) =
      kvs ++ inserted ready asked cmds
  inserted ready asked (WriterCommand.append_sorted_inserts kvs ∷ cmds) =
      kvs ++ inserted ready asked cmds
  inserted ready asked (WriterCommand.ready_for_flush n ∷ cmds) =
      let rest = inserted (suc ready) asked cmds in
      if is_due total (suc ready) asked then [] else rest
  inserted ready asked (WriterCommand.flush_when_ready a ∷ cmds) =
      let rest = inserted ready true cmds in if is_due total ready true then [] else rest
  inserted ready asked (_ ∷ cmds) = []

  abbrev pub after_due : ℕ → Bool → List (WriterCommand K V) → List (WriterCommand K V)
  after_due ready asked [] = []
  after_due ready asked (WriterCommand.ready_for_flush n ∷ cmds) =
      let rest = after_due (suc ready) asked cmds in
      if is_due total (suc ready) asked then cmds else rest
  after_due ready asked (WriterCommand.flush_when_ready a ∷ cmds) =
      let rest = after_due ready true cmds in if is_due total ready true then cmds else rest
  after_due ready asked (_ ∷ cmds) = after_due ready asked cmds

module _ {K V : Type 0} (T : WriteTable K V) (order : KeyOrder K) (peers : Peers K)
    (total ack : ℕ) where
  -- A transaction without an error that has the messages, and a buffer of sorted runs.
  pub record IsWaiting (ready : ℕ) (asked : Bool) (st : TxState T) : Type 0 where
    pub deferred : st.deferred ≡ deferred_by total ack ready asked
    pub no_error : st.write_error ≡ none
    pub all_runs : AllRuns order st.async_merge_buf.levels

  -- The run that ends with a commit of some entries written to a table, or with the error of that.
  abbrev pub committed : T.State → List (K × V) → List (WriterCommand K V) → TxRun T
  committed table [] rest = record {
    replies = [];
    rest = rest;
    ending = Ending.commits_table ack table;
  }
  committed table (kv ∷ kvs) rest =
      let (table', ok) = T.insert_many_sorted_by_key (kv ∷ kvs) table in
      if ok
      then record { replies = []; rest = rest; ending = Ending.commits_table ack table' }
      else record {
        replies = Reply.flushed ack (some AppError.table_failed) ∷ [];
        rest = rest;
        ending = Ending.aborts;
      }

  resume-write_all :
      (kvs : List (K × V)) (st : TxState T) (rest : List (WriterCommand K V))
      → resume T order peers (write_all T ack kvs st) rest ≡ committed st.table kvs rest
  unfolding write_all turn
  resume-write_all [] st rest = refl
  resume-write_all (kv ∷ kvs) st rest =
      elim (Bool-cases (T.insert_many_sorted_by_key (kv ∷ kvs) st.table).1) [
        | inl ok ↦ rw (ok) refl
        | inr error ↦ rw (error) refl
      ]

  -- A flush of a transaction without an error writes the entries of its buffer in their order.
  pub resume-flush :
      (st : TxState T) (rest : List (WriterCommand K V))
      → st.write_error ≡ none
      → AllRuns order st.async_merge_buf.levels
      → length (contents st.async_merge_buf.levels) < 2 ^ 63
      → (out : List (K × V)) × (resume T order peers (flush T order ack st) rest
          ≡ committed st.table out rest)
        × IsSorted order out
        × Perm out (contents st.async_merge_buf.levels)
  unfolding flush clear new
  resume-flush st rest fine all small =
      let (out, taken, sorted, kept) = take_sorted-IsSorted order st.async_merge_buf all small in
      (
        out,
        rw (flush, fine, taken)
            (resume-write_all out (record st { async_merge_buf = clear new }) rest),
        sorted,
        kept,
      )

  -- A message of readiness adds to what the transaction has, and so does the request to flush.
  pub ready_step :
      (ready : ℕ) (asked : Bool) (st : TxState T)
      → IsWaiting ready asked st
      → ready < total
      → total < 2 ^ 64
      → step T order peers (WriterCommand.ready_for_flush total) st
        ≡ flush_if_due T order (state_of total ack (suc ready) asked) st
  unfolding step flush_if_due
  ready_step zero false st waiting less small = rw (step, waiting.deferred) refl
  ready_step zero true st waiting less small = rw (step, waiting.deferred) refl
  ready_step (suc ready) asked st waiting less small =
      let next : (suc ready + 1) % 2 ^ 64 ≡ suc (suc ready) = omega (arith, less, small) in
      rw (step, waiting.deferred, next) refl

  pub ask_step :
      (ready : ℕ) (st : TxState T)
      → IsWaiting ready false st
      → step T order peers (WriterCommand.flush_when_ready ack) st
        ≡ flush_if_due T order (state_of total ack ready true) st
  unfolding step flush_if_due
  ask_step zero st waiting = rw (step, waiting.deferred) refl
  ask_step (suc ready) st waiting = rw (step, waiting.deferred) refl

  -- The flush is started exactly when it is due.
  pub flush_if_due_lem :
      (ready : ℕ) (asked : Bool) (st : TxState T)
      → 0 < total
      → flush_if_due T order (state_of total ack ready asked) st ≡ (
          if is_due total ready asked
          then flush T order ack (record st { deferred = some (state_of total ack ready asked) })
          else goes_on T (record st { deferred = some (state_of total ack ready asked) }))
  unfolding flush_if_due
  flush_if_due_lem zero true st pos =
      let early : (0 == total) ≡ false = ground (arith, pos) in rw (early) refl
  flush_if_due_lem zero false st pos =
      let early : (0 == total) ≡ false = ground (arith, pos) in rw (early) refl
  flush_if_due_lem (suc ready) true st pos = elim (Bool-cases (suc ready == total)) [
    | inl all ↦ rw (flush_if_due, all) refl
    | inr few ↦ rw (flush_if_due, few) refl
  ]
  flush_if_due_lem (suc ready) false st pos = elim (Bool-cases (suc ready == total)) [
    | inl all ↦ rw (flush_if_due, all) refl
    | inr few ↦ rw (flush_if_due, few) refl
  ]
