-- ===== src/Storage/TxFsm/Thread.antt =====
-- redbit/src/storage/tx_fsm.rs: `drain_batch`, the loop of a transaction and the loop of the thread
-- in `TxFSM::new`. A run goes over the commands that the channel will hold; how many of them are
-- there when `try_iter` looks is a schedule. Loops are on fuel for the number of commands.
use redbit.Prelude.{
  ℕ, zero, suc, Bool, true, false, Option, none, some, List, [], ◌∷◌, ◌++◌, if◌then◌else◌,
}
use redbit.Prelude.Order.{KeyOrder}
use redbit.Storage.SortBuffer.Levels.{new}
use redbit.Storage.WriterApi.{AppError, TxDurability, WriterCommand, FlushState, Control, Reply}
use redbit.Storage.TxFsm.{WriteTable, Peers, TxState, Outcome, Stepped, step}

-- A step and the commands after it.
pub record Drained {K V : Type 0} (T : WriteTable K V) : Type 0 where
  pub stepped : Stepped T
  pub rest : List (WriterCommand K V)

-- How the loop of a transaction ends: the channel is empty, or the transaction aborts, commits its
-- table with a reply to be sent, or is aborted by a shutdown; or a panic.
pub data Ending {K V : Type 0} (T : WriteTable K V) : Type 0 where
  waits : TxState T → Ending T
  aborts : Ending T
  commits_table : ℕ → T.State → Ending T
  stops : Ending T
  dies : Ending T

pub record TxRun {K V : Type 0} (T : WriteTable K V) : Type 0 where
  pub replies : List (Reply K V)
  pub rest : List (WriterCommand K V)
  pub ending : Ending T

abbrev pub before : {K V : Type 0} {T : WriteTable K V} → List (Reply K V) → TxRun T → TxRun T
before replies run = record run { replies = replies ++ run.replies }

-- `matches!(ctrl, Control::Continue)`; an error leaves `drain_batch` too.
abbrev pub is_continue : Outcome → Bool
is_continue (Outcome.controls Control.continues) = true
is_continue _ = false

-- What the match on the outcome of a batch does: leave the loop, or go round it in a state.
pub data Turn {K V : Type 0} (T : WriteTable K V) : Type 0 where
  leaves : List (Reply K V) → Ending T → Turn T
  loops : TxState T → Turn T

module _ {K V : Type 0} (T : WriteTable K V) (order : KeyOrder K) (peers : Peers K) where
  -- The commands that `try_iter` finds, while the outcome is `Continue`.
  unfoldable pub drain_more : ℕ → List (WriterCommand K V) → Stepped T → Drained T
  drain_more zero cmds s = record { stepped = s; rest = cmds }
  drain_more (suc n) [] s = record { stepped = s; rest = [] }
  drain_more (suc n) (cmd ∷ cmds) s =
      let s' = step T order peers cmd s.state in
      let more = drain_more n cmds (record s' { replies = s.replies ++ s'.replies }) in
      if is_continue s.outcome then more else record { stepped = s; rest = cmd ∷ cmds }

  -- The match of the loop of a transaction.
  unfoldable pub turn : TxState T → Outcome → Turn T
  turn st Outcome.panics = leaves [] dies
  turn st (Outcome.errs e) = loops (record st { write_error = some e })
  turn st (Outcome.controls (Control.fails ack e)) = leaves (Reply.flushed ack (some e) ∷ []) aborts
  turn st (Outcome.controls (Control.commits ack (some e))) =
      leaves (Reply.flushed ack (some e) ∷ []) aborts
  turn st (Outcome.controls (Control.commits ack none)) = leaves [] (commits_table ack st.table)
  turn st (Outcome.controls (Control.shuts_down ack)) =
      leaves (pending st.deferred ++ Reply.stopped ack ∷ []) stops
    where
      pending : Option FlushState → List (Reply K V)
      pending none = []
      pending (some f) = elim f.sender [
        | none ↦ []
        | some waiting ↦ Reply.flushed waiting (some AppError.aborted) ∷ []
      ]
  turn st (Outcome.controls Control.continues) = loops st
  turn st (Outcome.controls (Control.readies _)) = loops st
  turn st (Outcome.controls (Control.awaits_flush _)) = loops st
  turn st (Outcome.controls Control.finishes) = loops st

  -- The loop of a transaction.
  unfoldable pub in_tx : ℕ → (ℕ → ℕ) → List (WriterCommand K V) → TxState T → TxRun T
  in_tx fuel schedule [] st = record { replies = []; rest = []; ending = waits st }
  in_tx zero schedule (cmd ∷ cmds) st = record {
    replies = [];
    rest = cmd ∷ cmds;
    ending = waits st;
  }
  in_tx (suc fuel) schedule (cmd ∷ cmds) st =
      let d = drain_more (schedule fuel) cmds (step T order peers cmd st) in
      elim (turn d.stepped.state d.stepped.outcome) [
        | leaves replies ending ↦ record {
          replies = d.stepped.replies ++ replies;
          rest = d.rest;
          ending = ending;
        }
        | loops st' ↦ before d.stepped.replies (in_tx fuel schedule d.rest st')
      ]

module _ {K V : Type 0} (T : WriteTable K V) where
  -- The state of a new transaction.
  unfoldable pub new_state : T.State → TxState T
  unfolding new
  new_state table = record {
    table = table;
    async_merge_buf = new;
    deferred = none;
    write_error = none;
  }

  -- What the upgrade of the weak reference, `begin_write`, `set_durability` and `open_for_write`
  -- come to: the database is gone, one of the others fails, or there is a table to write.
  pub data Begin : Type 0 where
    closed : Begin
    failed : Begin
    opened : T.State → Begin

-- The database of a shard.
pub record Database {K V : Type 0} (T : WriteTable K V) : Type 1 where
  pub Data : Type 0
  pub begin_write : Data → TxDurability → Begin T
  pub commit : Data → T.State → Option Data

-- What a thread has sent, the data at the end, and whether it is still there.
pub record Served {K V : Type 0} {T : WriteTable K V} (D : Database T) : Type 0 where
  pub replies : List (Reply K V)
  pub data_after : D.Data
  pub is_alive : Bool

abbrev pub after_replies :
    {K V : Type 0} {T : WriteTable K V} {D : Database T} → List (Reply K V) → Served D → Served D
after_replies replies s = record s { replies = replies ++ s.replies }

module _ {K V : Type 0} {T : WriteTable K V} (D : Database T) (order : KeyOrder K)
    (peers : Peers K) where
  abbrev ends_with : List (Reply K V) → D.Data → Served D
  ends_with replies db = record { replies = replies; data_after = db; is_alive = false }

  -- The loop of the thread.
  unfoldable pub serve : ℕ → (ℕ → ℕ) → List (WriterCommand K V) → D.Data → Served D
  unfolding in_tx
  serve fuel schedule [] db = record { replies = []; data_after = db; is_alive = true }
  serve zero schedule (cmd ∷ cmds) db = record { replies = []; data_after = db; is_alive = true }
  serve (suc fuel) schedule (WriterCommand.begin ack durability ∷ cmds) db =
      elim (D.begin_write db durability) [
        | Begin.closed ↦ ends_with (Reply.begun ack (some AppError.database_closed) ∷ []) db
        | Begin.failed ↦
            after_replies (Reply.begun ack (some AppError.begin_failed) ∷ [])
              (serve fuel schedule cmds db)
        | Begin.opened table ↦
            let run = in_tx T order peers fuel schedule cmds (new_state T table) in
            let replies = Reply.begun ack none ∷ run.replies in
            elim run.ending [
              | Ending.waits st ↦ record { replies = replies; data_after = db; is_alive = true }
              | Ending.aborts ↦ after_replies replies (serve fuel schedule run.rest db)
              | Ending.commits_table ack' table' ↦ elim (D.commit db table') [
                | none ↦
                    after_replies (replies ++ Reply.flushed ack' (some AppError.commit_failed) ∷ [])
                      (serve fuel schedule run.rest db)
                | some db' ↦
                    after_replies (replies ++ Reply.flushed ack' none ∷ [])
                      (serve fuel schedule run.rest db')
              ]
              | Ending.stops ↦ ends_with replies db
              | Ending.dies ↦ ends_with replies db
            ]
      ]
  serve (suc fuel) schedule (WriterCommand.shutdown ack ∷ cmds) db =
      ends_with (Reply.stopped ack ∷ []) db
  serve (suc fuel) schedule (_ ∷ cmds) db = ends_with [] db
