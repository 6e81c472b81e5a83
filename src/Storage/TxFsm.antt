-- ===== src/Storage/TxFsm.antt =====
-- redbit/src/storage/tx_fsm.rs: the writer thread of one shard, over the commands that are in its
-- channel. The table is an interface whose operations may fail; whether the receiver of a reply
-- listens and whether a sink succeeds are parameters. Times are left out. `panics` is `unreachable!`
-- or a panic of the merge buffer.
pub mod Thread
pub mod Batching
pub mod Failure
pub mod Acknowledged
pub mod Commits
pub mod Deferred
mod Tests
use redbit.Prelude.{
  ℕ, zero, suc, ◌+◌, ◌%◌, ◌^◌, Bool, true, false, not, ◌&&◌, ◌==◌, Option, none, some, List, [],
  ◌∷◌, ◌++◌, if◌then◌else◌,
}
use redbit.Prelude.Order.{KeyOrder}
use redbit.Storage.SortBuffer.Levels.{
  MergeBuffer, new, clear, is_empty, from_sorted, merge_unsorted, append_sorted,
}
use redbit.Storage.SortBuffer.Reduction.{take_sorted}
use redbit.Storage.WriterApi.{AppError, WriterCommand, FlushState, Control, Reply}

-- `WriteTableLike`; `false` and `none` are errors, after which the table may have changed.
pub record WriteTable (K V : Type 0) : Type 1 where
  pub State : Type 0
  pub insert_kv : K → V → State → State × Bool
  pub insert_many_sorted_by_key : List (K × V) → State → State × Bool
  pub delete_kv : K → State → State × Option Bool
  pub get_any_for_index : V → State → State × Option (Option K)
  pub range : K → K → State → Option (List (K × V))

-- The receivers of replies, and the sinks.
pub record Peers (K : Type 0) : Type 0 where
  pub listens : ℕ → Bool
  pub sink : ℕ → Option ℕ → List (ℕ × Option K) → Bool

pub record TxState {K V : Type 0} (T : WriteTable K V) : Type 0 where
  pub table : T.State
  pub async_merge_buf : MergeBuffer K V
  pub deferred : Option FlushState
  pub write_error : Option AppError

-- What a step ends in: a panic, the error that `?` returns, or a `Control`.
pub data Outcome : Type 0 where
  panics : Outcome
  errs : AppError → Outcome
  controls : Control → Outcome

pub record Stepped {K V : Type 0} (T : WriteTable K V) : Type 0 where
  pub state : TxState T
  pub replies : List (Reply K V)
  pub outcome : Outcome

abbrev pub is_nil : {A : Type 0} → List A → Bool
is_nil [] = true
is_nil (_ ∷ _) = false

abbrev pub is_none : {A : Type 0} → Option A → Bool
is_none none = true
is_none (some _) = false

module _ {K V : Type 0} (T : WriteTable K V) where
  -- A step that only changes the state and goes on.
  abbrev pub goes_on : TxState T → Stepped T
  goes_on st = record { state = st; replies = []; outcome = Outcome.controls Control.continues }

  abbrev stops_with : TxState T → Outcome → Stepped T
  stops_with st o = record { state = st; replies = []; outcome = o }

  -- A step of the merge buffer.
  abbrev buffers : TxState T → Option (MergeBuffer K V) → Stepped T
  buffers st none = stops_with st Outcome.panics
  buffers st (some b) = goes_on (record st { async_merge_buf = b })

  -- The sorted entries are written in one call, which an empty list is spared.
  unfoldable pub write_all : ℕ → List (K × V) → TxState T → Stepped T
  write_all ack [] st = stops_with st (Outcome.controls (Control.commits ack none))
  write_all ack (kv ∷ kvs) st =
      let (table, ok) = T.insert_many_sorted_by_key (kv ∷ kvs) st.table in
      stops_with (record st { table = table })
        (Outcome.controls (Control.commits ack (if ok then none else some AppError.table_failed)))

  unfoldable pub flush : KeyOrder K → ℕ → TxState T → Stepped T
  flush order ack st = elim st.write_error [
    | some e ↦
        stops_with (record st { write_error = none }) (Outcome.controls (Control.fails ack e))
    | none ↦ elim (take_sorted order st.async_merge_buf) [
      | none ↦ stops_with st Outcome.panics
      | some (buf, kvs) ↦ write_all ack kvs (record st { async_merge_buf = clear buf })
    ]
  ]

  -- The test at the end of `FlushWhenReady` and of `ReadyForFlush`.
  unfoldable pub flush_if_due : KeyOrder K → FlushState → TxState T → Stepped T
  flush_if_due order f st =
      let st' = record st { deferred = some f } in
      elim f.sender [
        | none ↦ goes_on st'
        | some ack ↦ elim f.shards [
          | none ↦ goes_on st'
          | some total ↦ if f.sum == total then flush order ack st' else goes_on st'
        ]
      ]

  -- The loop of `QueryAndWrite`.
  unfoldable pub query_all : List (ℕ × V) → T.State → T.State × Option (List (ℕ × Option K))
  query_all [] table = (table, some [])
  query_all ((idx, v) ∷ values) table =
      let (table', found) = T.get_any_for_index v table in
      let (table'', rest) = query_all values table' in
      elim found [
        | none ↦ (table', none)
        | some key ↦ (table'', elim rest [ none ↦ none | some out ↦ some ((idx, key) ∷ out) ])
      ]

  unfoldable pub step : KeyOrder K → Peers K → WriterCommand K V → TxState T → Stepped T
  step order peers (WriterCommand.write_insert_now k v) st =
      let (table, ok) = T.insert_kv k v st.table in
      let st' = record st { table = table } in
      if ok then goes_on st' else stops_with st' (Outcome.errs AppError.table_failed)
  step order peers (WriterCommand.merge_unsorted_inserts kvs) st =
      buffers st (merge_unsorted order kvs st.async_merge_buf)
  step order peers (WriterCommand.append_sorted_inserts kvs) st =
      buffers st (append_sorted order kvs st.async_merge_buf)
  step order peers (WriterCommand.write_sorted_inserts_on_flush kvs) st =
      if not (is_empty st.async_merge_buf)
      then stops_with st (Outcome.errs AppError.mixed_inserts)
      else goes_on (record st { async_merge_buf = from_sorted kvs })
  step order peers (WriterCommand.remove k ack) st =
      let (table, found) = T.delete_kv k st.table in
      let st' = record st { table = table } in
      elim found [
        | none ↦ stops_with st' (Outcome.errs AppError.table_failed)
        | some r ↦
            if peers.listens ack
            then record (goes_on st') { replies = Reply.removed ack r ∷ [] }
            else stops_with st' (Outcome.errs AppError.ack_dropped)
      ]
  step order peers (WriterCommand.query_and_write last_shards values sink) st =
      let (table, found) = query_all values st.table in
      let st' = record st { table = table } in
      if is_nil values && is_none last_shards then goes_on st else elim found [
        | none ↦ stops_with st' (Outcome.errs AppError.table_failed)
        | some out ↦
            record (if peers.sink sink last_shards out
              then goes_on st'
              else stops_with st' (Outcome.errs AppError.sink_failed)) {
                replies = Reply.sunk sink last_shards out ∷ [];
              }
      ]
  step order peers (WriterCommand.range from until ack) st = elim (T.range from until st.table) [
    | none ↦ stops_with st (Outcome.errs AppError.table_failed)
    | some r ↦
        if peers.listens ack
        then record (goes_on st) { replies = Reply.ranged ack r ∷ [] }
        else stops_with st (Outcome.errs AppError.ack_dropped)
  ]
  step order peers (WriterCommand.flush_when_ready ack) st = elim st.deferred [
    | none ↦ flush_if_due order (record { sender = some ack; sum = 0; shards = none }) st
    | some f ↦ elim f.sender [
      | some _ ↦ stops_with st (Outcome.controls (Control.fails ack AppError.flush_pending))
      | none ↦ flush_if_due order (record f { sender = some ack }) st
    ]
  ]
  step order peers (WriterCommand.ready_for_flush total) st = elim st.deferred [
    | none ↦ flush_if_due order (record { sender = none; sum = 1; shards = some total }) st
    | some f ↦ flush_if_due order (record f { sum = (f.sum + 1) % 2 ^ 64; shards = some total }) st
  ]
  step order peers (WriterCommand.flush ack) st = flush order ack st
  step order peers (WriterCommand.shutdown ack) st =
      stops_with st (Outcome.controls (Control.shuts_down ack))
  step order peers (WriterCommand.begin ack durability) st = stops_with st Outcome.panics
