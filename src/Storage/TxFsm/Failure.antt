-- ===== src/Storage/TxFsm/Failure.antt =====
-- A transaction in which a command failed.
use redbit.Prelude.{
  ℕ, ◌&&◌, Bool-cases, Option-cases, inl, inr, ◌≤◌, ◌≡◌, refl, sym, subst, true, false, Option,
  none, some, List, [], ◌∷◌, length,
}
use redbit.Prelude.Order.{KeyOrder}
use redbit.Storage.WriterApi.{AppError, WriterCommand, FlushState, Control}
use redbit.Prelude.{◌==◌, if◌then◌else◌}
use redbit.Storage.SortBuffer.Levels.{clear, is_empty, append_sorted, merge_unsorted}
use redbit.Storage.SortBuffer.Reduction.{take_sorted}
use redbit.Storage.TxFsm.{
  WriteTable, Peers, TxState, Outcome, Stepped, goes_on, write_all, is_nil, is_none, query_all,
  step, flush, flush_if_due,
}
use redbit.Storage.TxFsm.Thread.{Ending, Turn, turn, in_tx}
use redbit.Storage.TxFsm.Batching.{one_by_one, after_turn, in_tx-one_by_one}

module _ {K V : Type 0} {T : WriteTable K V} where
  -- An end of a transaction that does not commit.
  abbrev pub IsUncommitted : Ending T → Type 0
  IsUncommitted (Ending.commits_table ack table) = ⊥
  IsUncommitted _ = Unit

  -- A turn after which nothing will be committed: the transaction ends, or keeps its error.
  abbrev IsDoomed : Turn T → Type 0
  IsDoomed (Turn.leaves replies ending) = IsUncommitted ending
  IsDoomed (Turn.loops st) = (e : AppError) × (st.write_error ≡ some e)

module _ {K V : Type 0} (T : WriteTable K V) (order : KeyOrder K) (peers : Peers K) where
  abbrev Dooms : Stepped T → Type 0
  Dooms s = IsDoomed (turn T order peers s.state s.outcome)

  flush-Dooms :
      (ack : ℕ) (st : TxState T) (e : AppError)
      → st.write_error ≡ some e
      → Dooms (flush T order ack st)
  unfolding flush turn
  flush-Dooms ack st e failed =
      subst
        (λ o. Dooms (elim o [
          | some e' ↦ record {
            state = record st { write_error = none };
            replies = [];
            outcome = Outcome.controls (Control.fails ack e');
          }
          | none ↦ elim (take_sorted order st.async_merge_buf) [
            | none ↦ record { state = st; replies = []; outcome = Outcome.panics }
            | some (buf, kvs) ↦ write_all T ack kvs (record st { async_merge_buf = clear buf })
          ]
        ]))
        (sym failed) tt

  flush_if_due-Dooms :
      (f : FlushState) (st : TxState T) (e : AppError)
      → st.write_error ≡ some e
      → Dooms (flush_if_due T order f st)
  unfolding flush_if_due turn
  flush_if_due-Dooms f st e failed = go f.sender f.shards
    where
      st' : TxState T
      st' = record st { deferred = some f }

      go :
          (sender shards : Option ℕ)
          → Dooms (elim sender [
            | none ↦ goes_on T st'
            | some ack ↦ elim shards [
              | none ↦ goes_on T st'
              | some total ↦ if f.sum == total then flush T order ack st' else goes_on T st'
            ]
          ])
      go none shards = (e, failed)
      go (some ack) none = (e, failed)
      go (some ack) (some total) =
          elim (f.sum == total)
            as (λ b. Dooms (if b then flush T order ack st' else goes_on T st')) [
              | true ↦ flush-Dooms ack st' e failed
              | false ↦ (e, failed)
            ]

  -- After an error no command commits.
  step-Dooms :
      (cmd : WriterCommand K V) (st : TxState T) (e : AppError)
      → st.write_error ≡ some e
      → Dooms (step T order peers cmd st)
  unfolding step turn
  step-Dooms (WriterCommand.begin ack durability) st e failed = tt
  step-Dooms (WriterCommand.write_insert_now k v) st e failed =
      elim (Bool-cases (T.insert_kv k v st.table).1) [
        | inl ok ↦ rw (step, ok) (e, failed)
        | inr error ↦ rw (step, error) (AppError.table_failed, refl)
      ]
  step-Dooms (WriterCommand.write_sorted_inserts_on_flush kvs) st e failed =
      elim (Bool-cases (is_empty st.async_merge_buf)) [
        | inl bare ↦ rw (step, bare) (e, failed)
        | inr held ↦ rw (step, held) (AppError.mixed_inserts, refl)
      ]
  step-Dooms (WriterCommand.append_sorted_inserts kvs) st e failed =
      elim (Option-cases (append_sorted order kvs st.async_merge_buf)) [
        | inl panic ↦ rw (step, panic) tt
        | inr (b, done) ↦ rw (step, done) (e, failed)
      ]
  step-Dooms (WriterCommand.merge_unsorted_inserts kvs) st e failed =
      elim (Option-cases (merge_unsorted order kvs st.async_merge_buf)) [
        | inl panic ↦ rw (step, panic) tt
        | inr (b, done) ↦ rw (step, done) (e, failed)
      ]
  step-Dooms (WriterCommand.remove k ack) st e failed =
      elim (Option-cases (T.delete_kv k st.table).1) [
        | inl error ↦ rw (step, error) (AppError.table_failed, refl)
        | inr (r, done) ↦ elim (Bool-cases (peers.listens ack)) [
          | inl on ↦ rw (step, done, on) (e, failed)
          | inr off ↦ rw (step, done, off) (AppError.ack_dropped, refl)
        ]
      ]
  step-Dooms (WriterCommand.query_and_write last_shards values sink) st e failed =
      elim (Bool-cases (is_nil values && is_none last_shards)) [
        | inl nothing ↦ rw (step, nothing) (e, failed)
        | inr some_work ↦ elim (Option-cases (query_all T values st.table).1) [
          | inl error ↦ rw (step, some_work, error) (AppError.table_failed, refl)
          | inr (out, done) ↦ elim (Bool-cases (peers.sink sink last_shards out)) [
            | inl ok ↦ rw (step, some_work, done, ok) (e, failed)
            | inr error ↦ rw (step, some_work, done, error) (AppError.sink_failed, refl)
          ]
        ]
      ]
  step-Dooms (WriterCommand.range from until ack) st e failed =
      elim (Option-cases (T.range from until st.table)) [
        | inl error ↦ rw (step, error) (AppError.table_failed, refl)
        | inr (r, done) ↦ elim (Bool-cases (peers.listens ack)) [
          | inl on ↦ rw (step, done, on) (e, failed)
          | inr off ↦ rw (step, done, off) (AppError.ack_dropped, refl)
        ]
      ]
  step-Dooms (WriterCommand.flush ack) st e failed = flush-Dooms ack st e failed
  step-Dooms (WriterCommand.shutdown ack) st e failed = tt
  step-Dooms (WriterCommand.flush_when_ready ack) st e failed = elim (Option-cases st.deferred) [
    | inl nothing ↦ rw (step, nothing) (flush_if_due-Dooms _ st e failed)
    | inr (f, at) ↦ elim (Option-cases f.sender) [
      | inl nobody ↦ rw (step, at, nobody) (flush_if_due-Dooms _ st e failed)
      | inr (other, waiting) ↦ rw (step, at, waiting) tt
    ]
  ]
  step-Dooms (WriterCommand.ready_for_flush total) st e failed = elim (Option-cases st.deferred) [
    | inl nothing ↦ rw (step, nothing) (flush_if_due-Dooms _ st e failed)
    | inr (f, at) ↦ rw (step, at) (flush_if_due-Dooms _ st e failed)
  ]

  one_by_one-IsUncommitted :
      (cmds : List (WriterCommand K V)) (st : TxState T) (e : AppError)
      → st.write_error ≡ some e
      → IsUncommitted (one_by_one T order peers cmds st).ending
  one_by_one-IsUncommitted [] st e failed = tt
  one_by_one-IsUncommitted (cmd ∷ cmds) st e failed =
      go (turn T order peers s.state s.outcome) (step-Dooms cmd st e failed)
        (one_by_one-IsUncommitted cmds)
    where
      s : Stepped T
      s = step T order peers cmd st

      go :
          (t : Turn T)
          → IsDoomed t
          → ((st' : TxState T) (e' : AppError)
              → st'.write_error ≡ some e'
              → IsUncommitted (one_by_one T order peers cmds st').ending)
          → IsUncommitted (after_turn T order peers s cmds t).ending
      go (Turn.leaves replies ending) doomed later = doomed
      go (Turn.loops st') (e', failed') later = later st' e' failed'

  -- Whatever a transaction is sent after a command of it has failed, in whatever batches, it does not
  -- commit.
  pub failed-IsUncommitted :
      (fuel : ℕ) (schedule : ℕ → ℕ) (cmd : WriterCommand K V) (cmds : List (WriterCommand K V))
      (st : TxState T) (e : AppError)
      → length (cmd ∷ cmds) ≤ fuel
      → (step T order peers cmd st).outcome ≡ Outcome.errs e
      → IsUncommitted (in_tx T order peers fuel schedule (cmd ∷ cmds) st).ending
  unfolding turn
  failed-IsUncommitted fuel schedule cmd cmds st e enough failed =
      rw (in_tx-one_by_one T order peers fuel schedule (cmd ∷ cmds) st enough, one_by_one, failed)
        (one_by_one-IsUncommitted cmds
          (record (step T order peers cmd st).state { write_error = some e }) e refl)
