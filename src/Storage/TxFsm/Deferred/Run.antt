-- ===== src/Storage/TxFsm/Deferred/Run.antt =====
-- A run of a writer thread that ends with a deferred commit.
use redbit.Prelude.{
  ℕ, zero, suc, ◌+◌, ◌^◌, ◌<◌, ◌≤◌, ◌≡◌, refl, sym, ap, subst, ◌∙◌, Bool, Bool-cases, true, false,
  inl, inr, none, some, List, [], ◌∷◌, ◌++◌, length, length-append, append-nil, append_assoc,
  if◌then◌else◌, arith,
}
use mathlib.Core.List.{Perm}
use mathlib.Core.List.Perm
use redbit.Prelude.Order.{KeyOrder}
use redbit.Storage.SortBuffer.Search.{IsSorted}
use redbit.Storage.SortBuffer.Levels.{MergeBuffer, new}
use redbit.Storage.SortBuffer.Carry.{contents, perm_of, AllRuns}
use redbit.Storage.SortBuffer.Insertions.{merge_unsorted-Keeps}
use redbit.Storage.SortBuffer.Appends.{append_sorted-Keeps}
use redbit.Storage.SortBuffer.History.{length-Perm}
use redbit.Storage.WriterApi.{WriterCommand}
use redbit.Storage.TxFsm.{WriteTable, Peers, TxState, goes_on, step, flush, flush_if_due}
use redbit.Storage.TxFsm.Thread.{new_state, TxRun, turn, in_tx}
use redbit.Storage.TxFsm.Batching.{one_by_one, resume, in_tx-one_by_one}
use redbit.Storage.TxFsm.Deferred.{
  is_due, state_of, deferred_by, IsDeferred, inserted, after_due, IsWaiting, committed,
  resume-flush, ready_step, ask_step, flush_if_due_lem,
}

if_same : {A : Type 0} {b c : Bool} (x y : A) → b ≡ c → (if b then x else y) ≡ (if c then x else y)
if_same x y e = ap (λ b. if b then x else y) e

asked_state :
    (total ack ready : ℕ) → some (state_of total ack ready true) ≡ deferred_by total ack ready true
asked_state total ack zero = refl
asked_state total ack (suc ready) = refl

module _ {K V : Type 0} (T : WriteTable K V) (order : KeyOrder K) (peers : Peers K)
    (total ack : ℕ) where
  -- A run ends with a commit, of what the buffer of a state has and of some more entries.
  abbrev pub Commits : TxState T → List (K × V) → List (WriterCommand K V) → TxRun T → Type 0
  Commits st more rest run =
      (out : List (K × V)) × (run ≡ committed T order peers total ack st.table out rest)
      × IsSorted order out
      × Perm out (contents st.async_merge_buf.levels ++ more)

  -- After a message the transaction flushes, or goes on with the message.
  message_lem :
      (ready : ℕ) (asked : Bool) (cmd : WriterCommand K V) (cmds : List (WriterCommand K V))
      (st : TxState T) (more : List (K × V)) (rest : List (WriterCommand K V))
      → step T order peers cmd st ≡ flush_if_due T order (state_of total ack ready asked) st
      → 0 < total
      → st.write_error ≡ none
      → AllRuns order st.async_merge_buf.levels
      → length (contents st.async_merge_buf.levels) < 2 ^ 63
      → ((is_due total ready asked ≡ false)
          → Commits st more rest (
              one_by_one T order peers cmds
                (record st { deferred = some (state_of total ack ready asked) })))
      → Commits st
          (if is_due total ready asked then [] else more)
          (if is_due total ready asked then cmds else rest)
          (one_by_one T order peers (cmd ∷ cmds) st)
  unfolding turn
  message_lem ready asked cmd cmds st more rest stepped pos fine all small later =
      let st' : TxState T = record st { deferred = some (state_of total ack ready asked) } in
      let split = stepped ∙ flush_if_due_lem T order peers total ack ready asked st pos in
      elim (Bool-cases (is_due total ready asked)) [
        | inl due ↦
            let (out, flushed, sorted, kept) =
              resume-flush T order peers total ack st' cmds fine all small in
            let e = split ∙ if_same (flush T order ack st') (goes_on T st') due in
            rw (due) (
              out,
              ap (λ s. resume T order peers s cmds) e ∙ flushed,
              sorted,
              Perm.trans kept (perm_of (sym (append-nil _))),
            )
        | inr early ↦
            let e = split ∙ if_same (flush T order ack st') (goes_on T st') early in
            let (out, run, sorted, kept) = later early in
            rw (early) (out, ap (λ s. resume T order peers s cmds) e ∙ run, sorted, kept)
      ]

  -- After an insertion the buffer has its entries.
  insertion_lem :
      (kvs : List (K × V)) (cmd : WriterCommand K V) (cmds : List (WriterCommand K V))
      (st : TxState T) (b : MergeBuffer K V) (more : List (K × V)) (rest : List (WriterCommand K V))
      → step T order peers cmd st ≡ goes_on T (record st { async_merge_buf = b })
      → Perm (contents b.levels) (contents st.async_merge_buf.levels ++ kvs)
      → Commits
          (record st { async_merge_buf = b })
          more
          rest
          (one_by_one T order peers cmds (record st { async_merge_buf = b }))
      → Commits st (kvs ++ more) rest (one_by_one T order peers (cmd ∷ cmds) st)
  unfolding turn
  insertion_lem kvs cmd cmds st b more rest stepped kept (out, run, sorted, kept') = (
    out,
    ap (λ s. resume T order peers s cmds) stepped ∙ run,
    sorted,
    Perm.trans kept' (
        Perm.trans (Perm.append_right more kept)
          (perm_of (append_assoc (contents st.async_merge_buf.levels) kvs more))),
  )

  deferred_lem :
      (cmds : List (WriterCommand K V)) (ready : ℕ) (asked : Bool) (st : TxState T)
      → IsWaiting T order peers total ack ready asked st
      → IsDeferred order total ack ready asked cmds
      → 0 < total
      → total < 2 ^ 64
      → length (contents st.async_merge_buf.levels)
          + length (inserted order total ack ready asked cmds)
        < 2 ^ 63
      → Commits st
          (inserted order total ack ready asked cmds)
          (after_due order total ack ready asked cmds)
          (one_by_one T order peers cmds st)
  unfolding step
  deferred_lem [] ready asked st waiting plan pos fits small = elim plan [ ]
  deferred_lem (WriterCommand.merge_unsorted_inserts kvs ∷ cmds) ready asked st waiting plan pos
        fits small =
      let joined = length-append kvs (inserted order total ack ready asked cmds) in
      let (b, done, all, kept) =
        merge_unsorted-Keeps order kvs st.async_merge_buf waiting.all_runs
          (omega (arith, joined, small)) in
      let stepped : step T order peers (WriterCommand.merge_unsorted_inserts kvs) st
          ≡ goes_on T (record st { async_merge_buf = b }) =
        rw (step, done) refl in
      let longer = length-Perm kept ∙ length-append (contents st.async_merge_buf.levels) kvs in
      insertion_lem kvs (WriterCommand.merge_unsorted_inserts kvs) cmds st b
        (inserted order total ack ready asked cmds) (after_due order total ack ready asked cmds)
        stepped kept
        (deferred_lem cmds ready asked (record st { async_merge_buf = b })
          (record { deferred = waiting.deferred; no_error = waiting.no_error; all_runs = all }) plan
          pos fits (omega (arith, joined, small, longer)))
  deferred_lem (WriterCommand.append_sorted_inserts kvs ∷ cmds) ready asked st waiting
        (sorted, plan) pos fits small =
      let joined = length-append kvs (inserted order total ack ready asked cmds) in
      let (b, done, all, kept) =
        append_sorted-Keeps order kvs st.async_merge_buf waiting.all_runs sorted
          (omega (arith, joined, small)) in
      let stepped : step T order peers (WriterCommand.append_sorted_inserts kvs) st
          ≡ goes_on T (record st { async_merge_buf = b }) =
        rw (step, done) refl in
      let longer = length-Perm kept ∙ length-append (contents st.async_merge_buf.levels) kvs in
      insertion_lem kvs (WriterCommand.append_sorted_inserts kvs) cmds st b
        (inserted order total ack ready asked cmds) (after_due order total ack ready asked cmds)
        stepped kept
        (deferred_lem cmds ready asked (record st { async_merge_buf = b })
          (record { deferred = waiting.deferred; no_error = waiting.no_error; all_runs = all }) plan
          pos fits (omega (arith, joined, small, longer)))
  deferred_lem (WriterCommand.ready_for_flush n ∷ cmds) ready asked st waiting (same, less, plan)
        pos fits small =
      let stepped =
        ap (λ m. step T order peers (WriterCommand.ready_for_flush m) st) same
        ∙ ready_step T order peers total ack ready asked st waiting less fits in
      message_lem (suc ready) asked (WriterCommand.ready_for_flush n) cmds st
        (inserted order total ack (suc ready) asked cmds)
        (after_due order total ack (suc ready) asked cmds) stepped pos waiting.no_error
        waiting.all_runs (omega (arith, small))
        (λ early.
          deferred_lem cmds (suc ready) asked
            (record st { deferred = some (state_of total ack (suc ready) asked) })
            (record { deferred = refl; no_error = waiting.no_error; all_runs = waiting.all_runs })
            (plan early) pos fits
            (omega (
              arith,
              small,
              ap length (if_same [] (inserted order total ack (suc ready) asked cmds) early),
            )))
  deferred_lem (WriterCommand.flush_when_ready a ∷ cmds) ready asked st waiting (same, fresh, plan)
        pos fits small =
      let waiting' = subst (λ b. IsWaiting T order peers total ack ready b st) fresh waiting in
      let stepped =
        ap (λ m. step T order peers (WriterCommand.flush_when_ready m) st) same
        ∙ ask_step T order peers total ack ready st waiting' in
      message_lem ready true (WriterCommand.flush_when_ready a) cmds st
        (inserted order total ack ready true cmds) (after_due order total ack ready true cmds)
        stepped pos waiting.no_error waiting.all_runs (omega (arith, small))
        (λ early.
          deferred_lem cmds ready true
            (record st { deferred = some (state_of total ack ready true) })
            (record {
              deferred = asked_state total ack ready;
              no_error = waiting.no_error;
              all_runs = waiting.all_runs;
            })
            (plan early) pos fits
            (omega (
              arith,
              small,
              ap length (if_same [] (inserted order total ack ready true cmds) early),
            )))
  deferred_lem (_ ∷ cmds) ready asked st waiting plan pos fits small = elim plan [ ]

  -- In a new transaction, given insertions of fewer than 2 ^ 63 entries, those that are appended sorted
  -- by key, a message of readiness from each of `total` senders, where 0 < `total` < 2 ^ 64, and one
  -- request to flush, in any order and in any batches, the thread
  -- waits for the last of the messages and the request; it then writes the entries inserted by then,
  -- all of them in the order of their keys, in one call, and commits unless that fails.
  pub deferred_commit :
      (fuel : ℕ) (schedule : ℕ → ℕ) (cmds : List (WriterCommand K V)) (table : T.State)
      → length cmds ≤ fuel
      → IsDeferred order total ack 0 false cmds
      → 0 < total
      → total < 2 ^ 64
      → length (inserted order total ack 0 false cmds) < 2 ^ 63
      → (out : List (K × V)) × (in_tx T order peers fuel schedule cmds (new_state T table)
          ≡ committed T order peers total ack table out (after_due order total ack 0 false cmds))
        × IsSorted order out
        × Perm out (inserted order total ack 0 false cmds)
  unfolding new new_state
  deferred_commit fuel schedule cmds table enough plan pos fits small =
      let (out, run, sorted, kept) =
        deferred_lem cmds 0 false (new_state T table)
          (record { deferred = refl; no_error = refl; all_runs = tt }) plan pos fits
          (omega (arith, small)) in
      (
        out,
        in_tx-one_by_one T order peers fuel schedule cmds (new_state T table) enough ∙ run,
        sorted,
        kept,
      )
