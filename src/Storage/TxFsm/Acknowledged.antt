-- ===== src/Storage/TxFsm/Acknowledged.antt =====
-- Which of the flushes that a writer thread is asked for it reports as done.
use redbit.Prelude.{
  ℕ, zero, suc, ◌==◌, ◌≡◌, refl, ap, ◌∙◌, none, some, List, [], ◌∷◌, ◌++◌, Bool-cases, Option-cases,
  inl, inr, arith,
}
use redbit.Prelude.Order.{KeyOrder}
use redbit.Storage.WriterApi.{WriterCommand, FlushState, Control, Reply}
use redbit.Storage.SortBuffer.Reduction.{take_sorted}
use redbit.Storage.TxFsm.{
  WriteTable, Peers, TxState, Outcome, Stepped, write_all, step, flush, flush_if_due,
}
use redbit.Storage.TxFsm.Thread.{Drained, TxRun, Turn, before, is_continue, drain_more, turn, in_tx}

module _ {K V : Type 0} where
  -- The channels to which the end of a flush was reported as a success, in order.
  abbrev pub acknowledged : List (Reply K V) → List ℕ
  acknowledged [] = []
  acknowledged (Reply.flushed ack none ∷ replies) = ack ∷ acknowledged replies
  acknowledged (_ ∷ replies) = acknowledged replies

  pub acknowledged-append :
      (xs ys : List (Reply K V)) → acknowledged (xs ++ ys) ≡ acknowledged xs ++ acknowledged ys
  acknowledged-append [] ys = refl
  acknowledged-append (Reply.flushed ack none ∷ xs) ys =
      ap (λ l. ack ∷ l) (acknowledged-append xs ys)
  acknowledged-append (Reply.flushed ack (some e) ∷ xs) ys = acknowledged-append xs ys
  acknowledged-append (Reply.begun ack e ∷ xs) ys = acknowledged-append xs ys
  acknowledged-append (Reply.removed ack r ∷ xs) ys = acknowledged-append xs ys
  acknowledged-append (Reply.ranged ack r ∷ xs) ys = acknowledged-append xs ys
  acknowledged-append (Reply.stopped ack ∷ xs) ys = acknowledged-append xs ys
  acknowledged-append (Reply.sunk sink last out ∷ xs) ys = acknowledged-append xs ys

  pub acknowledged-append_nil :
      (xs ys : List (Reply K V)) → acknowledged xs ≡ [] → acknowledged (xs ++ ys) ≡ acknowledged ys
  acknowledged-append_nil xs ys h = acknowledged-append xs ys ∙ ap (λ l. l ++ acknowledged ys) h

module _ {K V : Type 0} (T : WriteTable K V) (order : KeyOrder K) (peers : Peers K) where
  abbrev IsSilent : Stepped T → Type 0
  IsSilent s = acknowledged s.replies ≡ []

  write_all-IsSilent :
      (ack : ℕ) (kvs : List (K × V)) (st : TxState T) → IsSilent (write_all T ack kvs st)
  unfolding write_all
  write_all-IsSilent ack [] st = refl
  write_all-IsSilent ack (kv ∷ kvs) st = refl

  flush-IsSilent : (ack : ℕ) (st : TxState T) → IsSilent (flush T order ack st)
  unfolding flush
  flush-IsSilent ack st = elim (Option-cases st.write_error) [
    | inr (e, failed) ↦ rw (flush, failed) refl
    | inl fine ↦ elim (Option-cases (take_sorted order st.async_merge_buf)) [
      | inl panic ↦ rw (flush, fine, panic) refl
      | inr ((buf, kvs), done) ↦ rw (flush, fine, done) (write_all-IsSilent ack kvs _)
    ]
  ]

  flush_if_due-IsSilent : (f : FlushState) (st : TxState T) → IsSilent (flush_if_due T order f st)
  unfolding flush_if_due
  flush_if_due-IsSilent f st = elim (Option-cases f.sender) [
    | inl nobody ↦ rw (flush_if_due, nobody) refl
    | inr (ack, waiting) ↦ elim (Option-cases f.shards) [
      | inl unknown ↦ rw (flush_if_due, waiting, unknown) refl
      | inr (total, known) ↦ elim (Bool-cases (f.sum == total)) [
        | inl due ↦ rw (flush_if_due, waiting, known, due) (flush-IsSilent ack _)
        | inr early ↦ rw (flush_if_due, waiting, known, early) refl
      ]
    ]
  ]

  step-IsSilent : (cmd : WriterCommand K V) (st : TxState T) → IsSilent (step T order peers cmd st)
  unfolding step
  step-IsSilent (WriterCommand.begin ack durability) st = refl
  step-IsSilent (WriterCommand.write_insert_now k v) st = ground arith
  step-IsSilent (WriterCommand.write_sorted_inserts_on_flush kvs) st = ground arith
  step-IsSilent (WriterCommand.append_sorted_inserts kvs) st = ground arith
  step-IsSilent (WriterCommand.merge_unsorted_inserts kvs) st = ground arith
  step-IsSilent (WriterCommand.remove k ack) st = ground arith
  step-IsSilent (WriterCommand.query_and_write last_shards values sink) st = ground arith
  step-IsSilent (WriterCommand.range from until ack) st = ground arith
  step-IsSilent (WriterCommand.flush ack) st = flush-IsSilent ack st
  step-IsSilent (WriterCommand.shutdown ack) st = refl
  step-IsSilent (WriterCommand.flush_when_ready ack) st = elim (Option-cases st.deferred) [
    | inl nothing ↦ rw (step, nothing) (flush_if_due-IsSilent _ st)
    | inr (f, at) ↦ elim (Option-cases f.sender) [
      | inl nobody ↦ rw (step, at, nobody) (flush_if_due-IsSilent _ st)
      | inr (other, waiting) ↦ rw (step, at, waiting) refl
    ]
  ]
  step-IsSilent (WriterCommand.ready_for_flush total) st = elim (Option-cases st.deferred) [
    | inl nothing ↦ rw (step, nothing) (flush_if_due-IsSilent _ st)
    | inr (f, at) ↦ rw (step, at) (flush_if_due-IsSilent _ st)
  ]

  drain_more-IsSilent :
      (n : ℕ) (cmds : List (WriterCommand K V)) (s : Stepped T)
      → IsSilent s
      → IsSilent (drain_more T order peers n cmds s).stepped
  unfolding drain_more
  drain_more-IsSilent zero cmds s silent = silent
  drain_more-IsSilent (suc n) [] s silent = silent
  drain_more-IsSilent (suc n) (cmd ∷ cmds) s silent =
      let s' : Stepped T = step T order peers cmd s.state in
      let both : Stepped T = record s' { replies = s.replies ++ s'.replies } in
      let rest =
        drain_more-IsSilent n cmds both
          (acknowledged-append_nil s.replies s'.replies silent ∙ step-IsSilent cmd s.state) in
      elim (Bool-cases (is_continue s.outcome)) [
        | inl more ↦ rw (drain_more, more) rest
        | inr done ↦ rw (drain_more, done) silent
      ]

  abbrev IsSilentTurn : Turn T → Type 0
  IsSilentTurn (Turn.leaves replies ending) = acknowledged replies ≡ []
  IsSilentTurn (Turn.loops st) = Unit

  turn-IsSilentTurn : (st : TxState T) (o : Outcome) → IsSilentTurn (turn T order peers st o)
  unfolding turn
  turn-IsSilentTurn st Outcome.panics = refl
  turn-IsSilentTurn st (Outcome.errs e) = tt
  turn-IsSilentTurn st (Outcome.controls (Control.fails ack e)) = refl
  turn-IsSilentTurn st (Outcome.controls (Control.commits ack (some e))) = refl
  turn-IsSilentTurn st (Outcome.controls (Control.commits ack none)) = refl
  turn-IsSilentTurn st (Outcome.controls (Control.shuts_down ack)) =
      elim (Option-cases st.deferred) [
        | inl nothing ↦ rw (turn, nothing) refl
        | inr (f, at) ↦ elim (Option-cases f.sender) [
          | inl nobody ↦ rw (turn, at, nobody) refl
          | inr (waiting, is) ↦ rw (turn, at, is) refl
        ]
      ]
  turn-IsSilentTurn st (Outcome.controls Control.continues) = tt
  turn-IsSilentTurn st (Outcome.controls (Control.readies n)) = tt
  turn-IsSilentTurn st (Outcome.controls (Control.awaits_flush n)) = tt
  turn-IsSilentTurn st (Outcome.controls Control.finishes) = tt

  pub in_tx-silent :
      (fuel : ℕ) (schedule : ℕ → ℕ) (cmds : List (WriterCommand K V)) (st : TxState T)
      → acknowledged (in_tx T order peers fuel schedule cmds st).replies ≡ []
  unfolding in_tx
  in_tx-silent fuel schedule [] st = refl
  in_tx-silent zero schedule (cmd ∷ cmds) st = refl
  in_tx-silent (suc fuel) schedule (cmd ∷ cmds) st =
      go (turn T order peers d.stepped.state d.stepped.outcome)
        (turn-IsSilentTurn d.stepped.state d.stepped.outcome) (in_tx-silent fuel schedule d.rest)
    where
      d : Drained T
      d = drain_more T order peers (schedule fuel) cmds (step T order peers cmd st)

      go :
          (t : Turn T)
          → IsSilentTurn t
          → ((st' : TxState T)
              → acknowledged (in_tx T order peers fuel schedule d.rest st').replies ≡ [])
          → acknowledged
              (elim t as (λ _. TxRun T) [
                | Turn.leaves replies ending ↦ record {
                  replies = d.stepped.replies ++ replies;
                  rest = d.rest;
                  ending = ending;
                }
                | Turn.loops st' ↦
                    before d.stepped.replies (in_tx T order peers fuel schedule d.rest st')
              ]).replies
            ≡ []
      go (Turn.leaves replies ending) silent later =
          acknowledged-append_nil d.stepped.replies replies
            (drain_more-IsSilent (schedule fuel) cmds _ (step-IsSilent cmd st))
          ∙ silent
      go (Turn.loops st') silent later =
          acknowledged-append_nil d.stepped.replies _
            (drain_more-IsSilent (schedule fuel) cmds _ (step-IsSilent cmd st))
          ∙ later st'
