-- ===== src/Storage/TxFsm/Batching.antt =====
-- That a writer thread takes its commands in batches is not seen: the loop of a transaction does what
-- steps one by one do.
use mathlib.Core.Bool.{false≢true}
use redbit.Prelude.{
  true, Bool-cases, inl, inr, ℕ, zero, suc, ◌≤◌, ◌≡◌, refl, sym, ap, ◌∙◌, List, [], ◌∷◌, ◌++◌,
  length, append_assoc, arith,
}
use redbit.Prelude.Order.{KeyOrder}
use redbit.Storage.WriterApi.{WriterCommand, Control, Reply}
use redbit.Storage.TxFsm.{WriteTable, Peers, TxState, Outcome, Stepped, step}
use redbit.Storage.TxFsm.Thread.{TxRun, Ending, Turn, before, is_continue, drain_more, turn, in_tx}

before-before :
    {K V : Type 0} {T : WriteTable K V} (xs ys : List (Reply K V)) (run : TxRun T)
    → before xs (before ys run) ≡ before (xs ++ ys) run
before-before xs ys run =
    ap (λ replies. record run { replies = replies }) (sym (append_assoc xs ys run.replies))

module _ {K V : Type 0} (T : WriteTable K V) (order : KeyOrder K) (peers : Peers K) where
  -- The loop of a transaction, one command at a time.
  abbrev pub one_by_one : List (WriterCommand K V) → TxState T → TxRun T
  one_by_one [] st = record { replies = []; rest = []; ending = Ending.waits st }
  one_by_one (cmd ∷ cmds) st =
      let s = step T order peers cmd st in
      elim (turn T order peers s.state s.outcome) [
        | Turn.leaves replies ending ↦ record {
          replies = s.replies ++ replies;
          rest = cmds;
          ending = ending;
        }
        | Turn.loops st' ↦ before s.replies (one_by_one cmds st')
      ]

  -- What comes after a step.
  abbrev pub after_turn : Stepped T → List (WriterCommand K V) → Turn T → TxRun T
  after_turn s cmds (Turn.leaves replies ending) = record {
    replies = s.replies ++ replies;
    rest = cmds;
    ending = ending;
  }
  after_turn s cmds (Turn.loops st') = before s.replies (one_by_one cmds st')

  abbrev pub resume : Stepped T → List (WriterCommand K V) → TxRun T
  resume s cmds = after_turn s cmds (turn T order peers s.state s.outcome)

  before-after_turn :
      (replies : List (Reply K V)) (s : Stepped T) (cmds : List (WriterCommand K V)) (t : Turn T)
      → before replies (after_turn s cmds t)
        ≡ after_turn (record s { replies = replies ++ s.replies }) cmds t
  before-after_turn replies s cmds (Turn.leaves replies' ending) =
      ap (λ r. record { replies = r; rest = cmds; ending = ending })
        (sym (append_assoc replies s.replies replies'))
  before-after_turn replies s cmds (Turn.loops st') =
      before-before replies s.replies (one_by_one cmds st')

  continue_of : (o : Outcome) → is_continue o ≡ true → o ≡ Outcome.controls Control.continues
  continue_of (Outcome.controls Control.continues) h = refl
  continue_of Outcome.panics h = absurd (false≢true h)
  continue_of (Outcome.errs e) h = absurd (false≢true h)
  continue_of (Outcome.controls (Control.readies n)) h = absurd (false≢true h)
  continue_of (Outcome.controls (Control.commits a e)) h = absurd (false≢true h)
  continue_of (Outcome.controls (Control.awaits_flush a)) h = absurd (false≢true h)
  continue_of (Outcome.controls (Control.fails a e)) h = absurd (false≢true h)
  continue_of (Outcome.controls (Control.shuts_down a)) h = absurd (false≢true h)
  continue_of (Outcome.controls Control.finishes) h = absurd (false≢true h)

  -- To take more commands at once changes nothing.
  resume-drain_more :
      (n : ℕ) (cmds : List (WriterCommand K V)) (s : Stepped T)
      → (resume (drain_more T order peers n cmds s).stepped (drain_more T order peers n cmds s).rest
          ≡ resume s cmds)
        × (length (drain_more T order peers n cmds s).rest ≤ length cmds)
  unfolding drain_more turn
  resume-drain_more zero cmds s = (refl, omega arith)
  resume-drain_more (suc n) [] s = (refl, omega arith)
  resume-drain_more (suc n) (cmd ∷ cmds) s = elim (Bool-cases (is_continue s.outcome)) [
    | inl on ↦
        let e = continue_of s.outcome on in
        let s' = step T order peers cmd s.state in
        let (same, fewer) =
          resume-drain_more n cmds (record s' { replies = s.replies ++ s'.replies }) in
        rw (drain_more, on, e)
          (
            same
                ∙ sym
                    (before-after_turn s.replies s' cmds (turn T order peers s'.state s'.outcome)),
            omega (arith, fewer),
          )
    | inr off ↦ rw (drain_more, off) (refl, omega arith)
  ]

  -- With fuel for the number of commands, the loop of a transaction does the same whenever `try_iter`
  -- looks: what steps one by one do.
  pub in_tx-one_by_one :
      (fuel : ℕ) (schedule : ℕ → ℕ) (cmds : List (WriterCommand K V)) (st : TxState T)
      → length cmds ≤ fuel
      → in_tx T order peers fuel schedule cmds st ≡ one_by_one cmds st
  unfolding in_tx
  in_tx-one_by_one fuel schedule [] st enough = refl
  in_tx-one_by_one zero schedule (cmd ∷ cmds) st enough = absurd (omega (arith, enough))
  in_tx-one_by_one (suc fuel) schedule (cmd ∷ cmds) st enough =
      let s = step T order peers cmd st in
      let (same, fewer) = resume-drain_more (schedule fuel) cmds s in
      let d = drain_more T order peers (schedule fuel) cmds s in
      let after : (st' : TxState T)
          → in_tx T order peers fuel schedule d.rest st' ≡ one_by_one d.rest st' =
        λ st'. in_tx-one_by_one fuel schedule d.rest st' (omega (arith, fewer, enough)) in
      ap
        (λ (f : TxState T → TxRun T). elim (turn T order peers d.stepped.state d.stepped.outcome) [
          | Turn.leaves replies ending ↦ record {
            replies = d.stepped.replies ++ replies;
            rest = d.rest;
            ending = ending;
          }
          | Turn.loops st' ↦ before d.stepped.replies (f st')
        ])
        (λ i st'. after st' i)
      ∙ same
