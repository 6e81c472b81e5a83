-- ===== src/Storage/TxFsm/Commits.antt =====
-- How a writer thread changes the data of its shard.
use redbit.Prelude.{
  ℕ, zero, suc, ◌≡◌, refl, sym, ap, subst, ◌∙◌, none, some, List, [], ◌∷◌, ◌++◌, append_assoc,
  Option-cases, inl, inr,
}
use redbit.Prelude.Order.{KeyOrder}
use redbit.Storage.WriterApi.{AppError, TxDurability, WriterCommand, Reply}
use redbit.Storage.TxFsm.{WriteTable, Peers, TxState}
use redbit.Storage.TxFsm.Thread.{
  Ending, TxRun, Begin, Database, Served, after_replies, in_tx, new_state, serve,
}
use redbit.Storage.TxFsm.Acknowledged.{acknowledged, acknowledged-append_nil, in_tx-silent}

-- Data that come from others by commits alone, each in a transaction that began on the data of the one
-- before, with the channels to which their success was reported.
pub data Commits {K V : Type 0} {T : WriteTable K V} (D : Database T)
    : D.Data → List ℕ → D.Data → Type 0 where
  none_yet : {db : D.Data} → Commits D db [] db
  commit :
      {db db' db'' : D.Data} {acks : List ℕ} (ack : ℕ) (durability : TxDurability)
      (opened table : T.State)
      → D.begin_write db durability ≡ Begin.opened opened
      → D.commit db table ≡ some db'
      → Commits D db' acks db''
      → Commits D db (ack ∷ acks) db''

-- To split on how a transaction begins and ends, and keep the equation.
data BeginCase {K V : Type 0} {T : WriteTable K V} (b : Begin T) : Type 0 where
  is_closed : b ≡ Begin.closed → BeginCase b
  is_failed : b ≡ Begin.failed → BeginCase b
  is_opened : (table : T.State) → b ≡ Begin.opened table → BeginCase b

Begin-cases : {K V : Type 0} {T : WriteTable K V} (b : Begin T) → BeginCase b
Begin-cases Begin.closed = BeginCase.is_closed refl
Begin-cases Begin.failed = BeginCase.is_failed refl
Begin-cases (Begin.opened table) = BeginCase.is_opened table refl

data EndingCase {K V : Type 0} {T : WriteTable K V} (e : Ending T) : Type 0 where
  is_waiting : (st : TxState T) → e ≡ Ending.waits st → EndingCase e
  is_aborted : e ≡ Ending.aborts → EndingCase e
  is_commit : (ack : ℕ) (table : T.State) → e ≡ Ending.commits_table ack table → EndingCase e
  is_stopped : e ≡ Ending.stops → EndingCase e
  is_dead : e ≡ Ending.dies → EndingCase e

Ending-cases : {K V : Type 0} {T : WriteTable K V} (e : Ending T) → EndingCase e
Ending-cases (Ending.waits st) = EndingCase.is_waiting st refl
Ending-cases Ending.aborts = EndingCase.is_aborted refl
Ending-cases (Ending.commits_table ack table) = EndingCase.is_commit ack table refl
Ending-cases Ending.stops = EndingCase.is_stopped refl
Ending-cases Ending.dies = EndingCase.is_dead refl

module _ {K V : Type 0} {T : WriteTable K V} (D : Database T) (order : KeyOrder K)
    (peers : Peers K) where
  abbrev IsHonest : D.Data → Served D → Type 0
  IsHonest db s = Commits D db (acknowledged s.replies) s.data_after

  after_replies-IsHonest :
      (replies : List (Reply K V)) (db : D.Data) (s : Served D)
      → acknowledged replies ≡ []
      → IsHonest db s
      → IsHonest db (after_replies replies s)
  after_replies-IsHonest replies db s silent honest =
      subst (λ acks. Commits D db acks s.data_after)
        (sym (acknowledged-append_nil replies s.replies silent)) honest

  -- After a commit the success is the first that is reported.
  after_commit-IsHonest :
      (replies : List (Reply K V)) (ack : ℕ) (durability : TxDurability) (opened table : T.State)
      (db db' : D.Data) (s : Served D)
      → acknowledged replies ≡ []
      → D.begin_write db durability ≡ Begin.opened opened
      → D.commit db table ≡ some db'
      → IsHonest db' s
      → IsHonest db (after_replies (replies ++ Reply.flushed ack none ∷ []) s)
  after_commit-IsHonest replies ack durability opened table db db' s silent began done honest =
      subst (λ acks. Commits D db acks s.data_after)
        (sym (
          ap acknowledged (append_assoc replies (Reply.flushed ack none ∷ []) s.replies)
          ∙ acknowledged-append_nil replies (Reply.flushed ack none ∷ s.replies) silent))
        (Commits.commit ack durability opened table began done honest)

  -- Whatever a writer thread is sent, in whatever batches: its data change only by
  -- the commits of transactions that it began on them, and a flush is reported as a success exactly once for
  -- each of these commits, in their order.
  pub serve-Commits :
      (fuel : ℕ) (schedule : ℕ → ℕ) (cmds : List (WriterCommand K V)) (db : D.Data)
      → Commits D db
          (acknowledged (serve D order peers fuel schedule cmds db).replies)
          (serve D order peers fuel schedule cmds db).data_after
  unfolding serve
  serve-Commits fuel schedule [] db = Commits.none_yet
  serve-Commits zero schedule (cmd ∷ cmds) db = Commits.none_yet
  serve-Commits (suc fuel) schedule (WriterCommand.begin ack durability ∷ cmds) db =
      elim (Begin-cases (D.begin_write db durability)) [
        | BeginCase.is_closed closed ↦ rw (serve, closed) Commits.none_yet
        | BeginCase.is_failed failed ↦ rw (serve, failed) (serve-Commits fuel schedule cmds db)
        | BeginCase.is_opened table opened ↦
            let run : TxRun T = in_tx T order peers fuel schedule cmds (new_state T table) in
            let silent : acknowledged run.replies ≡ [] =
              in_tx-silent T order peers fuel schedule cmds (new_state T table) in
            let replies : List (Reply K V) = Reply.begun ack none ∷ run.replies in
            let only : Commits D db (acknowledged run.replies) db =
              subst (λ acks. Commits D db acks db) (sym silent) Commits.none_yet in
            elim (Ending-cases run.ending) [
              | EndingCase.is_waiting st e ↦ rw (serve, opened, e) only
              | EndingCase.is_stopped e ↦ rw (serve, opened, e) only
              | EndingCase.is_dead e ↦ rw (serve, opened, e) only
              | EndingCase.is_aborted e ↦
                  rw (serve, opened, e)
                    (after_replies-IsHonest replies db
                      (serve D order peers fuel schedule run.rest db) silent
                      (serve-Commits fuel schedule run.rest db))
              | EndingCase.is_commit ack' table' e ↦ elim (Option-cases (D.commit db table')) [
                | inl failed ↦
                    rw (serve, opened, e, failed)
                      (after_replies-IsHonest
                        (replies ++ Reply.flushed ack' (some AppError.commit_failed) ∷ []) db
                        (serve D order peers fuel schedule run.rest db)
                        (acknowledged-append_nil replies _ silent)
                        (serve-Commits fuel schedule run.rest db))
                | inr (db', done) ↦
                    rw (serve, opened, e, done)
                      (after_commit-IsHonest replies ack' durability table table' db db'
                        (serve D order peers fuel schedule run.rest db') silent opened done
                        (serve-Commits fuel schedule run.rest db'))
              ]
            ]
      ]
  serve-Commits (suc fuel) schedule (WriterCommand.shutdown ack ∷ cmds) db = Commits.none_yet
  serve-Commits (suc fuel) schedule (_ ∷ cmds) db = Commits.none_yet
