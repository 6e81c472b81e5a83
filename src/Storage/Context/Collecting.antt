-- ===== src/Storage/Context/Collecting.antt =====
-- What the tables of a context send, and the futures that they return, before those are waited for.
use redbit.Prelude.{
  ℕ, zero, suc, ◌≡◌, refl, sym, ap, subst, ◌∙◌, Bool, true, false, List, [], ◌∷◌, ◌++◌, map,
  if◌then◌else◌, append_assoc, Option-cases, inl, inr,
}
use redbit.Prelude.Collect.{All}
use redbit.Storage.TableWriter.{TableWriter, FlushFuture, futures_from, flush_async}
use redbit.Storage.Context.{WriterRefs, commit_with_ref, commit_ctx_async, shard}
use redbit.Storage.Context.Quiet.{future_of, flush_async-IsQuiet}
use redbit.Storage.Context.Runs.{
  if-eq-some, IsNoRootFlush, All-sends, acks_of-sends, Run, Run-returns, Run-extended,
}

-- The tables of a context and of those in it, in order.
module _ {Tab : Type 0} where
  abbrev pub tables : WriterRefs Tab → List Tab
  tables WriterRefs.done = []
  tables (WriterRefs.table t refs) = t ∷ tables refs
  tables (WriterRefs.context inner refs) = tables inner ++ tables refs

module _ {Tab : Type 0} {K V : Tab → Type 0} (writer : (t : Tab) → TableWriter (K t) (V t)) where
  abbrev pub futures_of : Tab → List (Tab × FlushFuture)
  futures_of t = map (λ f. (t, f)) (futures_from (future_of (writer t)) 0 (writer t).shards)

  abbrev pub each_future : List Tab → List (Tab × FlushFuture)
  each_future [] = []
  each_future (t ∷ ts) = futures_of t ++ each_future ts

  pub each_future-append :
      (ts us : List Tab) → each_future (ts ++ us) ≡ each_future ts ++ each_future us
  each_future-append [] us = refl
  each_future-append (t ∷ ts) us =
      ap (λ l. futures_of t ++ l) (each_future-append ts us)
      ∙ sym (append_assoc (futures_of t) (each_future ts) (each_future us))

  module _ (receives : Tab → ℕ → Bool) where
    commit_with_ref-Run :
        (t : Tab)
        → Run
            (IsNoRootFlush writer)
            []
            (λ fs. fs ≡ futures_of t)
            (commit_with_ref writer receives t)
    unfolding commit_with_ref
    commit_with_ref-Run t = elim (Option-cases (flush_async (receives t) (writer t))) [
      | inl nothing ↦
          rw (commit_with_ref, nothing) (record { quiet = tt; goes_on = λ h. absurd (cc) })
      | inr ((w, sent, futures), done) ↦
          let (all, are) = flush_async-IsQuiet (receives t) (writer t) done in
          rw (commit_with_ref, done)
            (record {
              quiet = All-sends writer t sent.messages all;
              goes_on = λ h. (
                acks_of-sends K V t sent.messages,
                sym (if-eq-some sent.is_ok h) ∙ ap (map (λ f. (t, f))) are,
              );
            })
    ]

    pub commit_ctx_async-Run :
        (refs : WriterRefs Tab)
        → Run
            (IsNoRootFlush writer)
            []
            (λ fs. fs ≡ each_future (tables refs))
            (commit_ctx_async writer receives refs)
    unfolding commit_ctx_async
    commit_ctx_async-Run WriterRefs.done =
        Run-returns (IsNoRootFlush writer) {R = λ fs. fs ≡ []} [] refl
    commit_ctx_async-Run (WriterRefs.table t refs) =
        Run-extended (IsNoRootFlush writer) (commit_with_ref writer receives t)
          (commit_ctx_async writer receives refs) (commit_with_ref-Run t)
          (commit_ctx_async-Run refs)
    commit_ctx_async-Run (WriterRefs.context inner refs) =
        subst
          (λ fs'.
            Run (IsNoRootFlush writer) [] (λ fs. fs ≡ fs')
              (commit_ctx_async writer receives (WriterRefs.context inner refs)))
          (sym (each_future-append (tables inner) (tables refs)))
          (Run-extended (IsNoRootFlush writer) (commit_ctx_async writer receives inner)
            (commit_ctx_async writer receives refs) (commit_ctx_async-Run inner)
            (commit_ctx_async-Run refs))

-- The shards of the tables, in order.
module _ {Tab : Type 0} where
  abbrev pub shards_from : Tab → ℕ → ℕ → List (Tab × ℕ)
  shards_from t sid zero = []
  shards_from t sid (suc n) = (t, sid) ∷ shards_from t (suc sid) n

  abbrev pub acked_by : List (Tab × FlushFuture) → List (Tab × ℕ)
  acked_by [] = []
  acked_by ((t, f) ∷ futures) = (t, shard f) ∷ acked_by futures

  abbrev pub AreEager : List (Tab × FlushFuture) → Type 0
  AreEager [] = Unit
  AreEager ((t, f) ∷ futures) = (f ≡ FlushFuture.eager (shard f)) × AreEager futures

  pub acked_by-append :
      (fs gs : List (Tab × FlushFuture)) → acked_by (fs ++ gs) ≡ acked_by fs ++ acked_by gs
  acked_by-append [] gs = refl
  acked_by-append ((t, f) ∷ fs) gs = ap (λ l. (t, shard f) ∷ l) (acked_by-append fs gs)

  pub AreEager-append :
      (fs gs : List (Tab × FlushFuture)) → AreEager fs → AreEager gs → AreEager (fs ++ gs)
  AreEager-append [] gs are are' = are'
  AreEager-append ((t, f) ∷ fs) gs are are' = (are.0, AreEager-append fs gs are.1 are')

  futures_from-AreEager :
      (t : Tab) (sid n : ℕ) → AreEager (map (λ f. (t, f)) (futures_from FlushFuture.eager sid n))
  futures_from-AreEager t sid zero = tt
  futures_from-AreEager t sid (suc n) = (refl, futures_from-AreEager t (suc sid) n)

  acked_by-futures :
      (b : Bool) (t : Tab) (sid n : ℕ)
      → acked_by (
          map
            (λ f. (t, f))
            (futures_from (if b then FlushFuture.lazy else FlushFuture.eager) sid n))
        ≡ shards_from t sid n
  acked_by-futures b t sid zero = refl
  acked_by-futures true t sid (suc n) = ap (λ l. (t, sid) ∷ l) (acked_by-futures true t (suc sid) n)
  acked_by-futures false t sid (suc n) =
      ap (λ l. (t, sid) ∷ l) (acked_by-futures false t (suc sid) n)

module _ {Tab : Type 0} {K V : Tab → Type 0} (writer : (t : Tab) → TableWriter (K t) (V t)) where
  abbrev pub all_shards : List Tab → List (Tab × ℕ)
  all_shards [] = []
  all_shards (t ∷ ts) = shards_from t 0 (writer t).shards ++ all_shards ts

  pub acked_by-each : (ts : List Tab) → acked_by (each_future writer ts) ≡ all_shards ts
  acked_by-each [] = refl
  acked_by-each (t ∷ ts) =
      acked_by-append (futures_of writer t) (each_future writer ts)
      ∙ ap (λ l. l ++ acked_by (each_future writer ts))
          (acked_by-futures (writer t).root_pk t 0 (writer t).shards)
      ∙ ap (λ l. shards_from t 0 (writer t).shards ++ l) (acked_by-each ts)

  pub each_future-AreEager :
      (ts : List Tab) → All (λ t. (writer t).root_pk ≡ false) ts → AreEager (each_future writer ts)
  each_future-AreEager [] all = tt
  each_future-AreEager (t ∷ ts) all =
      AreEager-append (futures_of writer t) (each_future writer ts)
        (subst
          (λ b. AreEager (
            map (λ f. (t, f))
              (futures_from (if b then FlushFuture.lazy else FlushFuture.eager) 0
                (writer t).shards)))
          (sym all.0) (futures_from-AreEager t 0 (writer t).shards))
        (each_future-AreEager ts all.1)
