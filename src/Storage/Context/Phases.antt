-- ===== src/Storage/Context/Phases.antt =====
-- When the shards of the tables of a context are asked to flush, and what they acknowledged before.
use redbit.Prelude.{
  ℕ, ◌≡◌, refl, sym, ap, subst, ◌∙◌, Bool, false, Option, none, some, List, [], ◌++◌, map,
  append-nil, Option-cases, inl, inr, ◌⊎◌,
}
use redbit.Prelude.Equality.{Eq}
use redbit.Prelude.Collect.{All}
use redbit.Storage.WriterApi.{TaskResult, dedup_tasks_keep_slowest}
use redbit.Storage.TableWriter.{TableWriter}
use redbit.Storage.Context.{WriterRefs, and_then, commit_ctx_async, wait_each, two_phase_commit}
use redbit.Storage.Context.Runs.{IsNoRootFlush, acks_of, Run, Run-and_then}
use redbit.Storage.Context.Collecting.{
  tables, each_future, each_future-append, commit_ctx_async-Run, acked_by, all_shards,
  acked_by-each, each_future-AreEager,
}
use redbit.Storage.Context.Waiting.{
  All-unit, Phased, Phased-and_then, Phased-after, wait_each-Run, wait_each-Phased,
}

module _ {Tab Name : Type 0} {K V : Tab → Type 0} (writer : (t : Tab) → TableWriter (K t) (V t))
    (receives : Tab → ℕ → Bool) (result : Tab → ℕ → Option (TaskResult Name))
    (names : Eq Name) where
  two_phase_commit-Run :
      (refs : WriterRefs Tab)
      → Run {K = K} {V = V}
          (λ e. Unit)
          (all_shards writer (tables refs))
          (λ (r : List (TaskResult Name)). Unit)
          (two_phase_commit writer receives result names refs)
  unfolding two_phase_commit
  two_phase_commit-Run refs =
      let collected = commit_ctx_async-Run writer receives refs in
      let all = each_future writer (tables refs) in
      subst
        (λ acked.
          Run {K = K} {V = V} (λ e. Unit) acked (λ (r : List (TaskResult Name)). Unit)
            (two_phase_commit writer receives result names refs))
        (append-nil (acked_by all) ∙ acked_by-each writer (tables refs))
        (Run-and_then (λ e. Unit) {R = λ fs. fs ≡ all} {R' = λ r. Unit}
          (commit_ctx_async writer receives refs) _
          (record {
            quiet = All-unit (commit_ctx_async writer receives refs).log;
            goes_on = collected.goes_on;
          })
          (λ fs is.
            subst
              (λ fs'.
                Run {K = K} {V = V} (λ e. Unit) (acked_by fs' ++ []) (λ r. Unit)
                  (and_then (wait_each receives result fs) (λ tasks. record {
                    log = [];
                    outcome = dedup_tasks_keep_slowest names (map some tasks);
                  })))
              is
              (Run-and_then (λ e. Unit) {R = λ r. Unit} {R' = λ r. Unit}
                (wait_each receives result fs) _ (wait_each-Run receives result fs)
                (λ tasks _. record { quiet = tt; goes_on = λ h. (refl, tt) }))))

  -- In the commit of a context, no shard of a table with root keys is asked to flush before all the
  -- shards of the tables that stand ahead of it acknowledged that they flushed, if those have no root
  -- keys; and if the commit succeeds, every shard of every table of the context and of the contexts in
  -- it acknowledged, in their order.
  pub two_phase_commit_lem :
      (refs : WriterRefs Tab) (ahead others : List Tab)
      → tables refs ≡ ahead ++ others
      → All (λ t. (writer t).root_pk ≡ false) ahead
      → Phased {K = K} {V = V}
          (IsNoRootFlush writer)
          (all_shards writer ahead)
          (two_phase_commit writer receives result names refs).log
        × (((two_phase_commit writer receives result names refs).outcome ≡ none)
            ⊎ (acks_of (two_phase_commit writer receives result names refs).log
                ≡ all_shards writer (tables refs)))
  unfolding two_phase_commit
  two_phase_commit_lem refs ahead others stands rootless =
      let collected = commit_ctx_async-Run writer receives refs in
      let eager = each_future writer ahead in
      let splits : each_future writer (tables refs) ≡ eager ++ each_future writer others =
        ap (each_future writer) stands ∙ each_future-append writer ahead others in
      (
        subst
            (λ acked.
              Phased (IsNoRootFlush writer) acked
                (two_phase_commit writer receives result names refs).log)
            (acked_by-each writer ahead)
            (Phased-and_then (IsNoRootFlush writer)
              {R = λ fs. fs ≡ each_future writer (tables refs)}
              (commit_ctx_async writer receives refs) _ collected
              (λ fs is.
                Phased-after (IsNoRootFlush writer) (wait_each receives result fs) _ (λ tasks. refl)
                  (subst
                    (λ fs'.
                      Phased (IsNoRootFlush writer) (acked_by eager)
                        (wait_each receives result fs').log)
                    (sym (is ∙ splits))
                    (wait_each-Phased receives result (IsNoRootFlush writer) eager
                      (each_future writer others) (λ t sid. tt)
                      (each_future-AreEager writer ahead rootless))))),
        elim (Option-cases (two_phase_commit writer receives result names refs).outcome) [
          | inl fails ↦ inl fails
          | inr (tasks, h) ↦ inr ((two_phase_commit-Run refs).goes_on h).0
        ],
      )
