-- ===== src/Storage/WriterApi/Tests.antt =====
-- Flushes of two columns, one of them with two shards.
use redbit.Prelude.{ℕ, ◌≤◌, ◌≡◌, none, some, List, [], ◌∷◌, ◌++◌, map}
use mathlib.Core.List.{Memᴰ}
use redbit.Prelude.Equality.{nat_eq}
use redbit.Storage.WriterApi.{TaskStats, TaskResult, sum, dedup_tasks_keep_slowest}
use redbit.Storage.WriterApi.Slowest.{entry, dedup_tasks_keep_slowest_lem}

abbrev took : ℕ → TaskStats
took ms = record { collect_took = ms; sort_took = 1; write_took = 1; flush_took = 1 }

abbrev three_tasks : List (TaskResult ℕ)
three_tasks =
    record { name = 0; stats = took 5 }
    ∷ record { name = 1; stats = took 3 }
    ∷ record { name = 0; stats = took 8 }
    ∷ []

dedup_tasks_keep_slowest_lem_example :
    ((out : List (TaskResult ℕ)) × (dedup_tasks_keep_slowest nat_eq (map some three_tasks)
        ≡ some out)
      × ((n : ℕ) (t : TaskResult ℕ)
          → entry nat_eq n out ≡ some t
          → Memᴰ t three_tasks × (t.name ≡ n))
      × ((u : TaskResult ℕ)
          → Memᴰ u three_tasks
          → (t : TaskResult ℕ) × (entry nat_eq u.name out ≡ some t) × (sum u.stats ≤ sum t.stats)))
    × (dedup_tasks_keep_slowest nat_eq (map some three_tasks ++ none ∷ []) ≡ none)
dedup_tasks_keep_slowest_lem_example = dedup_tasks_keep_slowest_lem nat_eq three_tasks []
