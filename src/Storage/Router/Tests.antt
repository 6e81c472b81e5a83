-- ===== src/Storage/Router/Tests.antt =====
-- A router of three shards, by the remainder of the key or of the value.
use redbit.Prelude.{
  ℕ, ◌<◌, ◌%◌, ◌≡◌, refl, not, ◌&&◌, Bool, true, none, some, List, [], ◌∷◌, ◌++◌, if◌then◌else◌,
  arith,
}
use redbit.Storage.WriterApi.{WriterCommand}
use redbit.Storage.Router.{
  Partitioning, Sent, shard_of, is_nil, enumerate_from, merge_unsorted_inserts, query_and_write,
}
use redbit.Storage.Router.Buckets.{keep}
use redbit.Storage.Router.Delivery.{inbox}
use redbit.Storage.Router.Routes.{
  unless_empty, readiness, merge_unsorted_inserts_lem, query_and_write_lem,
}

abbrev by_remainder : Partitioning ℕ ℕ
by_remainder = Partitioning.by_key (λ k. k % 3)

abbrev some_pairs : List (ℕ × ℕ)
some_pairs = (4, 0) ∷ (6, 1) ∷ (7, 2) ∷ []

abbrev all_receive : ℕ → Bool
all_receive sid = true

merge_unsorted_inserts_lem_example :
    (sent : Sent ℕ ℕ) × (merge_unsorted_inserts all_receive 3 by_remainder some_pairs (some 2)
      ≡ some sent)
    × (sent.is_ok ≡ true)
    × ((i : ℕ)
        → i < 3
        → inbox i sent.messages
          ≡ unless_empty WriterCommand.merge_unsorted_inserts
              (keep (shard_of by_remainder) i some_pairs)
            ++ readiness (some 2))
merge_unsorted_inserts_lem_example =
    merge_unsorted_inserts_lem all_receive (λ sid. refl) 3 by_remainder some_pairs (some 2)
      (omega arith) (omega arith, (omega arith, (omega arith, tt)))

query_and_write_lem_example :
    (sent : Sent ℕ ℕ) × (query_and_write all_receive 3
        (Partitioning.by_value (λ v. v % 3))
        (5 ∷ 8 ∷ 9 ∷ [])
        true
        0
      ≡ some sent)
    × (sent.is_ok ≡ true)
    × ((i : ℕ)
        → i < 3
        → inbox i sent.messages ≡ (
            let mine = keep (λ (p : ℕ × ℕ). p.1 % 3) i (enumerate_from 0 (5 ∷ 8 ∷ 9 ∷ [])) in
            if is_nil mine && not true
            then []
            else WriterCommand.query_and_write (if true then some 3 else none) mine 0 ∷ []))
query_and_write_lem_example =
    query_and_write_lem all_receive (λ sid. refl) 3 (λ v. v % 3) (5 ∷ 8 ∷ 9 ∷ []) true 0
      (omega arith) (omega arith, (omega arith, (omega arith, tt)))
