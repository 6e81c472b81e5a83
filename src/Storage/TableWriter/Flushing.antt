-- ===== src/Storage/TableWriter/Flushing.antt =====
-- What the threads of the shards get when a table is flushed.
use redbit.Prelude.{
  ℕ, ◌+◌, ◌<◌, ◌≡◌, refl, sym, ap, ◌∙◌, Bool, true, false, some, List, [], ◌∷◌, ◌++◌, if◌then◌else◌,
  append-nil, arith,
}
use redbit.Storage.WriterApi.{WriterCommand}
use redbit.Storage.Router.{
  Sent, shard_of, is_nil, nothing_sent, then_send, send_each, send_pairs,
  write_sorted_inserts_on_flush,
}
use redbit.Storage.Router.Buckets.{keep, AllBelow}
use redbit.Storage.Router.Delivery.{inbox, inbox-append, send_each_lem}
use redbit.Storage.Router.Routes.{unless_empty, send_pairs_lem}
use redbit.Storage.TableWriter.{
  TableWriter, FlushFuture, flush_command, futures_from, send_sync_buf, flush_async,
}

module _ {K V : Type 0} (receives : ℕ → Bool) (on : (sid : ℕ) → receives sid ≡ true) where
  send_sync_buf_lem :
      (w : TableWriter K V)
      → 0 < w.shards
      → AllBelow (shard_of w.part) w.shards w.sync_buf
      → (sent : Sent K V) × (send_sync_buf receives w ≡ some sent)
        × (sent.is_ok ≡ true)
        × ((i : ℕ)
            → i < w.shards
            → inbox i sent.messages
              ≡ unless_empty WriterCommand.write_sorted_inserts_on_flush
                  (keep (shard_of w.part) i w.sync_buf))
  unfolding send_sync_buf write_sorted_inserts_on_flush
  send_sync_buf_lem w pos all = go w.sync_buf all
    where
      go :
          (pairs : List (K × V))
          → AllBelow (shard_of w.part) w.shards pairs
          → (sent : Sent K V) × ((if is_nil pairs
                then some nothing_sent
                else send_pairs receives w.shards w.part WriterCommand.write_sorted_inserts_on_flush
                    pairs)
              ≡ some sent)
            × (sent.is_ok ≡ true)
            × ((i : ℕ)
                → i < w.shards
                → inbox i sent.messages
                  ≡ unless_empty WriterCommand.write_sorted_inserts_on_flush
                      (keep (shard_of w.part) i pairs))
      go [] below = (nothing_sent, refl, refl, λ i h. refl)
      go (p ∷ pairs) below =
          send_pairs_lem receives on w.shards w.part WriterCommand.write_sorted_inserts_on_flush
            (p ∷ pairs) pos below

  -- While the threads receive, `flush_async` empties the buffer of the table and sends each shard its
  -- entries of it, all of them, in order and in one command, unless it has none; after that, but for
  -- the table of the root keys, whose flush waits, it sends each shard one command to flush: when it
  -- is ready if the router was handed out, at once if not. It returns a future for each shard, a lazy
  -- one for the table of the root keys.
  pub flush_async_lem :
      (w : TableWriter K V)
      → 0 < w.shards
      → AllBelow (shard_of w.part) w.shards w.sync_buf
      → (sent : Sent K V) × (flush_async receives w
          ≡ some (
            record w { sync_buf = [] },
            sent,
            futures_from (if w.root_pk then FlushFuture.lazy else FlushFuture.eager) 0 w.shards,
          ))
        × (sent.is_ok ≡ true)
        × ((i : ℕ)
            → i < w.shards
            → inbox i sent.messages
              ≡ unless_empty WriterCommand.write_sorted_inserts_on_flush
                  (keep (shard_of w.part) i w.sync_buf)
                ++ (if w.root_pk then [] else flush_command w i ∷ []))
  unfolding flush_async
  flush_async_lem w pos all =
      let (sent, done, ok, at) = send_sync_buf_lem w pos all in
      let flushes : Sent K V = send_each receives (flush_command w) 0 w.shards in
      let (ok', _, at') = send_each_lem receives on (flush_command w) 0 w.shards in
      let shift : (i : ℕ) → i ≡ 0 + i = λ i. omega arith in
      let got : (i : ℕ) → i < w.shards → inbox i flushes.messages ≡ flush_command w i ∷ [] = λ i h.
        ap (λ j. inbox j flushes.messages) (shift i)
        ∙ at' i h
        ∙ ap (λ j. flush_command w j ∷ []) (sym (shift i)) in
      let before : ℕ → List (WriterCommand K V) = λ i.
        unless_empty WriterCommand.write_sorted_inserts_on_flush
          (keep (shard_of w.part) i w.sync_buf) in
      let (sent', same, ok'', got') = finish w w.root_pk sent flushes before ok ok' at got in
      (sent', rw (done) (ap some same), ok'', got')
    where
      finish :
          (w : TableWriter K V)
          → (root_pk : Bool) → (sent flushes : Sent K V) → (before : ℕ → List (WriterCommand K V))
          → sent.is_ok ≡ true
          → flushes.is_ok ≡ true
          → ((i : ℕ) → i < w.shards → inbox i sent.messages ≡ before i)
          → ((i : ℕ) → i < w.shards → inbox i flushes.messages ≡ flush_command w i ∷ [])
          → (sent' : Sent K V) × (◌≡◌ {A = TableWriter K V × Sent K V × List FlushFuture}
              (if root_pk
                then (record w { sync_buf = [] }, sent, futures_from FlushFuture.lazy 0 w.shards)
                else (
                  record w { sync_buf = [] },
                  then_send sent flushes,
                  futures_from FlushFuture.eager 0 w.shards,
                ))
              (
                record w { sync_buf = [] },
                sent',
                futures_from (if root_pk then FlushFuture.lazy else FlushFuture.eager) 0 w.shards,
              ))
            × (sent'.is_ok ≡ true)
            × ((i : ℕ)
                → i < w.shards
                → inbox i sent'.messages
                  ≡ before i ++ (if root_pk then [] else flush_command w i ∷ []))
      finish w true sent flushes before ok ok' at got =
          (sent, refl, ok, λ i h. at i h ∙ sym (append-nil _))
      finish w false sent flushes before ok ok' at got = (
        record { messages = sent.messages ++ flushes.messages; is_ok = flushes.is_ok },
        (rw (ok) refl),
        ok',
        λ i h.
            inbox-append i sent.messages flushes.messages
            ∙ ap (λ l. l ++ inbox i flushes.messages) (at i h)
            ∙ ap (λ l. before i ++ l) (got i h),
      )
