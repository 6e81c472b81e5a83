-- ===== src/Storage/Context/Quiet.antt =====
-- Which messages the tables of a context send before their flushes are waited for.
use redbit.Prelude.{
  ℕ, zero, suc, ◌≡◌, sym, ap, subst, ◌∙◌, Bool, true, false, not, none, some, List, [], ◌∷◌, ◌++◌,
  if◌then◌else◌, Bool-cases, Option-cases, inl, inr, ◌==◌,
}
use redbit.Prelude.Collect.{All, All-append}
use redbit.Storage.WriterApi.{WriterCommand}
use redbit.Storage.Router.{
  Partitioning, Sent, is_nil, nothing_sent, then_send, shard_of, bucket, fast_send, send_buckets,
  send_each, send_pairs, write_sorted_inserts_on_flush,
}
use redbit.Storage.TableWriter.{
  TableWriter, FlushFuture, futures_from, flush_command, send_sync_buf, flush_async,
}

module _ {K V : Type 0} (P : ℕ × WriterCommand K V → Type 0) where
  All-if :
      (b : Bool) (s s' : Sent K V)
      → All P s.messages
      → All P s'.messages
      → All P (if◌then◌else◌ {A = Sent K V} b s s').messages
  All-if true s s' all all' = all
  All-if false s s' all all' = all'

  pub All-then_send :
      (s s' : Sent K V) → All P s.messages → All P s'.messages → All P (then_send s s').messages
  All-then_send s s' all all' =
      All-if s.is_ok (record { messages = s.messages ++ s'.messages; is_ok = s'.is_ok }) s
        (All-append P s.messages _ all all') all

  module _ (receives : ℕ → Bool) where
    All-fast_send :
        (sid : ℕ) (msg : WriterCommand K V)
        → P (sid, msg)
        → All P (fast_send receives sid msg).messages
    unfolding fast_send
    All-fast_send sid msg is =
        All-if (receives sid) (record { messages = (sid, msg) ∷ []; is_ok = true })
          (record { messages = []; is_ok = false }) (is, tt) tt

    pub All-send_each :
        (command : ℕ → WriterCommand K V) (sid n : ℕ)
        → ((i : ℕ) → P (i, command i))
        → All P (send_each receives command sid n).messages
    unfolding send_each
    All-send_each command sid zero is = tt
    All-send_each command sid (suc n) is =
        All-then_send (fast_send receives sid (command sid))
          (send_each receives command (suc sid) n) (All-fast_send sid (command sid) (is sid))
          (All-send_each command (suc sid) n is)

    All-send_buckets :
        {A : Type 0} (wanted : List A → Bool) (command : List A → WriterCommand K V) (sid : ℕ)
        (buckets : List (List A))
        → ((i : ℕ) (b : List A) → P (i, command b))
        → All P (send_buckets receives wanted command sid buckets).messages
    unfolding send_buckets
    All-send_buckets wanted command sid [] is = tt
    All-send_buckets wanted command sid (b ∷ buckets) is =
        let rest = send_buckets receives wanted command (suc sid) buckets in
        let all = All-send_buckets wanted command (suc sid) buckets is in
        All-if (wanted b) (then_send (fast_send receives sid (command b)) rest) rest
          (All-then_send (fast_send receives sid (command b)) rest
            (All-fast_send sid (command b) (is sid b)) all)
          all

    All-send_pairs :
        (n : ℕ) (part : Partitioning K V) (command : List (K × V) → WriterCommand K V)
        (pairs : List (K × V)) {sent : Sent K V}
        → ((i : ℕ) (b : List (K × V)) → P (i, command b))
        → send_pairs receives n part command pairs ≡ some sent
        → All P sent.messages
    unfolding send_pairs
    All-send_pairs n part command pairs {sent} is h = elim (Bool-cases (is_nil pairs)) [
      | inl empty ↦
          let done = rw (send_pairs, empty) at h in
          let e : nothing_sent ≡ sent = cc in subst (λ s. All P s.messages) e tt
      | inr more ↦ elim (Bool-cases (n == 1)) [
        | inl one ↦
            let done = rw (send_pairs, more, one) at h in
            let e : fast_send receives 0 (command pairs) ≡ sent = cc in
            subst (λ s. All P s.messages) e (All-fast_send 0 (command pairs) (is 0 pairs))
        | inr many ↦ elim (Option-cases (if n == 0 then none else bucket n (shard_of part) pairs)) [
          | inl nothing ↦ let bad = rw (send_pairs, more, many, nothing) at h in absurd (cc)
          | inr (buckets, filled) ↦
              let done = rw (send_pairs, more, many, filled) at h in
              let e : send_buckets receives (λ b. not (is_nil b)) command 0 buckets ≡ sent = cc in
              subst (λ s. All P s.messages) e
                (All-send_buckets (λ b. not (is_nil b)) command 0 buckets is)
        ]
      ]
    ]

module _ {K V : Type 0} where
  -- A message to a shard of a table that asks for no flush, unless the table has no root keys.
  abbrev pub IsQuiet : TableWriter K V → ℕ × WriterCommand K V → Type 0
  IsQuiet w (_, WriterCommand.flush _) = w.root_pk ≡ false
  IsQuiet w (_, WriterCommand.flush_when_ready _) = w.root_pk ≡ false
  IsQuiet w _ = Unit

  flush_command-IsQuiet :
      (w : TableWriter K V) (i : ℕ) → w.root_pk ≡ false → IsQuiet w (i, flush_command w i)
  flush_command-IsQuiet w i other = go w.deferred
    where
      go :
          (b : Bool)
          → IsQuiet w (i, (if b then WriterCommand.flush_when_ready i else WriterCommand.flush i))
      go true = other
      go false = other

  abbrev pub future_of : TableWriter K V → ℕ → FlushFuture
  future_of w = if w.root_pk then FlushFuture.lazy else FlushFuture.eager

  module _ (receives : ℕ → Bool) where
    send_sync_buf-IsQuiet :
        (w : TableWriter K V) {sent : Sent K V}
        → send_sync_buf receives w ≡ some sent
        → All (IsQuiet w) sent.messages
    unfolding send_sync_buf write_sorted_inserts_on_flush
    send_sync_buf-IsQuiet w {sent} h = elim (Bool-cases (is_nil w.sync_buf)) [
      | inl empty ↦
          let done = rw (send_sync_buf, empty) at h in
          let e : nothing_sent ≡ sent = cc in subst (λ s. All (IsQuiet w) s.messages) e tt
      | inr more ↦
          let done = rw (send_sync_buf, more) at h in
          All-send_pairs (IsQuiet w) receives w.shards w.part
            WriterCommand.write_sorted_inserts_on_flush w.sync_buf (λ i b. tt) done
    ]

    pub flush_async-IsQuiet :
        (w : TableWriter K V) {w' : TableWriter K V} {sent : Sent K V} {futures : List FlushFuture}
        → flush_async receives w ≡ some (w', sent, futures)
        → All (IsQuiet w) sent.messages × (futures ≡ futures_from (future_of w) 0 w.shards)
    unfolding flush_async
    flush_async-IsQuiet w {w'} {sent} {futures} h = elim (Option-cases (send_sync_buf receives w)) [
      | inl nothing ↦ let bad = rw (flush_async, nothing) at h in absurd (cc)
      | inr (first, buffered) ↦ elim (Bool-cases w.root_pk) [
        | inl root ↦
            let done = rw (flush_async, buffered, root) at h in
            let e : first ≡ sent = cc in
            let e' : futures_from FlushFuture.lazy 0 w.shards ≡ futures = cc in
            (
              subst (λ s. All (IsQuiet w) s.messages) e (send_sync_buf-IsQuiet w buffered),
              sym e'
                  ∙ ap
                      (λ b.
                        futures_from (if b then FlushFuture.lazy else FlushFuture.eager) 0 w.shards)
                      (sym root),
            )
        | inr other ↦
            let done = rw (flush_async, buffered, other) at h in
            let flushes : Sent K V = send_each receives (flush_command w) 0 w.shards in
            let e : then_send first flushes ≡ sent = cc in
            let e' : futures_from FlushFuture.eager 0 w.shards ≡ futures = cc in
            (
              subst (λ s. All (IsQuiet w) s.messages) e
                  (All-then_send (IsQuiet w) first flushes (send_sync_buf-IsQuiet w buffered) (
                    All-send_each (IsQuiet w) receives (flush_command w) 0 w.shards
                      (λ i. flush_command-IsQuiet w i other))),
              sym e'
                  ∙ ap
                      (λ b.
                        futures_from (if b then FlushFuture.lazy else FlushFuture.eager) 0 w.shards)
                      (sym other),
            )
      ]
    ]
