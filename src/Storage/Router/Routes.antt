-- ===== src/Storage/Router/Routes.antt =====
-- Which shard gets which entries, values and removals from a router.
use redbit.Prelude.{
  ℕ, zero, suc, ◌+◌, ◌<◌, ◌≡◌, refl, sym, ap, subst, ◌∙◌, ◌==◌, ==_iff, Bool, Bool-cases, true,
  false, not, ◌&&◌, ◌||◌, inl, inr, Option, none, some, List, [], ◌∷◌, ◌++◌, if◌then◌else◌,
  append-nil, arith,
}
use redbit.Storage.WriterApi.{WriterCommand}
use redbit.Storage.Router.{
  Partitioning, Sent, shard_of, is_nil, nothing_sent, enumerate_from, send_buckets, send_each,
  ready_for_flush, send_pairs, merge_unsorted_inserts, query_and_write, ask_from,
}
use redbit.Storage.Router.Buckets.{keep, AllBelow, bucket_lem, keep_all}
use redbit.Storage.Router.Delivery.{
  inbox, inbox-append, inbox_here, fast_send_lem, send_buckets_lem, send_each_lem,
}

module _ {K V : Type 0} where
  -- The command of a list that is not empty.
  abbrev pub unless_empty :
      {A : Type 0} → (List A → WriterCommand K V) → List A → List (WriterCommand K V)
  unless_empty command [] = []
  unless_empty command (a ∷ xs) = command (a ∷ xs) ∷ []

  unless_empty_lem :
      {A : Type 0} (command : List A → WriterCommand K V) (xs : List A)
      → (if not (is_nil xs) then command xs ∷ [] else []) ≡ unless_empty command xs
  unless_empty_lem command [] = refl
  unless_empty_lem command (a ∷ xs) = refl

  -- The message of readiness that ends a round of insertions, if it ends it.
  abbrev pub readiness : Option ℕ → List (WriterCommand K V)
  readiness none = []
  readiness (some shards) = WriterCommand.ready_for_flush shards ∷ []

module _ {K V : Type 0} (receives : ℕ → Bool) (on : (sid : ℕ) → receives sid ≡ true) (n : ℕ)
    (part : Partitioning K V) where
  pub send_pairs_lem :
      (command : List (K × V) → WriterCommand K V) (pairs : List (K × V))
      → 0 < n
      → AllBelow (shard_of part) n pairs
      → (sent : Sent K V) × (send_pairs receives n part command pairs ≡ some sent)
        × (sent.is_ok ≡ true)
        × ((i : ℕ)
            → i < n
            → inbox i sent.messages ≡ unless_empty command (keep (shard_of part) i pairs))
  unfolding send_pairs
  send_pairs_lem command [] pos all = (nothing_sent, refl, refl, λ i h. refl)
  send_pairs_lem command (p ∷ pairs) pos all = elim (Bool-cases (n == 1)) [
    | inl one ↦
        let e : n ≡ 1 = (==_iff n 1).0 one in
        let same =
          keep_all (shard_of part) (p ∷ pairs)
            (subst (λ m. AllBelow (shard_of part) m (p ∷ pairs)) e all) in
        rw (send_pairs, one, fast_send_lem receives on 0 (command (p ∷ pairs)))
          (
            record { messages = (0, command (p ∷ pairs)) ∷ []; is_ok = true },
            refl,
            refl,
            λ i h.
                inbox_here 0 i (command (p ∷ pairs)) [] (omega (arith, h, e))
                ∙ ap (unless_empty command)
                    (sym same ∙ ap (λ j. keep (shard_of part) j (p ∷ pairs)) (omega (arith, h, e))),
          )
    | inr more ↦
        let (buckets, done, long, held) = bucket_lem (shard_of part) n (p ∷ pairs) all in
        let (ok, _, at) = send_buckets_lem receives on (λ b. not (is_nil b)) command 0 buckets in
        let many : (n == 0) ≡ false = ground (arith, pos) in
        rw (send_pairs, more, many, done)
          (
            send_buckets receives (λ b. not (is_nil b)) command 0 buckets,
            refl,
            ok,
            λ i h.
                ap
                  (λ j.
                    inbox j
                      (send_buckets receives (λ b. not (is_nil b)) command 0 buckets).messages)
                  (omega (arith))
                ∙ at i (keep (shard_of part) i (p ∷ pairs)) (held i h)
                ∙ unless_empty_lem command _,
          )
  ]

  -- While the threads receive, `merge_unsorted_inserts` sends each of the shards its entries, all of
  -- them, in order and in one command, unless it has none, and after it the message of readiness.
  pub merge_unsorted_inserts_lem :
      (pairs : List (K × V)) (last_shards : Option ℕ)
      → 0 < n
      → AllBelow (shard_of part) n pairs
      → (sent : Sent K V) × (merge_unsorted_inserts receives n part pairs last_shards ≡ some sent)
        × (sent.is_ok ≡ true)
        × ((i : ℕ)
            → i < n
            → inbox i sent.messages
              ≡ unless_empty WriterCommand.merge_unsorted_inserts (keep (shard_of part) i pairs)
                ++ readiness last_shards)
  unfolding merge_unsorted_inserts ready_for_flush
  merge_unsorted_inserts_lem pairs none pos all =
      let (sent, done, ok, at) =
        send_pairs_lem WriterCommand.merge_unsorted_inserts pairs pos all in
      rw (merge_unsorted_inserts, done) (sent, refl, ok, λ i h. at i h ∙ sym (append-nil _))
  merge_unsorted_inserts_lem pairs (some shards) pos all =
      let (sent, done, ok, at) =
        send_pairs_lem WriterCommand.merge_unsorted_inserts pairs pos all in
      let command : ℕ → WriterCommand K V = λ _. WriterCommand.ready_for_flush shards in
      let ready : Sent K V = send_each receives command 0 n in
      let (ok', _, at') = send_each_lem receives on command 0 n in
      let shift : (i : ℕ) → i ≡ 0 + i = λ i. omega arith in
      let got : (i : ℕ) → i < n → inbox i ready.messages ≡ readiness (some shards) =
        λ i h. ap (λ j. inbox j ready.messages) (shift i) ∙ at' i h in
      rw (merge_unsorted_inserts, done, ok)
        (
          record { messages = sent.messages ++ ready.messages; is_ok = ready.is_ok },
          refl,
          ok',
          λ i h.
              inbox-append i sent.messages ready.messages
              ∙ ap (λ l. l ++ inbox i ready.messages) (at i h)
              ∙ ap
                  (λ l.
                    unless_empty WriterCommand.merge_unsorted_inserts (keep (shard_of part) i pairs)
                    ++ l)
                  (got i h),
        )

AllBelow-enumerate :
    {V : Type 0} (f : V → ℕ) (n : ℕ) (values : List V) (i : ℕ)
    → AllBelow f n values
    → AllBelow (λ (p : ℕ × V). f p.1) n (enumerate_from i values)
AllBelow-enumerate f n [] i all = tt
AllBelow-enumerate f n (v ∷ values) i (below, all) =
    (below, AllBelow-enumerate f n values (suc i) all)

if_not : {A : Type 0} (b : Bool) (x : List A) → (if not b then x else []) ≡ (if b then [] else x)
if_not true x = refl
if_not false x = refl

module _ {K V : Type 0} (receives : ℕ → Bool) (on : (sid : ℕ) → receives sid ≡ true) (n : ℕ) where
  work_lem :
      (f : V → ℕ) (values : List V) (is_last : Bool) (sink : ℕ)
      → 1 < n
      → AllBelow f n values
      → (is_nil values && not is_last) ≡ false
      → (sent : Sent K V) × (query_and_write receives n
            (Partitioning.by_value f)
            values
            is_last
            sink
          ≡ some sent)
        × (sent.is_ok ≡ true)
        × ((i : ℕ)
            → i < n
            → inbox i sent.messages ≡ (
                let mine = keep (λ (p : ℕ × V). f p.1) i (enumerate_from 0 values) in
                if is_nil mine && not is_last
                then []
                else WriterCommand.query_and_write (if is_last then some n else none) mine sink
                  ∷ []))
  unfolding query_and_write
  work_lem f values is_last sink many all work =
      let several : (n == 1) ≡ false = ground (arith, many) in
      let (buckets, done, long, held) =
        bucket_lem (λ (p : ℕ × V). f p.1) n (enumerate_from 0 values)
          (AllBelow-enumerate f n values 0 all) in
      let command : List (ℕ × V) → WriterCommand K V =
        λ b. WriterCommand.query_and_write (if is_last then some n else none) b sink in
      let (ok, _, at) =
        send_buckets_lem receives on (λ b. not (is_nil b && not is_last)) command 0 buckets in
      let shift : (i : ℕ) → i ≡ 0 + i = λ i. omega arith in
      let sent : Sent K V =
        send_buckets receives (λ b. not (is_nil b && not is_last)) command 0 buckets in
      rw (query_and_write, several, work, done)
        (
          sent,
          refl,
          ok,
          λ i h.
              ap (λ j. inbox j sent.messages) (shift i)
              ∙ at i _ (held i h)
              ∙ if_not
                  (is_nil (keep (λ (p : ℕ × V). f p.1) i (enumerate_from 0 values)) && not is_last)
                  _,
        )

  -- With several shards and by value, while the threads receive, `query_and_write` sends each shard
  -- the values of it with their positions, in order; a shard without values gets a command only in
  -- the last round, where every command says how many shards there are.
  pub query_and_write_lem :
      (f : V → ℕ) (values : List V) (is_last : Bool) (sink : ℕ)
      → 1 < n
      → AllBelow f n values
      → (sent : Sent K V) × (query_and_write receives n
            (Partitioning.by_value f)
            values
            is_last
            sink
          ≡ some sent)
        × (sent.is_ok ≡ true)
        × ((i : ℕ)
            → i < n
            → inbox i sent.messages ≡ (
                let mine = keep (λ (p : ℕ × V). f p.1) i (enumerate_from 0 values) in
                if is_nil mine && not is_last
                then []
                else WriterCommand.query_and_write (if is_last then some n else none) mine sink
                  ∷ []))
  unfolding query_and_write
  query_and_write_lem f [] false sink many all =
      let several : (n == 1) ≡ false = ground (arith, many) in
      rw (query_and_write, several) (nothing_sent, refl, refl, λ i h. refl)
  query_and_write_lem f [] true sink many all = work_lem f [] true sink many all refl
  query_and_write_lem f (v ∷ values) is_last sink many all =
      work_lem f (v ∷ values) is_last sink many all refl

module _ {K : Type 0} (ask : ℕ → K → Option Bool) (key : K) where
  -- Some of the shards from one on had the key.
  abbrev pub some_had : (ℕ → Bool) → ℕ → ℕ → Bool
  some_had had sid zero = false
  some_had had sid (suc n) = had sid || some_had had (suc sid) n

  -- By value, if each thread answers, `delete_kv` says whether any shard had the key.
  pub ask_from-some_had :
      (had : ℕ → Bool) (n sid : ℕ)
      → ((i : ℕ) → ask i key ≡ some (had i))
      → ask_from ask sid n key ≡ some (some_had had sid n)
  unfolding ask_from
  ask_from-some_had had zero sid answers = refl
  ask_from-some_had had (suc n) sid answers = elim (Bool-cases (had sid)) [
    | inl found ↦ rw (ask_from, answers sid, found) refl
    | inr missing ↦ rw (ask_from, answers sid, missing) (ask_from-some_had had n (suc sid) answers)
  ]
