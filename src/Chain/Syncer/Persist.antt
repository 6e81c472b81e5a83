-- ===== src/Chain/Syncer/Persist.antt =====
-- The task "persist" of `ChainSyncer::sync` in chain/src/syncer.rs: the batches that it receives,
-- until the channel closes. Not modelled: `TryRecvError::Empty`, which waits; a shutdown, which
-- leaves the rest of the batches; the monitor; and the opening and the closing of the indexing
-- context around the loop.
use redbit.Prelude.{
  ℕ, zero, suc, ◌+◌, ◌*◌, ◌/◌, ◌%◌, ◌-◌, ◌<◌, ◌≡◌, refl, sym, ap, subst, ◌∙◌, length, Option, none,
  some, List, [], ◌∷◌, ◌==◌, if◌then◌else◌, arith, ◌++◌, Option-cases, inl, inr,
}
use native.Mathlib.Nat.{mod-add-div, mod-lt, mod-eq_of_lt, add-mul-mod_self_left}
use mathlib.Core.Option.{some_inj}
use redbit.Chain.WeightBatcher.{Durability, immediate}
use redbit.Chain.Syncer.Link.{
  Outcome, ok, failed, panicked, exhausted, Block, BlockChain, BlockProvider, persist_or_link,
}

-- How the task ends.
pub data Ending : Type 0 where
  disconnected errored crashed out_of_fuel : Ending

-- The durability of a batch by its number; a remainder by 0 panics.
unfoldable pub durability_of : ℕ → Durability → ℕ → Option Durability
durability_of non_durable_batches default_durability zero = some default_durability
durability_of zero default_durability (suc batch_counter) = none
durability_of (suc n) default_durability (suc batch_counter) =
    some (if (suc batch_counter % suc n) == 0 then immediate else default_durability)

module _ {Hash Body Store Tasks : Type 0} (provider : BlockProvider Hash Body)
    (chain : BlockChain Hash Body Store Tasks) (no_tasks : Tasks) (fuel : ℕ)
    (fork_detection_height non_durable_batches : ℕ) (default_durability : Durability) where
  -- The storage and `batch_counter` when the task ends. What a batch that fails has written of
  -- itself is not modelled: the storage is the one before it.
  unfoldable pub persist : Store → ℕ → List (List (Block Hash Body)) → Store × ℕ × Ending
  persist store batch_counter [] = (store, batch_counter, disconnected)
  persist store batch_counter (batch ∷ batches) =
      elim (durability_of non_durable_batches default_durability batch_counter) [
        | none ↦ (store, batch_counter, crashed)
        | some durability ↦
            elim (persist_or_link provider chain no_tasks fuel store batch fork_detection_height
              durability) [
                | ok (store', tasks) ↦ persist store' (suc batch_counter) batches
                | failed ↦ (store, batch_counter, errored)
                | panicked ↦ (store, batch_counter, crashed)
                | exhausted ↦ (store, batch_counter, out_of_fuel)
              ]
      ]

-- What a call returned.
data Returned {ℓ} {A : Type ℓ} (o : Outcome A) : Type ℓ where
  returned_ok : (a : A) → o ≡ ok a → Returned o
  returned_failed : o ≡ failed → Returned o
  returned_panicked : o ≡ panicked → Returned o
  returned_exhausted : o ≡ exhausted → Returned o

returned {ℓ} : {A : Type ℓ} (o : Outcome A) → Returned o
returned (ok a) = returned_ok a refl
returned failed = returned_failed refl
returned panicked = returned_panicked refl
returned exhausted = returned_exhausted refl

module _ {Hash Body Store Tasks : Type 0} (provider : BlockProvider Hash Body)
    (chain : BlockChain Hash Body Store Tasks) (no_tasks : Tasks) (fuel : ℕ)
    (fork_detection_height non_durable_batches : ℕ) (default_durability : Durability) where
  -- What the task does with more batches after it came to a point: it goes on if it has not ended
  -- with a failure.
  abbrev pub go_on : Store × ℕ × Ending → List (List (Block Hash Body)) → Store × ℕ × Ending
  go_on (store, batch_counter, disconnected) batches =
      persist provider chain no_tasks fuel fork_detection_height non_durable_batches
        default_durability store batch_counter batches
  go_on (store, batch_counter, errored) batches = (store, batch_counter, errored)
  go_on (store, batch_counter, crashed) batches = (store, batch_counter, crashed)
  go_on (store, batch_counter, out_of_fuel) batches = (store, batch_counter, out_of_fuel)

  -- Batches are persisted strictly in the order in which they come: what the task does with some
  -- batches and then others is what it does with the others after the first ones, and once a batch
  -- has failed or panicked, no later batch is persisted or counted.
  persist-append :
      (store : Store) (batch_counter : ℕ) (xs ys : List (List (Block Hash Body)))
      → persist provider chain no_tasks fuel fork_detection_height non_durable_batches
          default_durability store batch_counter
          (xs ++ ys)
        ≡ go_on
            (persist provider chain no_tasks fuel fork_detection_height non_durable_batches
              default_durability store batch_counter xs)
            ys
  unfolding persist
  persist-append store batch_counter [] ys = refl
  persist-append store batch_counter (batch ∷ xs) ys =
      elim (Option-cases (durability_of non_durable_batches default_durability batch_counter)) [
        | inl e ↦ rw (persist, e) refl
        | inr (durability, e) ↦
            elim (returned (
              persist_or_link provider chain no_tasks fuel store batch fork_detection_height
                durability)) [
                  | returned_ok (store', tasks) e' ↦
                      rw (persist, e, e') (persist-append store' (suc batch_counter) xs ys)
                  | returned_failed e' ↦ rw (persist, e, e') refl
                  | returned_panicked e' ↦ rw (persist, e, e') refl
                  | returned_exhausted e' ↦ rw (persist, e, e') refl
                ]
      ]

-- Among the numbers of any `non_durable_batches` batches in a row that leave out the very first one,
-- one has immediate durability, whatever the default is.
durable_number :
    (non_durable_batches k : ℕ) (default_durability : Durability)
    → 0 < non_durable_batches
    → (m : ℕ) × (m < non_durable_batches)
      × (durability_of non_durable_batches default_durability (suc k + m) ≡ some immediate)
unfolding durability_of
durable_number zero k d pos = absurd (omega (arith, pos))
durable_number (suc n) k d pos =
    let q = k / suc n in
    let split : k % suc n + suc n * q ≡ k = mod-add-div k (suc n) in
    let lt : k % suc n < suc n = mod-lt k (omega arith) in
    let multiple : suc (n + suc n * q) % suc n ≡ 0 =
      ap (λ (t : ℕ). t % suc n) (omega arith)
      ∙ add-mul-mod_self_left 0 (suc n) (suc q)
      ∙ mod-eq_of_lt (omega arith) in
    let number : suc k + (n - k % suc n) ≡ suc (n + suc n * q) = omega (arith, split, lt) in
    (
      n - k % suc n,
      omega arith,
      subst (λ i. durability_of (suc n) d i ≡ some immediate) (sym number) (rw multiple refl),
    )

module _ {Hash Body Store Tasks : Type 0} (provider : BlockProvider Hash Body)
    (chain : BlockChain Hash Body Store Tasks) (no_tasks : Tasks) (fuel : ℕ)
    (fork_detection_height non_durable_batches : ℕ) (default_durability : Durability) where
  -- One of the batches goes to `persist_or_link` with immediate durability, which succeeds, once the
  -- ones before it are persisted.
  pub record DurableBatch (store : Store) (batch_counter : ℕ)
      (batches : List (List (Block Hash Body))) : Type 0 where
    pub before : List (List (Block Hash Body))
    pub batch : List (Block Hash Body)
    pub after : List (List (Block Hash Body))
    pub reached : Store
    pub next : Store
    pub tasks : Tasks
    pub splits : batches ≡ before ++ batch ∷ after
    pub reaches :
        persist provider chain no_tasks fuel fork_detection_height non_durable_batches
          default_durability store batch_counter before
        ≡ (reached, batch_counter + length before, disconnected)
    pub persisted :
        persist_or_link provider chain no_tasks fuel reached batch fork_detection_height immediate
        ≡ ok (next, tasks)

  -- A batch after which the task goes on is persisted, with the durability of its number.
  persist-cons :
      (store : Store) (batch_counter : ℕ) (batch : List (Block Hash Body))
      (batches : List (List (Block Hash Body))) {store' : Store} {counter' : ℕ}
      → persist provider chain no_tasks fuel fork_detection_height non_durable_batches
          default_durability store batch_counter
          (batch ∷ batches)
        ≡ (store', counter', disconnected)
      → (durability : Durability) × (next : Store) × (tasks : Tasks) × (durability_of
            non_durable_batches default_durability batch_counter
          ≡ some durability)
        × (persist_or_link provider chain no_tasks fuel store batch fork_detection_height durability
            ≡ ok (next, tasks))
        × (persist provider chain no_tasks fuel fork_detection_height non_durable_batches
              default_durability next
              (suc batch_counter)
              batches
            ≡ (store', counter', disconnected))
  unfolding persist
  persist-cons store k batch batches h =
      elim (Option-cases (durability_of non_durable_batches default_durability k)) [
        | inl e ↦ let bad = rw (persist, e) at h in absurd (cc)
        | inr (durability, e) ↦
            elim (returned (
              persist_or_link provider chain no_tasks fuel store batch fork_detection_height
                durability)) [
                  | returned_ok (next, tasks) e' ↦
                      (durability, next, tasks, e, e', rw (persist, e, e') at h)
                  | returned_failed e' ↦ let bad = rw (persist, e, e') at h in absurd (cc)
                  | returned_panicked e' ↦ let bad = rw (persist, e, e') at h in absurd (cc)
                  | returned_exhausted e' ↦ let bad = rw (persist, e, e') at h in absurd (cc)
                ]
      ]

  durable_at :
      (m : ℕ) (store : Store) (batch_counter : ℕ) (batches : List (List (Block Hash Body)))
      {store' : Store} {counter' : ℕ}
      → m < length batches
      → durability_of non_durable_batches default_durability (batch_counter + m) ≡ some immediate
      → persist provider chain no_tasks fuel fork_detection_height non_durable_batches
          default_durability store batch_counter batches
        ≡ (store', counter', disconnected)
      → DurableBatch store batch_counter batches
  unfolding persist
  durable_at m store k [] short at h = absurd (omega arith)
  durable_at zero store k (batch ∷ batches) short at h =
      let (durability, next, tasks, e, done, rest) = persist-cons store k batch batches h in
      let zeroth : k + 0 ≡ k = omega arith in
      let same : durability ≡ immediate =
        some_inj.0
          (sym e ∙ ap (durability_of non_durable_batches default_durability) (sym zeroth) ∙ at) in
      record {
        before = [];
        batch = batch;
        after = batches;
        reached = store;
        next = next;
        tasks = tasks;
        splits = refl;
        reaches = ap (λ i. (store, i, disconnected)) (sym zeroth);
        persisted =
            subst
              (λ d.
                persist_or_link provider chain no_tasks fuel store batch fork_detection_height d
                ≡ ok (next, tasks))
              same done;
      }
  durable_at (suc m) store k (batch ∷ batches) short at h =
      let (durability, next, tasks, e, done, rest) = persist-cons store k batch batches h in
      let move : k + suc m ≡ suc k + m = omega arith in
      let found : DurableBatch next (suc k) batches =
        durable_at m next (suc k) batches (omega arith)
          (ap (durability_of non_durable_batches default_durability) (sym move) ∙ at) rest in
      let count : suc k + length found.before ≡ k + suc (length found.before) = omega arith in
      record {
        before = batch ∷ found.before;
        batch = found.batch;
        after = found.after;
        reached = found.reached;
        next = found.next;
        tasks = found.tasks;
        splits = ap (λ l. batch ∷ l) found.splits;
        reaches =
            rw (persist, e, done)
              (found.reaches ∙ ap (λ i. (found.reached, i, disconnected)) count);
        persisted = found.persisted;
      }

  -- While the task goes on, among any `non_durable_batches` batches in a row that leave out the very
  -- first one, there is one that `persist_or_link` is called with, and with immediate durability, once
  -- the batches before it are persisted, whatever the default is.
  pub durable_within :
      (store : Store) (batch_counter : ℕ) (batches : List (List (Block Hash Body))) {store' : Store}
      {counter' : ℕ}
      → 0 < non_durable_batches
      → length batches ≡ non_durable_batches
      → persist provider chain no_tasks fuel fork_detection_height non_durable_batches
          default_durability store
          (suc batch_counter)
          batches
        ≡ (store', counter', disconnected)
      → DurableBatch store (suc batch_counter) batches
  durable_within store k batches pos long h =
      let (m, short, at) = durable_number non_durable_batches k default_durability pos in
      durable_at m store (suc k) batches (omega (arith, short, long)) at h
