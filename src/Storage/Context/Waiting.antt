-- ===== src/Storage/Context/Waiting.antt =====
-- What the waits for the futures of a context acknowledge, and in which phases.
use redbit.Prelude.{
  ℕ, ◌≡◌, refl, sym, ap, subst, ◌∙◌, Bool, Option, none, some, List, [], ◌∷◌, ◌++◌, map,
  append_assoc, append-nil, Bool-cases, Option-cases, inl, inr, ◌⊎◌,
}
use redbit.Prelude.Collect.{All, All-append}
use redbit.Storage.WriterApi.{TaskResult}
use redbit.Storage.TableWriter.{FlushFuture, fire}
use redbit.Storage.Context.{Event, Logged, and_then, returns, shard, wait, wait_each}
use redbit.Storage.Context.Runs.{
  acks_of, acks_of-append, acks_of-sends, Run, Run-returns, Run-extends,
}
use redbit.Storage.Context.Collecting.{acked_by, AreEager}

pub All-unit : {A : Type 0} (xs : List A) → All (λ x. Unit) xs
All-unit [] = tt
All-unit (x ∷ xs) = (tt, All-unit xs)

and_then-failed :
    {E A B : Type 0} (l : Logged E A) (f : A → Logged E B)
    → l.outcome ≡ none
    → (and_then l f).log ≡ l.log
and_then-failed l f h = rw (h) refl

and_then-ok :
    {E A B : Type 0} (l : Logged E A) (f : A → Logged E B) (a : A)
    → l.outcome ≡ some a
    → (and_then l f).log ≡ l.log ++ (f a).log
and_then-ok l f a h = rw (h) refl

-- A log in two phases, of which the second begins only once the shards acknowledged.
module _ {Tab : Type 0} {K V : Tab → Type 0} (Q : Event Tab K V → Type 0) where
  pub record Phased (acked : List (Tab × ℕ)) (log : List (Event Tab K V)) : Type 0 where
    pub first : List (Event Tab K V)
    pub second : List (Event Tab K V)
    pub splits : log ≡ first ++ second
    pub quiet : All Q first
    pub acknowledged : (second ≡ []) ⊎ (acks_of first ≡ acked)

  pub Phased-and_then :
      {A B : Type 0} {acked acked' : List (Tab × ℕ)} {R : A → Type 0} (l : Logged (Event Tab K V) A)
      (f : A → Logged (Event Tab K V) B)
      → Run Q acked R l
      → ((a : A) → R a → Phased acked' (f a).log)
      → Phased (acked ++ acked') (and_then l f).log
  Phased-and_then {A} {B} {acked} {acked'} l f run next = elim (Option-cases l.outcome) [
    | inl nothing ↦ subst (Phased (acked ++ acked')) (sym (and_then-failed l f nothing)) (record {
      first = l.log;
      second = [];
      splits = sym (append-nil l.log);
      quiet = run.quiet;
      acknowledged = inl refl;
    })
    | inr (a, is) ↦
        let (done, holds) = run.goes_on is in
        let after = next a holds in
        subst (Phased (acked ++ acked')) (sym (and_then-ok l f a is)) (record {
          first = l.log ++ after.first;
          second = after.second;
          splits =
              ap (λ x. l.log ++ x) after.splits ∙ sym (append_assoc l.log after.first after.second);
          quiet = All-append Q l.log after.first run.quiet after.quiet;
          acknowledged = elim after.acknowledged [
            | inl none_left ↦ inl none_left
            | inr acks ↦ inr (
                acks_of-append l.log after.first
                ∙ ap (λ x. x ++ acks_of after.first) done
                ∙ ap (λ x. acked ++ x) acks)
          ];
        })
  ]

  pub Phased-after :
      {A B : Type 0} {acked : List (Tab × ℕ)} (l : Logged (Event Tab K V) A)
      (g : A → Logged (Event Tab K V) B)
      → ((a : A) → (g a).log ≡ [])
      → Phased acked l.log
      → Phased acked (and_then l g).log
  Phased-after {A} {B} {acked} l g silent phased = elim (Option-cases l.outcome) [
    | inl nothing ↦ subst (Phased acked) (sym (and_then-failed l g nothing)) phased
    | inr (a, is) ↦
        subst (Phased acked)
          (sym (append-nil l.log)
            ∙ ap (λ x. l.log ++ x) (sym (silent a))
            ∙ sym (and_then-ok l g a is))
          phased
  ]

module _ {Tab Name : Type 0} {K V : Tab → Type 0} (receives : Tab → ℕ → Bool)
    (result : Tab → ℕ → Option (TaskResult Name)) where
  wait-Run :
      (Q : Event Tab K V → Type 0) (t : Tab) (f : FlushFuture)
      → All Q (map (Event.sends t) (fire {K = K t} {V = V t} (receives t) f).messages)
      → Q (Event.acks t (shard f))
      → Run Q
          ((t, shard f) ∷ [])
          (λ (r : List (TaskResult Name)). Unit)
          (wait receives result (t, f))
  unfolding wait
  wait-Run Q t f all is =
      let sent = fire {K = K t} {V = V t} (receives t) f in
      elim (Bool-cases sent.is_ok) [
        | inl able ↦ elim (Option-cases (result t (shard f))) [
          | inl nothing ↦
              rw (wait, able, nothing) (record { quiet = all; goes_on = λ h. absurd (cc) })
          | inr (res, replied) ↦
              rw (wait, able, replied)
                (record {
                  quiet = All-append Q (map (Event.sends t) sent.messages) _ all (is, tt);
                  goes_on = λ h. (
                    acks_of-append {K = K} {V = V} (map (Event.sends t) sent.messages)
                          (Event.acks t (shard f) ∷ [])
                        ∙ ap (λ l. l ++ (t, shard f) ∷ []) (acks_of-sends K V t sent.messages),
                    tt,
                  );
                })
        ]
        | inr unable ↦ rw (wait, unable) (record { quiet = all; goes_on = λ h. absurd (cc) })
      ]

  pub wait_each-Run :
      (futures : List (Tab × FlushFuture))
      → Run {K = K} {V = V}
          (λ e. Unit)
          (acked_by futures)
          (λ (r : List (TaskResult Name)). Unit)
          (wait_each receives result futures)
  unfolding wait_each
  wait_each-Run [] = Run-returns (λ e. Unit) {R = λ r. Unit} [] tt
  wait_each-Run ((t, f) ∷ futures) =
      Run-extends (λ e. Unit) {R = λ r. Unit} {R' = λ r. Unit} {R'' = λ r. Unit}
        (wait receives result (t, f)) (wait_each receives result futures)
        (wait-Run (λ e. Unit) t f (All-unit _) tt) (wait_each-Run futures) (λ xs ys is is'. tt)

  pub wait_each-Phased :
      (Q : Event Tab K V → Type 0) (eager others : List (Tab × FlushFuture))
      → ((t : Tab) (sid : ℕ) → Q (Event.acks t sid))
      → AreEager eager
      → Phased Q (acked_by eager) (wait_each {K = K} {V = V} receives result (eager ++ others)).log
  unfolding wait_each fire
  wait_each-Phased Q [] others is are = record {
    first = [];
    second = (wait_each receives result others).log;
    splits = refl;
    quiet = tt;
    acknowledged = inr refl;
  }
  wait_each-Phased Q ((t, f) ∷ eager) others is are =
      let rest = wait_each-Phased Q eager others is are.1 in
      Phased-and_then Q {R = λ r. Unit} (wait receives result (t, f))
        (λ xs. and_then (wait_each receives result (eager ++ others)) (λ ys. returns (xs ++ ys)))
        (wait-Run Q t f
          (subst
            (λ f'. All Q (map (Event.sends t) (fire {K = K t} {V = V t} (receives t) f').messages))
            (sym are.0) tt)
          (is t (shard f)))
        (λ xs _.
          Phased-after Q (wait_each receives result (eager ++ others)) (λ ys. returns (xs ++ ys))
            (λ ys. refl) rest)
