-- ===== src/Storage/Context/Runs.antt =====
-- The events of a context's commit, and what a run that goes on was acknowledged.
use redbit.Prelude.{
  ℕ, ◌≡◌, refl, ap, subst, ◌∙◌, Bool, true, false, Option, none, some, List, [], ◌∷◌, ◌++◌, map,
  if◌then◌else◌, append-nil,
}
use redbit.Prelude.Collect.{All, All-append}
use redbit.Storage.WriterApi.{WriterCommand}
use redbit.Storage.TableWriter.{TableWriter}
use redbit.Storage.Context.{Event, Logged, and_then, returns, extended}
use redbit.Storage.Context.Quiet.{IsQuiet}

pub if-eq-some : {A : Type 0} {x a : A} (b : Bool) → (if b then some x else none) ≡ some a → x ≡ a
if-eq-some true h = cc
if-eq-some false h = absurd (cc)

-- Events that ask no table with root keys to flush.
module _ {Tab : Type 0} {K V : Tab → Type 0} (writer : (t : Tab) → TableWriter (K t) (V t)) where
  abbrev pub IsNoRootFlush : Event Tab K V → Type 0
  IsNoRootFlush (Event.sends t m) = IsQuiet (writer t) m
  IsNoRootFlush (Event.acks t sid) = Unit

  pub All-sends :
      (t : Tab) (messages : List (ℕ × WriterCommand (K t) (V t)))
      → All (IsQuiet (writer t)) messages
      → All IsNoRootFlush (map (Event.sends t) messages)
  All-sends t [] all = tt
  All-sends t (m ∷ messages) all = (all.0, All-sends t messages all.1)

-- The shards that acknowledged, in order.
module _ {Tab : Type 0} {K V : Tab → Type 0} where
  abbrev pub acks_of : List (Event Tab K V) → List (Tab × ℕ)
  acks_of [] = []
  acks_of (Event.sends t m ∷ log) = acks_of log
  acks_of (Event.acks t sid ∷ log) = (t, sid) ∷ acks_of log

  pub acks_of-append :
      (log log' : List (Event Tab K V)) → acks_of (log ++ log') ≡ acks_of log ++ acks_of log'
  acks_of-append [] log' = refl
  acks_of-append (Event.sends t m ∷ log) log' = acks_of-append log log'
  acks_of-append (Event.acks t sid ∷ log) log' = ap (λ l. (t, sid) ∷ l) (acks_of-append log log')

module _ {Tab : Type 0} (K V : Tab → Type 0) where
  pub acks_of-sends :
      (t : Tab) (messages : List (ℕ × WriterCommand (K t) (V t)))
      → acks_of {K = K} {V = V} (map (Event.sends t) messages) ≡ []
  acks_of-sends t [] = refl
  acks_of-sends t (m ∷ messages) = acks_of-sends t messages

-- The events of a run are as they should be, and if it goes on, it was acknowledged by these shards.
module _ {Tab : Type 0} {K V : Tab → Type 0} (Q : Event Tab K V → Type 0) where
  pub record Run {A : Type 0} (acked : List (Tab × ℕ)) (R : A → Type 0)
      (l : Logged (Event Tab K V) A) : Type 0 where
    pub quiet : All Q l.log
    pub goes_on : {a : A} → l.outcome ≡ some a → (acks_of l.log ≡ acked) × R a

  pub Run-returns : {A : Type 0} {R : A → Type 0} (a : A) → R a → Run [] R (returns a)
  Run-returns {A} {R} a is = record { quiet = tt; goes_on = λ h. (refl, subst R (cc) is) }

  pub Run-and_then :
      {A B : Type 0} {acked acked' : List (Tab × ℕ)} {R : A → Type 0} {R' : B → Type 0}
      (l : Logged (Event Tab K V) A) (f : A → Logged (Event Tab K V) B)
      → Run acked R l
      → ((a : A) → R a → Run acked' R' (f a))
      → Run (acked ++ acked') R' (and_then l f)
  Run-and_then {A} {B} {acked} {acked'} {R} {R'} l f run next = go l.outcome refl
    where
      go :
          (o : Option A)
          → l.outcome ≡ o
          → Run (acked ++ acked') R' (elim o as (λ _. Logged (Event Tab K V) B) [
            | none ↦ record { log = l.log; outcome = none }
            | some a ↦ record { log = l.log ++ (f a).log; outcome = (f a).outcome }
          ])
      go none h = record { quiet = run.quiet; goes_on = λ h'. absurd (cc) }
      go (some a) h =
          let (is, holds) = run.goes_on h in
          let after = next a holds in
          record {
            quiet = All-append Q l.log (f a).log run.quiet after.quiet;
            goes_on = λ h'.
                let (is', holds') = after.goes_on h' in
                (
                  acks_of-append l.log (f a).log
                      ∙ ap (λ x. x ++ acks_of (f a).log) is
                      ∙ ap (λ x. acked ++ x) is',
                  holds',
                );
          }

  pub Run-extends :
      {A : Type 0} {acked acked' : List (Tab × ℕ)} {R R' R'' : List A → Type 0}
      (l l' : Logged (Event Tab K V) (List A))
      → Run acked R l
      → Run acked' R' l'
      → ((xs ys : List A) → R xs → R' ys → R'' (xs ++ ys))
      → Run (acked ++ acked') R'' (extended l l')
  Run-extends {A} {acked} {acked'} {R} {R'} {R''} l l' run run' both =
      subst (λ a. Run (acked ++ a) R'' (extended l l')) (append-nil acked')
        (Run-and_then {R = R} {R' = R''} l (λ x. and_then l' (λ y. returns (x ++ y))) run
          (λ x is.
            Run-and_then {R = R'} {R' = R''} l' (λ y. returns (x ++ y)) run'
              (λ y is'. Run-returns {R = R''} (x ++ y) (both x y is is'))))

  pub Run-extended :
      {A : Type 0} {acked acked' : List (Tab × ℕ)} {xs ys : List A}
      (l l' : Logged (Event Tab K V) (List A))
      → Run acked (λ x. x ≡ xs) l
      → Run acked' (λ y. y ≡ ys) l'
      → Run (acked ++ acked') (λ z. z ≡ xs ++ ys) (extended l l')
  Run-extended {A} {acked} {acked'} {xs} {ys} l l' run run' =
      Run-extends {R = λ x. x ≡ xs} {R' = λ y. y ≡ ys} {R'' = λ z. z ≡ xs ++ ys} l l' run run'
        (λ x y is is'. ap (λ x'. x' ++ y) is ∙ ap (λ y'. xs ++ y') is')
