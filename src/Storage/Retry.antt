-- ===== src/Storage/Retry.antt =====
-- redbit/src/retry.rs: the two loops that repeat an operation that fails, over what each call of it
-- returns. They differ in how they wait for the delay, and count as one here.
pub mod Attempts
mod Tests
use redbit.Prelude.{ℕ, zero, suc, ◌+◌, Bool, true, false, Option, none, some}

pub data Returned (T E : Type 0) : Type 0 where
  ok : T → Returned T E
  err : E → Returned T E

-- How often the operation was called, how often the delay passed, and the result.
pub record Retried (T E : Type 0) : Type 0 where
  pub calls : ℕ
  pub delays : ℕ
  pub result : Returned T E

module _ {T E : Type 0} (op : ℕ → Returned T E) where
  -- The loop with `suc more` attempts left, after `done` calls, by what it does from there on.
  unfoldable pub retry_from : ℕ → ℕ → Retried T E
  retry_from zero done = record { calls = 1; delays = 0; result = op done }
  retry_from (suc more) done =
      let rest = retry_from more (suc done) in
      elim (op done) [
        | Returned.ok v ↦ record { calls = 1; delays = 0; result = Returned.ok v }
        | Returned.err e ↦ record {
          calls = suc rest.calls;
          delays = suc rest.delays;
          result = rest.result;
        }
      ]

  -- No attempts at all are a panic.
  unfoldable pub retry_with_delay : ℕ → Option (Retried T E)
  retry_with_delay zero = none
  retry_with_delay (suc more) = some (retry_from more 0)
