-- ===== src/Retry.antt =====
-- src/core/retry.rs: `retry_with_backoff`.
-- `f n` is the outcome of call n of the closure, counted from 0. A run is its result, the number of
-- calls that were made and the lengths of the sleeps in order. A `Duration` is a number without a limit
-- here: the panic where `backoff` times the attempt overflows one is not modelled.
pub mod Attempts
mod Runs
use pigeon_cli.Base.{ℕ, zero, suc, ◌+◌, ◌*◌, ◌%◌, max, Option, none, some, List, [], ◌∷◌, ◌++◌}
use pigeon_cli.Base.Tests.{ltb, if◌then◌else◌, u32_mod}
use pigeon_cli.Base.Outcome.{Result, ok, err}

pub data RetryError {ℓ} (E : Type ℓ) : Type ℓ where
  last : E → RetryError E
  zero_attempts : RetryError E

pub record Run {ℓ} (E A : Type ℓ) : Type ℓ where
  pub result : Result (RetryError E) A
  pub calls : ℕ
  pub sleeps : List ℕ

-- `last_err.unwrap_or_else(…)`
abbrev pub unwrap_last {ℓ} : {E : Type ℓ} → Option E → RetryError E
unwrap_last none = zero_attempts
unwrap_last (some e) = last e

module _ {ℓ} {E A : Type ℓ} (backoff : ℕ) (f : ℕ → Result E A) where
  -- The rounds left, the attempt, the sleeps so far, and `last_err`.
  pub attempt_loop : ℕ → ℕ → List ℕ → Option E → Run E A
  attempt_loop zero attempt sleeps last_err = record {
    result = err (unwrap_last last_err);
    calls = attempt;
    sleeps = sleeps;
  }
  attempt_loop (suc left) attempt sleeps last_err =
      let slept =
        if ltb 0 attempt then sleeps ++ (backoff * (attempt % u32_mod) ∷ []) else sleeps in
      elim (f attempt) [
        | ok value ↦ record { result = ok value; calls = attempt + 1; sleeps = slept }
        | err e ↦ attempt_loop left (attempt + 1) slept (some e)
      ]

  pub retry_with_backoff : ℕ → Run E A
  retry_with_backoff attempts = attempt_loop (max attempts 1) 0 [] none
