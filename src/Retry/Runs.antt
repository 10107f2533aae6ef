-- ===== src/Retry/Runs.antt =====
-- Runs of `retry_with_backoff`, and its theorems at concrete inputs.
use pigeon_cli.Base.{String, ℕ, ◌≡◌, refl, [], ◌∷◌, arith}
use pigeon_cli.Base.Tests.{ltb, if◌then◌else◌}
use pigeon_cli.Base.Outcome.{Result, ok, err}
use pigeon_cli.Retry.{last, attempt_loop, retry_with_backoff}
use pigeon_cli.Retry.Attempts.{linear, retry_success, retry_exhausted}

-- Fails twice, then connects.
abbrev flaky : ℕ → Result ℕ String
flaky n = if ltb n 2 then err n else ok "connected"

flaky_run : (retry_with_backoff 10 flaky 3).sleeps ≡ 10 ∷ 20 ∷ []
unfolding retry_with_backoff attempt_loop
flaky_run = refl

retry_success_example :
    retry_with_backoff 10 flaky 3
    ≡ record { result = ok "connected"; calls = 3; sleeps = linear 10 3 }
retry_success_example =
    retry_success 10 flaky 3 2 "connected" (omega arith) (λ i h. (i, ground arith)) refl

retry_exhausted_example :
    retry_with_backoff 10 flaky 2
    ≡ record { result = err (last 1); calls = 2; sleeps = linear 10 2 }
retry_exhausted_example = retry_exhausted 10 flaky 2 1 1 refl (λ i h. (i, ground arith)) refl
