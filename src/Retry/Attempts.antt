-- ===== src/Retry/Attempts.antt =====
-- What `retry_with_backoff` returns, how often it calls and how long it sleeps.
use pigeon_cli.Base.{
  ℕ, zero, suc, ◌+◌, ◌*◌, ◌%◌, ◌≤◌, ◌<◌, ◌≡◌, refl, max, Option, none, some, List, [], ◌∷◌, ◌++◌,
  ◌∙◌, arith,
}
use pigeon_cli.Base.Tests.{u32_mod}
use pigeon_cli.Base.Outcome.{Result, ok, err}
use native.Mathlib.Nat.{add-zero, zero-add}
use pigeon_cli.Retry.{last, attempt_loop, retry_with_backoff}

abbrev pub Fails {ℓ} : {E A : Type ℓ} → (ℕ → Result E A) → ℕ → Type ℓ
Fails {E} f i = (e : E) × (f i ≡ err e)

-- The sleeps before attempt `n`: `backoff`, `2 * backoff`, ...
abbrev pub linear : ℕ → ℕ → List ℕ
linear backoff zero = []
linear backoff (suc zero) = []
linear backoff (suc (suc n)) = linear backoff (suc n) ++ (backoff * (suc n % u32_mod) ∷ [])

shift : (a n : ℕ) → a + suc n ≡ suc a + n
shift a n = omega arith

module _ {ℓ} {E A : Type ℓ} (backoff : ℕ) (f : ℕ → Result E A) where
  attempt_loop-err :
      (left attempt : ℕ) (last_err : Option E) (e : E)
      → f attempt ≡ err e
      → attempt_loop backoff f (suc left) attempt (linear backoff attempt) last_err
        ≡ attempt_loop backoff f left (suc attempt) (linear backoff (suc attempt)) (some e)
  unfolding attempt_loop
  attempt_loop-err left zero last_err e h = ground arith
  attempt_loop-err left (suc n) last_err e h = ground arith

  attempt_loop-ok :
      (left attempt : ℕ) (last_err : Option E) (v : A)
      → f attempt ≡ ok v
      → attempt_loop backoff f (suc left) attempt (linear backoff attempt) last_err
        ≡ record { result = ok v; calls = suc attempt; sleeps = linear backoff (suc attempt) }
  unfolding attempt_loop
  attempt_loop-ok left zero last_err v h = ground arith
  attempt_loop-ok left (suc n) last_err v h = ground arith

  -- From `attempt` on, `n` failures and then a success.
  loop_success :
      (left n attempt : ℕ) (last_err : Option E) (v : A)
      → n < left
      → ((i : ℕ) → attempt ≤ i → i < attempt + n → Fails f i)
      → f (attempt + n) ≡ ok v
      → attempt_loop backoff f left attempt (linear backoff attempt) last_err ≡ record {
        result = ok v;
        calls = suc (attempt + n);
        sleeps = linear backoff (suc (attempt + n));
      }
  loop_success zero n attempt last_err v h fails win = elim h [ ]
  loop_success (suc left) zero attempt last_err v h fails win =
      rw add-zero (attempt_loop-ok left attempt last_err v (rw (← add-zero attempt) win))
  loop_success (suc left) (suc n) attempt last_err v h fails win =
      let (e, failed) = fails attempt (omega arith) (omega arith) in
      attempt_loop-err left attempt last_err e failed
      ∙ rw (shift attempt n) (
          loop_success left n (suc attempt) (some e) v (omega arith)
            (λ i lo hi. fails i (omega arith) (omega arith)) (rw (← shift attempt n) win))

  loop_exhausted :
      (n attempt : ℕ) (last_err : Option E) (e : E)
      → ((i : ℕ) → attempt ≤ i → i < attempt + n → Fails f i)
      → f (attempt + n) ≡ err e
      → attempt_loop backoff f (suc n) attempt (linear backoff attempt) last_err ≡ record {
        result = err (last e);
        calls = suc (attempt + n);
        sleeps = linear backoff (suc (attempt + n));
      }
  loop_exhausted zero attempt last_err e fails end = rw add-zero (
      attempt_loop-err zero attempt last_err e (rw (← add-zero attempt) end)
      ∙ unfold attempt_loop in refl)
  loop_exhausted (suc n) attempt last_err e fails end =
      let (e', failed) = fails attempt (omega arith) (omega arith) in
      attempt_loop-err (suc n) attempt last_err e' failed
      ∙ rw (shift attempt n) (
          loop_exhausted n (suc attempt) (some e') e
            (λ i lo hi. fails i (omega arith) (omega arith)) (rw (← shift attempt n) end))

  -- If attempt `n` is the first that succeeds and the budget reaches it, its value is returned after
  -- `n + 1` calls, and the sleeps between them grow linearly.
  pub retry_success :
      (attempts n : ℕ) (v : A)
      → n < max attempts 1
      → ((i : ℕ) → i < n → Fails f i)
      → f n ≡ ok v
      → retry_with_backoff backoff f attempts
        ≡ record { result = ok v; calls = suc n; sleeps = linear backoff (suc n) }
  unfolding retry_with_backoff
  retry_success attempts n v h fails win = rw zero-add at (
      loop_success (max attempts 1) n 0 none v h (λ i lo hi. fails i (rw zero-add at hi))
        (rw zero-add win))

  -- If every attempt of the budget fails, a budget of zero counting as one, the result is the
  -- error of the last attempt, after as many calls as the budget allows.
  pub retry_exhausted :
      (attempts n : ℕ) (e : E)
      → suc n ≡ max attempts 1
      → ((i : ℕ) → i < n → Fails f i)
      → f n ≡ err e
      → retry_with_backoff backoff f attempts
        ≡ record { result = err (last e); calls = suc n; sleeps = linear backoff (suc n) }
  unfolding retry_with_backoff
  retry_exhausted attempts n e h fails end = rw (← h) (
      rw zero-add at
        (loop_exhausted n 0 none e (λ i lo hi. fails i (rw zero-add at hi)) (rw zero-add end)))
