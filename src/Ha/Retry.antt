-- ===== src/Ha/Retry.antt =====
-- `Retry` of internal/ha/retry.go. The delays are computed with floating point and random numbers and decide
-- only how long a call waits; whether the context is done when a wait ends is an argument.
pub mod Attempts
use cam_server.Base.{ℕ, zero, suc, ℤ, Option, none, some, positive_or}

-- `withDefaults`, of the attempts.
abbrev pub attempts_of : ℤ → ℕ
attempts_of attempts = positive_or attempts 3

module _ {E : Type 0} (fn : ℕ → Option E) (ctx_err : ℕ → Option E) where
  -- The loop of `Retry`, with the attempts that are left, the number of this one and the last error: what is
  -- returned, where `none` is nil, and the number of the last attempt. `fn n` is the error of the `n`-th call,
  -- `ctx_err n` the context's error where it is done before the timer behind that call.
  unfoldable pub retry_loop : ℕ → ℕ → Option E → Option E × ℕ
  retry_loop zero attempt last_err = (last_err, attempt)
  retry_loop (suc zero) attempt last_err = (fn attempt, attempt)
  retry_loop (suc (suc left)) attempt last_err = elim (fn attempt) [
    | none ↦ (none, attempt)
    | some e ↦ elim (ctx_err attempt) [
      | some why ↦ (some why, attempt)
      | none ↦ retry_loop (suc left) (suc attempt) (some e)
    ]
  ]

  -- `Retry`
  unfoldable pub retry : ℤ → Option E × ℕ
  retry attempts = retry_loop (attempts_of attempts) 1 none
