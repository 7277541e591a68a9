-- ===== src/Ha/Retry/Attempts.antt =====
-- How often `Retry` calls its function, and what it returns.
use cam_server.Base.{
  sym, ℕ, zero, suc, ◌+◌, ◌≤◌, ◌<◌, ◌≡◌, ◌≢◌, ◌⊎◌, inl, inr, refl, ℤ, pos, negsuc, Option, none,
  some, arith, Option-cases,
}
use mathlib.Core.Path.{subst}
use native.Mathlib.Decide.{ℕ_discrete}
use cam_server.Ha.Retry.{attempts_of, retry_loop, retry}

module _ {E : Type 0} (fn : ℕ → Option E) (ctx_err : ℕ → Option E) where
  -- What is returned behind the `n`-th call, of at most `limit`.
  abbrev pub Stops : ℕ → ℕ → Option E → Type 0
  Stops limit n returned =
      ((fn n ≡ none) × (returned ≡ none))
      ⊎ ((fn n ≢ none) × (n < limit) × (ctx_err n ≢ none) × (returned ≡ ctx_err n))
      ⊎ ((fn n ≢ none) × (n ≡ limit) × (returned ≡ fn n))

  -- A call that fails before the context is done.
  abbrev pub GoesOn : ℕ → Type 0
  GoesOn n = (fn n ≢ none) × (ctx_err n ≡ none)

  abbrev pub Bounded : ℕ → ℕ → Option E × ℕ → Type 0
  Bounded attempt limit r =
      (attempt ≤ r.1)
      × (r.1 ≤ limit)
      × ((n : ℕ) → attempt ≤ n → n < r.1 → GoesOn n)
      × Stops limit r.1 r.0

  Stops-here :
      (attempt limit : ℕ) (returned : Option E)
      → attempt ≤ limit
      → Stops limit attempt returned
      → Bounded attempt limit (returned, attempt)
  Stops-here attempt limit returned fits stops =
      (omega arith, fits, λ n a b. absurd (omega (arith, a, b)), stops)

  goes_on :
      (attempt limit : ℕ) (r : Option E × ℕ)
      → GoesOn attempt
      → Bounded (suc attempt) limit r
      → Bounded attempt limit r
  goes_on attempt limit r on (low, high, before, stops) = (
    omega (arith, low),
    high,
    λ n a b. elim (ℕ_discrete n attempt) [
      | yes same ↦ rw same on
      | no apart ↦ before n (omega (arith, a, apart)) b
    ],
    stops,
  )

  retry_loop-Bounded :
      (left attempt limit : ℕ) (last_err : Option E)
      → limit ≡ attempt + left
      → Bounded attempt limit (retry_loop fn ctx_err (suc left) attempt last_err)
  unfolding retry_loop
  retry_loop-Bounded zero attempt limit last_err e =
      Stops-here attempt limit (fn attempt) (omega (arith, e)) (elim (Option-cases (fn attempt)) [
        | inl f ↦ inl (f, f)
        | inr (x, f) ↦ inr (inr (ground (arith, f), omega (arith, e), refl))
      ])
  retry_loop-Bounded (suc left) attempt limit last_err e = elim (Option-cases (fn attempt)) [
    | inl f ↦
        subst (Bounded attempt limit) (ground (arith, f))
          (Stops-here attempt limit none (omega (arith, e)) (inl (f, refl)))
    | inr (x, f) ↦ elim (Option-cases (ctx_err attempt)) [
      | inr (why, g) ↦ subst (Bounded attempt limit) (ground (arith, f, g)) (
          Stops-here attempt limit (some why) (omega (arith, e))
            (inr (inl (ground (arith, f), omega (arith, e), ground (arith, g), sym g))))
      | inl g ↦ subst (Bounded attempt limit) (ground (arith, f, g)) (
          goes_on attempt limit (retry_loop fn ctx_err (suc left) (suc attempt) (some x))
            (ground (arith, f), g)
            (retry_loop-Bounded left (suc attempt) limit (some x) (omega (arith, e))))
    ]
  ]

  -- `Retry` calls its function at least once and at most as often as the policy says, three times where it
  -- does not name a positive number. Every call but the last failed before the context was done. Behind
  -- the last one it returns nil exactly if that call did; otherwise the context's error, if
  -- attempts were left and the context was done, or the call's own error, if none were left.
  pub retry-Bounded : (attempts : ℤ) → Bounded 1 (attempts_of attempts) (retry fn ctx_err attempts)
  unfolding retry
  retry-Bounded (pos zero) = retry_loop-Bounded 2 1 3 none (omega arith)
  retry-Bounded (pos (suc n)) = retry_loop-Bounded n 1 (suc n) none (omega arith)
  retry-Bounded (negsuc n) = retry_loop-Bounded 2 1 3 none (omega arith)
