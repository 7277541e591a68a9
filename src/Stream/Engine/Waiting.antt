-- ===== src/Stream/Engine/Waiting.antt =====
-- The loop that waits for a stream ends, and finds a stream that appears in time.
use native.Mathlib.Decide.{dec_lt, ℕ_discrete as dec_eq}
use cam_server.Base.{
  sym, ◌-◌, ℕ, zero, suc, ◌+◌, ◌*◌, ◌≤◌, ◌<◌, ◌≡◌, ◌≢◌, refl, true, Option, none, some, ltb, arith,
  ltb→le, Bool-cases, Option-cases, inl, inr, ltb→lt, ◌∙◌,
}
use cam_server.Stream.Engine.{wait_for, pause}
use cam_server.Stream.Fanout.{LiveStream}

-- Go's `time.Sleep` lets at least the pause pass between two rounds.
abbrev pub Ticks : (ℕ → ℕ) → Type 0
Ticks clock = (i : ℕ) → clock i + pause ≤ clock (suc i)

module _ (clock : ℕ → ℕ) (seen : ℕ → Option LiveStream) where
  -- What an end of the loop from round `i` on says: the deadline has passed in a round before which nothing was
  -- seen, or a stream was seen.
  pub data Ends (deadline : ℕ) : ℕ → Option LiveStream → Type 0 where
    late : {i : ℕ} → deadline ≤ clock i → Ends deadline i none
    sees :
        {i : ℕ} {s : LiveStream} → clock i < deadline → seen i ≡ some s → Ends deadline i (some s)
    later :
        {i : ℕ} {o : Option LiveStream}
        → clock i < deadline
        → seen i ≡ none
        → Ends deadline (suc i) o
        → Ends deadline i o

  wait_next :
      (fuel deadline i : ℕ)
      → ltb (clock i) deadline ≡ true
      → seen i ≡ none
      → wait_for clock seen (suc fuel) deadline i ≡ wait_for clock seen fuel deadline (suc i)
  unfolding wait_for
  wait_next fuel deadline i early unseen = ground (arith, early, unseen)

  -- With fuel for the time that is left the loop ends, and as its rounds say.
  pub wait_for-Ends :
      (fuel deadline i : ℕ)
      → Ticks clock
      → deadline ≤ clock i + fuel * pause
      → (o : Option LiveStream) × (wait_for clock seen (suc fuel) deadline i ≡ some o)
        × Ends deadline i o
  unfolding wait_for
  wait_for-Ends zero deadline i ticks enough =
      (none, ground (arith, enough), late (omega (arith, enough)))
  wait_for-Ends (suc n) deadline i ticks enough = elim (Bool-cases (ltb (clock i) deadline)) [
    | inr e ↦ (none, ground (arith, e), late (ltb→le _ _ e))
    | inl e ↦ elim (Option-cases (seen i)) [
      | inr (s, f) ↦ (some s, ground (arith, e, f), sees (ltb→lt _ _ e) f)
      | inl f ↦
          let (o, ended, ends) =
            wait_for-Ends n deadline (suc i) ticks (omega (arith, enough, ticks i)) in
          (o, wait_next (suc n) deadline i e f ∙ ended, later (ltb→lt _ _ e) f ends)
    ]
  ]

  -- An end without a stream: the deadline passed in a round, and no round before it saw one.
  pub late-unseen :
      (deadline i : ℕ)
      → Ends deadline i none
      → (n : ℕ) × (i ≤ n) × (deadline ≤ clock n) × ((k : ℕ) → i ≤ k → k < n → seen k ≡ none)
  late-unseen deadline i (late h) = (i, omega arith, h, λ k a b. absurd (omega (arith, a, b)))
  late-unseen deadline i (later early unseen ends) =
      let (n, past, passed, none_before) = late-unseen deadline (suc i) ends in
      (
        n,
        omega (arith, past),
        passed,
        λ k a b. elim (dec_eq k i) [
          | yes same ↦ rw same unseen
          | no apart ↦ none_before k (omega (arith, a, apart)) b
        ],
      )

  clock_grows : (i k : ℕ) → Ticks clock → clock i ≤ clock (i + k)
  clock_grows i zero ticks = let same : i + 0 ≡ i = omega arith in rw same (omega arith)
  clock_grows i (suc k) ticks =
      let same : i + suc k ≡ suc (i + k) = omega arith in
      rw same (omega (arith, clock_grows i k ticks, ticks (i + k)))

  -- A stream that is there in a round before the deadline is not missed.
  pub Ends-in_time :
      (deadline i k : ℕ) (o : Option LiveStream)
      → Ticks clock
      → Ends deadline i o
      → i ≤ k
      → clock k < deadline
      → seen k ≢ none
      → (s : LiveStream) × (o ≡ some s)
  Ends-in_time deadline i k none ticks ends from early there =
      let (n, past, passed, none_before) = late-unseen deadline i ends in
      elim (dec_lt k n) [
        | yes before ↦ absurd (there (none_before k from before))
        | no after ↦
            let grows = clock_grows n (k - n) ticks in
            let same : n + (k - n) ≡ k = omega (arith, after) in
            let grown : clock n ≤ clock k = rw (sym same) grows in
            absurd (omega (arith, grown, passed, early))
      ]
  Ends-in_time deadline i k (some s) ticks ends from early there = (s, refl)
