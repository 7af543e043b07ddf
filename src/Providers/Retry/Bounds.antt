-- ===== src/Providers/Retry/Bounds.antt =====
-- How long a backoff can be.
use native.Mathlib.Nat.{mul-le-mul_left}
use makedown.Base.{
  ℕ, zero, suc, ◌+◌, ◌*◌, ◌/◌, ◌≤◌, ◌<◌, ◌⊎◌, ◌≡◌, Option, none, some, Bool-cases, inl, inr, arith,
}
use makedown.Providers.Retry.{RetryPolicy, Random, capped_delay, jittered, backoff_delay_ms}

div-le : (x d q : ℕ) → x < d * (q + 1) → x / d ≤ q
div-le x d q h = grind arith

le-div : (x d q : ℕ) → 0 < d → d * q ≤ x → q ≤ x / d
le-div x d q p h = grind arith

jittered-le : (e s r : ℕ) → r < s → (e * (s + r) + s) / (2 * s) ≤ e
jittered-le e s r h = div-le (e * (s + r) + s) (2 * s) e (grind arith)

le-jittered : (e s r h : ℕ) → 0 < s → 2 * h ≤ e + 1 → h ≤ (e * (s + r) + s) / (2 * s)
le-jittered e s r h p q =
    le-div (e * (s + r) + s) (2 * s) h (omega arith) (omega (arith, mul-le-mul_left s q))

-- Equal jitter: the result lies between the half of the capped delay and the whole.
jittered_bounds :
    (exp : ℕ) (r : Random) → r.num < r.den → (exp ≤ 2 * jittered exp r) × (jittered exp r ≤ exp)
jittered_bounds exp r h = (
  omega (arith, le-jittered exp r.den r.num ((exp + 1) / 2) (omega arith) (omega arith)),
  jittered-le exp r.den r.num h,
)

computed : ℕ → RetryPolicy → Random → ℕ
computed attempt policy r = backoff_delay_ms attempt policy none r

computed_bounds :
    (attempt : ℕ) (policy : RetryPolicy) (r : Random)
    → r.num < r.den
    → (capped_delay attempt policy ≤ 2 * computed attempt policy r)
      × (computed attempt policy r ≤ capped_delay attempt policy)
unfolding computed backoff_delay_ms
computed_bounds attempt policy r h =
    let b = jittered_bounds (capped_delay attempt policy) r h in
    elim (Bool-cases policy.jitter) [ inl on ↦ rw on b | inr off ↦ rw off (omega arith) ]

-- For a random fraction below 1: a positive hint of the provider is the delay. Without one the
-- delay is at most the capped exponential delay, and so at most the cap, and at least half of it.
pub backoff_delay_ms_bounds :
    (attempt : ℕ) (policy : RetryPolicy) (retry_after_ms : Option ℕ) (r : Random)
    → r.num < r.den
    → ((ms : ℕ)
        → retry_after_ms ≡ some ms
        → 0 < ms
        → backoff_delay_ms attempt policy retry_after_ms r ≡ ms)
      × ((retry_after_ms ≡ none) ⊎ (retry_after_ms ≡ some 0)
          → (capped_delay attempt policy ≤ 2 * backoff_delay_ms attempt policy retry_after_ms r)
            × (backoff_delay_ms attempt policy retry_after_ms r ≤ capped_delay attempt policy)
            × (backoff_delay_ms attempt policy retry_after_ms r ≤ policy.max_delay_ms))
unfolding backoff_delay_ms computed
backoff_delay_ms_bounds attempt policy none r h =
    let b = computed_bounds attempt policy r h in
    (λ ms e p. cc, λ _. (b.0, b.1, omega (arith, b.1)))
backoff_delay_ms_bounds attempt policy (some zero) r h =
    let b = computed_bounds attempt policy r h in
    (λ ms e p. absurd (ground arith), λ _. (b.0, b.1, omega (arith, b.1)))
backoff_delay_ms_bounds attempt policy (some (suc ms)) r h =
    (λ m e p. ground arith, λ c. absurd (ground arith))
