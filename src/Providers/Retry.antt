-- ===== src/Providers/Retry.antt =====
-- packages/providers/src/retry.ts: the backoff before the next attempt on the same model.
-- `Math.random()` gives the fraction num / den below 1; the arithmetic on it is exact here.
pub mod Bounds
use makedown.Base.{
  ℕ, ◌+◌, ◌-◌, ◌*◌, ◌/◌, ◌^◌, ◌<◌, min, Bool, true, false, Option, none, some, ltb, if◌then◌else◌,
}

pub record RetryPolicy : Type 0 where
  pub max_attempts_per_model : ℕ
  pub base_delay_ms : ℕ
  pub max_delay_ms : ℕ
  pub jitter : Bool

abbrev pub default_retry_policy : RetryPolicy
default_retry_policy = record {
  max_attempts_per_model = 3;
  base_delay_ms = 500;
  max_delay_ms = 8000;
  jitter = true;
}

pub record Random : Type 0 where
  pub num : ℕ
  pub den : ℕ

abbrev pub capped_delay : ℕ → RetryPolicy → ℕ
capped_delay attempt policy = min policy.max_delay_ms (policy.base_delay_ms * 2 ^ (attempt - 1))

-- `Math.round(exp / 2 + r * (exp / 2))`: the floor of the argument plus one half.
abbrev pub jittered : ℕ → Random → ℕ
jittered exp r = (exp * (r.den + r.num) + r.den) / (2 * r.den)

unfoldable pub backoff_delay_ms : ℕ → RetryPolicy → Option ℕ → Random → ℕ
backoff_delay_ms attempt policy retry_after_ms r =
    let exp = capped_delay attempt policy in
    let computed = if policy.jitter then jittered exp r else exp in
    elim retry_after_ms [ none ↦ computed | some ms ↦ if ltb 0 ms then ms else computed ]
