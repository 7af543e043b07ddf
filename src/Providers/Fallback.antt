-- ===== src/Providers/Fallback.antt =====
-- packages/providers/src/fallback.ts: walking a candidate chain. The calls that are made and the
-- delays that are slept are logged, newest last; `env` answers the n-th call and the n-th draw.
mod Steps
pub mod Calls
pub mod Outcomes
use makedown.Base.{
  ℕ, zero, suc, ◌+◌, ◌-◌, max, Text, text_eq, Bool, true, false, not, ◌&&◌, ◌||◌, Option, none,
  some, List, [], ◌∷◌, ◌++◌, length, ltb, ◌==◌, is_some, if◌then◌else◌, Result, ok, err,
}
use makedown.Providers.Errors.{
  CompletionResult, ProviderError, Thrown, provider_error, other_error, is_retryable,
  should_retry_same_model,
}
use makedown.Providers.Retry.{RetryPolicy, Random, backoff_delay_ms}

pub record Env : Type 0 where
  pub run : ℕ → Text → Result Thrown CompletionResult
  pub rand : ℕ → Random

pub record Log : Type 0 where
  pub calls : List Text
  pub sleeps : List ℕ

abbrev pub empty_log : Log
empty_log = record { calls = []; sleeps = [] }

pub record Failure : Type 0 where
  pub model : Text
  pub error : Thrown

-- What `runWithFallback` throws: one model's own error, or a summary of several.
pub data WalkError : Type 0 where
  raw : Thrown → WalkError
  aggregate : List Failure → WalkError
  empty_chain : WalkError

pub data Attempt : Type 0 where
  answered : CompletionResult → Attempt
  gave_up : Thrown → Attempt

abbrev pub retry_after : Thrown → Option ℕ
retry_after (provider_error e) = e.retry_after_ms
retry_after (other_error m) = none

abbrev is_blank : Option Text → Bool
is_blank none = true
is_blank (some []) = true
is_blank (some (c ∷ s)) = false

-- `result.model ? result : { ...result, model }`
abbrev pub stamp : Text → CompletionResult → CompletionResult
stamp model r = if is_blank r.model then record r { model = some model } else r

abbrev pub log_call : Text → Log → Log
log_call model log = record log { calls = log.calls ++ model ∷ [] }

abbrev pub log_sleep : ℕ → Log → Log
log_sleep ms log = record log { sleeps = log.sleeps ++ ms ∷ [] }

abbrev pub walk_error : List Failure → Thrown → WalkError
walk_error failures e = if ltb 1 (length failures) then aggregate failures else raw e

abbrev pub is_last : List Text → Bool
is_last [] = true
is_last (m ∷ rest) = false

module _ (env : Env) (policy : RetryPolicy) where
  abbrev pub delay : ℕ → Thrown → Log → ℕ
  delay attempt e log =
      backoff_delay_ms attempt policy (retry_after e) (env.rand (length log.sleeps))

  -- The attempts on one model; `left` of them may follow the current one.
  unfoldable pub try_model : ℕ → ℕ → Text → Log → Attempt × Log
  try_model zero attempt model log = elim (env.run (length log.calls) model) [
    | ok r ↦ (answered (stamp model r), log_call model log)
    | err e ↦ (gave_up e, log_call model log)
  ]
  try_model (suc left) attempt model log = elim (env.run (length log.calls) model) [
    | ok r ↦ (answered (stamp model r), log_call model log)
    | err e ↦ elim (should_retry_same_model e) [
      | true ↦
          try_model left (suc attempt) model (log_sleep (delay attempt e log) (log_call model log))
      | false ↦ (gave_up e, log_call model log)
    ]
  ]

  -- `max_attempts_per_model` is at least 1 here.
  unfoldable pub walk : List Text → List Failure → Log → Result WalkError CompletionResult × Log
  walk [] failures log = (err empty_chain, log)
  walk (model ∷ rest) failures log =
      let (outcome, log') = try_model (policy.max_attempts_per_model - 1) 1 model log in
      elim outcome [
        | answered r ↦ (ok r, log')
        | gave_up e ↦
            let fs = failures ++ record { model = model; error = e } ∷ [] in
            elim (is_last rest || not (is_retryable e)) [
              | true ↦ (err (walk_error fs e), log')
              | false ↦ walk rest fs log'
            ]
      ]

-- At least one attempt, even if misconfigured with 0.
abbrev pub effective : RetryPolicy → RetryPolicy
effective policy = record policy { max_attempts_per_model = max 1 policy.max_attempts_per_model }

unfoldable pub run_with_fallback :
    Env → RetryPolicy → List Text → Result WalkError CompletionResult × Log
run_with_fallback env policy chain = walk env (effective policy) chain [] empty_log
