-- ===== src/Providers/Fallback/Steps.antt =====
-- One round of the walk, case by case.
use makedown.Base.{
  ◌-◌, Text, true, false, not, ◌||◌, List, ◌∷◌, [], ◌++◌, ◌≡◌, refl, ◌⊎◌, inl, inr, ok, err, arith,
}
use makedown.Providers.Errors.{CompletionResult, Thrown, is_retryable}
use makedown.Providers.Retry.{RetryPolicy}
use makedown.Providers.Fallback.{
  Env, Log, Attempt, answered, gave_up, Failure, is_last, walk_error, try_model, walk,
}

pub Attempt-cases :
    (p : Attempt × Log)
    → ((r : CompletionResult) × (log : Log) × (p ≡ (answered r, log)))
      ⊎ ((e : Thrown) × (log : Log) × (p ≡ (gave_up e, log)))
Attempt-cases (answered r, log) = inl (r, log, refl)
Attempt-cases (gave_up e, log) = inr (e, log, refl)

module _ (env : Env) (policy : RetryPolicy) (model : Text) (rest : List Text)
    (failures : List Failure) (log : Log) where
  abbrev pub attempt : Attempt × Log
  attempt = try_model env policy (policy.max_attempts_per_model - 1) 1 model log

  pub walk_answered :
      {r : CompletionResult} {log' : Log}
      → attempt ≡ (answered r, log')
      → walk env policy (model ∷ rest) failures log ≡ (ok r, log')
  unfolding walk
  walk_answered e = ground arith

  abbrev pub failed : Thrown → List Failure
  failed e = failures ++ record { model = model; error = e } ∷ []

  pub walk-failed :
      {e : Thrown} {log' : Log}
      → attempt ≡ (gave_up e, log')
      → (is_last rest || not (is_retryable e)) ≡ true
      → walk env policy (model ∷ rest) failures log ≡ (err (walk_error (failed e) e), log')
  unfolding walk
  walk-failed e stop = ground arith

  pub walk_next :
      {e : Thrown} {log' : Log}
      → attempt ≡ (gave_up e, log')
      → (is_last rest || not (is_retryable e)) ≡ false
      → walk env policy (model ∷ rest) failures log ≡ walk env policy rest (failed e) log'
  unfolding walk
  walk_next e go = ground arith
