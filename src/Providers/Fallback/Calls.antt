-- ===== src/Providers/Fallback/Calls.antt =====
-- Which calls a walk makes: some prefix of the chain, each model in turn and boundedly often.
use makedown.Base.{
  ℕ, zero, suc, ◌-◌, ◌*◌, ◌≤◌, ◌<◌, max, Text, not, ◌||◌, subst, List, [], ◌∷◌, ◌++◌, ◌≡◌, refl,
  sym, ap, ◌∙◌, length, length-append, Result-cases, Bool-cases, inl, inr, append_assoc, append-nil,
  arith,
}
use makedown.Providers.Errors.{should_retry_same_model, is_retryable}
use makedown.Providers.Retry.{RetryPolicy}
use makedown.Providers.Fallback.Steps.{Attempt-cases, walk_answered, walk-failed, walk_next}
use makedown.Providers.Fallback.{
  Env, Log, log_call, log_sleep, delay, is_last, try_model, walk, Failure, effective, empty_log,
  run_with_fallback,
}

abbrev pub replicate : ℕ → Text → List Text
replicate zero m = []
replicate (suc n) m = m ∷ replicate n m

length-replicate : (n : ℕ) (m : Text) → length (replicate n m) ≡ n
length-replicate zero m = refl
length-replicate (suc n) m = ap suc (length-replicate n m)

-- The calls of a walk over a chain, with at least one and at most `most` calls of each model that it comes
-- to: an empty chain has none, and otherwise the first model is called, and after it the walk stops or
-- goes on.
pub data Walked (most : ℕ) : List Text → List Text → Type 0 where
  empty : Walked most [] []
  stopped :
      (n : ℕ) (model : Text) (chain : List Text)
      → n < most
      → Walked most (model ∷ chain) (replicate (suc n) model)
  called :
      (n : ℕ) (model : Text) (chain : List Text) {calls all : List Text}
      → n < most
      → Walked most chain calls
      → all ≡ replicate (suc n) model ++ calls
      → Walked most (model ∷ chain) all

module _ (env : Env) (policy : RetryPolicy) where
  try_model-calls :
      (left attempt : ℕ) (model : Text) (log : Log)
      → (n : ℕ) × (n ≤ left)
        × ((try_model env policy left attempt model log).1.calls
            ≡ log.calls ++ replicate (suc n) model)
  unfolding try_model
  try_model-calls zero attempt model log = elim (Result-cases (env.run (length log.calls) model)) [
    | inl (r, e) ↦ (0, omega arith, rw (e, try_model))
    | inr (t, e) ↦ (0, omega arith, rw (e, try_model))
  ]
  try_model-calls (suc left) attempt model log =
      elim (Result-cases (env.run (length log.calls) model)) [
        | inl (r, e) ↦ (0, omega arith, rw (e, try_model))
        | inr (t, e) ↦ elim (Bool-cases (should_retry_same_model t)) [
          | inl again ↦
              let (n, h, q) =
                try_model-calls left (suc attempt) model
                  (log_sleep (delay env policy attempt t log) (log_call model log)) in
              (suc n, omega arith, rw (e, again, try_model) (q ∙ append_assoc log.calls _ _))
          | inr enough ↦ (0, omega arith, rw (e, enough, try_model))
        ]
      ]

  abbrev pub tries : ℕ
  tries = suc (policy.max_attempts_per_model - 1)

  pub walk-calls :
      (chain : List Text) (failures : List Failure) (log : Log)
      → (calls : List Text) × ((walk env policy chain failures log).1.calls ≡ log.calls ++ calls)
        × Walked tries chain calls
  unfolding walk
  walk-calls [] failures log = ([], sym (append-nil log.calls), empty)
  walk-calls (model ∷ rest) failures log =
      let (n, h, q) = try_model-calls (policy.max_attempts_per_model - 1) 1 model log in
      let alone : Walked tries (model ∷ rest) (replicate (suc n) model) =
        stopped n model rest (omega arith) in
      elim (Attempt-cases (try_model env policy (policy.max_attempts_per_model - 1) 1 model log)) [
        | inl (r, log', e) ↦ (
          replicate (suc n) model,
          ap (λ p. p.1.calls) (walk_answered env policy model rest failures log e)
              ∙ sym (ap (λ p. p.1.calls) e)
              ∙ q,
          alone,
        )
        | inr (t, log', e) ↦ elim (Bool-cases (is_last rest || not (is_retryable t))) [
          | inl stop ↦ (
            replicate (suc n) model,
            ap (λ p. p.1.calls) (walk-failed env policy model rest failures log e stop)
                ∙ sym (ap (λ p. p.1.calls) e)
                ∙ q,
            alone,
          )
          | inr go ↦
              let (calls, later, w) =
                walk-calls rest (failures ++ record { model = model; error = t } ∷ []) log' in
              (
                replicate (suc n) model ++ calls,
                ap (λ p. p.1.calls) (walk_next env policy model rest failures log e go)
                    ∙ later
                    ∙ ap (λ l. l ++ calls) (sym (ap (λ p. p.1.calls) e) ∙ q)
                    ∙ append_assoc log.calls (replicate (suc n) model) calls,
                called n model rest (omega arith) w refl,
              )
        ]
      ]

length-Walked :
    (most : ℕ) (chain calls : List Text)
    → Walked most chain calls
    → length calls ≤ most * length chain
length-Walked most chain calls empty = omega arith
length-Walked most chain calls (stopped n model rest h) = grind (arith, length-replicate n model)
length-Walked most chain calls (called n model rest {calls = later} h w e) = grind (
  arith,
  length-Walked most rest later w,
  ap length e,
  length-append (replicate (suc n) model) later,
  length-replicate n model,
)

-- The calls are those of a walk along the chain: the first model is called at least once and at most
-- as often as the policy says (once if it says 0), then perhaps the next, and so on; so no model is
-- called ahead of its turn, and there are at most that many calls for each model of the chain.
pub run_with_fallback-calls :
    (env : Env) (policy : RetryPolicy) (chain : List Text)
    → Walked
        (max 1 policy.max_attempts_per_model)
        chain
        (run_with_fallback env policy chain).1.calls
      × (length (run_with_fallback env policy chain).1.calls
          ≤ max 1 policy.max_attempts_per_model * length chain)
unfolding run_with_fallback
run_with_fallback-calls env policy chain =
    let (calls, e, w) = walk-calls env (effective policy) chain [] empty_log in
    let most : suc (max 1 policy.max_attempts_per_model - 1) ≡ max 1 policy.max_attempts_per_model =
      omega arith in
    let walked = subst (λ n. Walked n chain calls) most w in
    rw e (walked, length-Walked _ chain calls walked)
