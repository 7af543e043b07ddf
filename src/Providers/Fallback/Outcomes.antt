-- ===== src/Providers/Fallback/Outcomes.antt =====
-- What a walk returns or throws, and which failures led to it.
use makedown.Base.{
  ℕ, zero, suc, ◌-◌, Text, true, false, not, ◌||◌, List, [], ◌∷◌, ◌++◌, map, ◌≡◌, refl, ap, ◌∙◌,
  length, ◌⊎◌, All, Result, ok, err, Result-cases, Bool-cases, inl, inr, append_assoc, arith,
}
use makedown.Providers.Errors.{CompletionResult, Thrown, should_retry_same_model, is_retryable}
use makedown.Providers.Retry.{RetryPolicy}
use makedown.Providers.Fallback.Steps.{Attempt-cases, walk_answered, walk-failed, walk_next}
use makedown.Providers.Fallback.Calls.{walk-calls}
use makedown.Providers.Fallback.{
  Env, Log, answered, gave_up, log_call, log_sleep, delay, stamp, is_last, walk_error, WalkError,
  try_model, walk, Failure, effective, empty_log, run_with_fallback,
}

-- A call in the log, and what it came to; `env` answers a call by its place in the log.
abbrev pub Called : Env → Log → Text → Result Thrown CompletionResult → Type 0
Called env log model r =
    (earlier : List Text) × (later : List Text) × (log.calls ≡ earlier ++ model ∷ later)
    × (env.run (length earlier) model ≡ r)

-- The same of the last call.
abbrev pub LastCalled : Env → Log → Text → Result Thrown CompletionResult → Type 0
LastCalled env log model r =
    (earlier : List Text) × (log.calls ≡ earlier ++ model ∷ [])
    × (env.run (length earlier) model ≡ r)

-- The failures that were gone past: each the result of a call, and transient.
abbrev pub Passed : Env → Log → List Failure → Type 0
Passed env log fs =
    All (λ f. Called env log f.model (err f.error) × (is_retryable f.error ≡ true)) fs

-- The models that failed transiently before, and the one that answered the last call.
pub record Answered (env : Env) (chain : List Text) (r : CompletionResult) (log : Log)
    : Type 0 where
  pub before : List Failure
  pub model : Text
  pub rest : List Text
  pub split : chain ≡ map (λ f. f.model) before ++ model ∷ rest
  pub passed : Passed env log before
  pub own : CompletionResult
  pub success : LastCalled env log model (ok own)
  pub stamped : r ≡ stamp model own

-- The models that failed: all but the last transiently, and the last fatally or with none left.
pub record Failed (env : Env) (chain : List Text) (failures : List Failure) (e : Thrown) (log : Log)
    : Type 0 where
  pub before : List Failure
  pub last : Failure
  pub rest : List Text
  pub split : failures ≡ before ++ last ∷ []
  pub tried : chain ≡ map (λ f. f.model) failures ++ rest
  pub passed : Passed env log before
  pub failure : LastCalled env log last.model (err last.error)
  pub final : (rest ≡ []) ⊎ (is_retryable last.error ≡ false)
  pub thrown : e ≡ last.error

module _ (env : Env) (policy : RetryPolicy) where
  try_model-answered :
      (left attempt : ℕ) (model : Text) (log log' : Log) (r : CompletionResult)
      → try_model env policy left attempt model log ≡ (answered r, log')
      → (own : CompletionResult) × LastCalled env log' model (ok own) × (r ≡ stamp model own)
  unfolding try_model
  try_model-answered zero attempt model log log' r h =
      elim (Result-cases (env.run (length log.calls) model)) [
        | inl (own, e) ↦ (own, (log.calls, ground arith, e), ground arith)
        | inr (t, e) ↦ absurd (ground arith)
      ]
  try_model-answered (suc left) attempt model log log' r h =
      elim (Result-cases (env.run (length log.calls) model)) [
        | inl (own, e) ↦ (own, (log.calls, ground arith, e), ground arith)
        | inr (t, e) ↦ elim (Bool-cases (should_retry_same_model t)) [
          | inl again ↦
              try_model-answered left (suc attempt) model
                (log_sleep (delay env policy attempt t log) (log_call model log)) log' r
                (ground arith)
          | inr enough ↦ absurd (ground arith)
        ]
      ]

  try_model-gave_up :
      (left attempt : ℕ) (model : Text) (log log' : Log) (t : Thrown)
      → try_model env policy left attempt model log ≡ (gave_up t, log')
      → LastCalled env log' model (err t)
  unfolding try_model
  try_model-gave_up zero attempt model log log' t h =
      elim (Result-cases (env.run (length log.calls) model)) [
        | inl (own, e) ↦ absurd (ground arith)
        | inr (x, e) ↦ (log.calls, ground arith, e ∙ ground arith)
      ]
  try_model-gave_up (suc left) attempt model log log' t h =
      elim (Result-cases (env.run (length log.calls) model)) [
        | inl (own, e) ↦ absurd (ground arith)
        | inr (x, e) ↦ elim (Bool-cases (should_retry_same_model x)) [
          | inl again ↦
              try_model-gave_up left (suc attempt) model
                (log_sleep (delay env policy attempt x log) (log_call model log)) log' t
                (ground arith)
          | inr enough ↦ (log.calls, ground arith, e ∙ ground arith)
        ]
      ]

  Answered-cons :
      (f : Failure) {chain : List Text} {r : CompletionResult} {log : Log}
      → Called env log f.model (err f.error)
      → is_retryable f.error ≡ true
      → Answered env chain r log
      → Answered env (f.model ∷ chain) r log
  Answered-cons f c t a = record {
    before = f ∷ a.before;
    model = a.model;
    rest = a.rest;
    split = ap (λ l. f.model ∷ l) a.split;
    passed = ((c, t), a.passed);
    own = a.own;
    success = a.success;
    stamped = a.stamped;
  }

  Failed-cons :
      (f : Failure) {chain : List Text} {failures : List Failure} {e : Thrown} {log : Log}
      → Called env log f.model (err f.error)
      → is_retryable f.error ≡ true
      → Failed env chain failures e log
      → Failed env (f.model ∷ chain) (f ∷ failures) e log
  Failed-cons f c t a = record {
    before = f ∷ a.before;
    last = a.last;
    rest = a.rest;
    split = ap (λ l. f ∷ l) a.split;
    tried = ap (λ l. f.model ∷ l) a.tried;
    passed = ((c, t), a.passed);
    failure = a.failure;
    final = a.final;
    thrown = a.thrown;
  }

  abbrev Outcome : List Text → List Failure → Result WalkError CompletionResult × Log → Type 0
  Outcome chain earlier (ok r, log) = Answered env chain r log
  Outcome chain earlier (err x, log) =
      (failures : List Failure) × (e : Thrown) × Failed env chain failures e log
      × (x ≡ walk_error (earlier ++ failures) e)

  first : Text → Thrown → Failure
  first model t = record { model = model; error = t }

  stop_reason :
      (rest : List Text) (t : Thrown)
      → (is_last rest || not (is_retryable t)) ≡ true
      → (rest ≡ []) ⊎ (is_retryable t ≡ false)
  stop_reason [] t h = inl refl
  stop_reason (m ∷ rest) t h = ground arith

  go_reason :
      (rest : List Text) (t : Thrown)
      → (is_last rest || not (is_retryable t)) ≡ false
      → is_retryable t ≡ true
  go_reason [] t h = cc
  go_reason (m ∷ rest) t h = ground arith

  -- A round that does not end the walk leaves the outcome to the rest of the chain.
  round-Outcome :
      (model : Text) (rest : List Text) (earlier : List Failure) (log : Log)
      → ((t : Thrown) (log' : Log)
          → LastCalled env log' model (err t)
          → (is_last rest || not (is_retryable t)) ≡ false
          → Outcome
              (model ∷ rest)
              earlier
              (walk env policy rest (earlier ++ first model t ∷ []) log'))
      → Outcome (model ∷ rest) earlier (walk env policy (model ∷ rest) earlier log)
  unfolding first
  round-Outcome model rest earlier log next =
      elim (Attempt-cases (try_model env policy (policy.max_attempts_per_model - 1) 1 model log)) [
        | inl (r, log', e) ↦
            let (own, success, stamped) = try_model-answered _ 1 model log log' r e in
            rw (walk_answered env policy model rest earlier log e) (record {
              before = [];
              model = model;
              rest = rest;
              split = refl;
              passed = tt;
              own = own;
              success = success;
              stamped = stamped;
            })
        | inr (t, log', e) ↦
            let failure = try_model-gave_up _ 1 model log log' t e in
            elim (Bool-cases (is_last rest || not (is_retryable t))) [
              | inl stop ↦ rw (walk-failed env policy model rest earlier log e stop) (
                first model t ∷ [],
                t,
                record {
                  before = [];
                  last = first model t;
                  rest = rest;
                  split = refl;
                  tried = refl;
                  passed = tt;
                  failure = failure;
                  final = stop_reason rest t stop;
                  thrown = refl;
                },
                refl,
              )
              | inr go ↦
                  rw (walk_next env policy model rest earlier log e go) (next t log' failure go)
            ]
      ]

  Outcome-cons :
      (chain : List Text) (f : Failure) (earlier : List Failure)
      (x : Result WalkError CompletionResult × Log)
      → Called env x.1 f.model (err f.error)
      → is_retryable f.error ≡ true
      → Outcome chain (earlier ++ f ∷ []) x
      → Outcome (f.model ∷ chain) earlier x
  Outcome-cons chain f earlier (ok r, log) c t o = Answered-cons f c t o
  Outcome-cons chain f earlier (err x, log) c t (failures, e, o, q) = (
    f ∷ failures,
    e,
    Failed-cons f c t o,
    q ∙ ap (λ l. walk_error l e) (append_assoc earlier (f ∷ []) failures),
  )

  -- A call that was in the log when the rest of the chain was begun is in the log at the end.
  LastCalled-Called :
      (chain : List Text) (failures : List Failure) (log : Log) (model : Text)
      (r : Result Thrown CompletionResult)
      → LastCalled env log model r
      → Called env (walk env policy chain failures log).1 model r
  LastCalled-Called chain failures log model r (pre, last, made) =
      let (calls, more, _) = walk-calls env policy chain failures log in
      (pre, calls, more ∙ ap (λ l. l ++ calls) last ∙ append_assoc pre (model ∷ []) calls, made)

  walk-Outcome :
      (model : Text) (rest : List Text) (earlier : List Failure) (log : Log)
      → Outcome (model ∷ rest) earlier (walk env policy (model ∷ rest) earlier log)
  unfolding first
  walk-Outcome model [] earlier log = round-Outcome model [] earlier log (λ t log' failure go. cc)
  walk-Outcome model (m ∷ rest) earlier log =
      round-Outcome model (m ∷ rest) earlier log λ t log' failure go.
        let failures = earlier ++ first model t ∷ [] in
        Outcome-cons (m ∷ rest) (first model t) earlier _
          (LastCalled-Called (m ∷ rest) failures log' model (err t) failure)
          (go_reason (m ∷ rest) t go) (walk-Outcome m rest failures log')

pub run_with_fallback-Outcome :
    (env : Env) (policy : RetryPolicy) (model : Text) (rest : List Text)
    → let (x, log) = run_with_fallback env policy (model ∷ rest) in
      ((r : CompletionResult) × (x ≡ ok r) × Answered env (model ∷ rest) r log)
      ⊎ ((failures : List Failure) × (e : Thrown) × (x ≡ err (walk_error failures e))
          × Failed env (model ∷ rest) failures e log)
unfolding run_with_fallback
run_with_fallback-Outcome env policy model rest =
    conclude (walk env (effective policy) (model ∷ rest) [] empty_log)
      (walk-Outcome env (effective policy) model rest [] empty_log)
  where
    conclude :
        (x : Result WalkError CompletionResult × Log)
        → Outcome env (effective policy) (model ∷ rest) [] x
        → ((r : CompletionResult) × (x.0 ≡ ok r) × Answered env (model ∷ rest) r x.1)
          ⊎ ((failures : List Failure) × (e : Thrown) × (x.0 ≡ err (walk_error failures e))
              × Failed env (model ∷ rest) failures e x.1)
    conclude (ok r, log) o = inl (r, refl, o)
    conclude (err x, log) (failures, e, o, q) = inr (failures, e, ap err q, o)
