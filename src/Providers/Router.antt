-- ===== src/Providers/Router.antt =====
-- packages/providers/src/router.ts: a provider that sends each request to its model's backend.
-- The backends are the vendors' services: `backend` answers the n-th call. The map that keeps the
-- constructed adapters only saves their construction, and is left out.
use makedown.Base.{
  length, ℕ, Text, text_eq, lit, trim, Bool, true, ◌||◌, Option, none, some, List, [], ◌∷◌, ◌++◌,
  map, has, ◌==◌, ◌≡◌, refl, sym, ap, ◌∙◌, subst, or_default, if◌then◌else◌, Result, ok, err, ◌>>=◌,
  >>=-eq-ok, ok-injective, List-cases, inl, inr, arith,
}
use makedown.Providers.Errors.{
  CompletionRequest, CompletionResult, ProviderErrorKind, unavailable, bad_request, Thrown,
  provider_error,
}
use makedown.Providers.ModelRef.{parse_model_ref}
use makedown.Providers.Retry.{RetryPolicy, Random}
use makedown.Providers.Chain.{build_chain, alternatives}
use makedown.Providers.Chain.Members.{build_chain_lem}
use makedown.Providers.Fallback.{Env, Log, empty_log, WalkError, Failure, stamp, run_with_fallback}
use makedown.Providers.Fallback.Outcomes.{Answered, run_with_fallback-Outcome}

pub data Backend : Type 0 where
  anthropic openai : Backend

pub record ProviderRouterConfig : Type 0 where
  pub default_provider : Option Text
  pub anthropic_configured : Bool
  pub openai_configured : Bool
  pub retry : RetryPolicy

pub data RouterError : Type 0 where
  no_model : RouterError
  walk_failed : WalkError → RouterError

abbrev not_available : Text → ProviderErrorKind → Thrown
not_available id kind =
    provider_error
      (record { message = id; kind = kind; provider = id; status = none; retry_after_ms = none })

unfoldable pub get_backend : ProviderRouterConfig → Text → Result Thrown Backend
get_backend config id =
    if id == lit "anthropic"
    then if config.anthropic_configured then ok anthropic else err (not_available id unavailable)
    else if id == lit "openai"
    then if config.openai_configured then ok openai else err (not_available id unavailable)
    else err (not_available id bad_request)

module _ (backend : ℕ → Backend → CompletionRequest → Result Thrown CompletionResult)
    (rand : ℕ → Random) (config : ProviderRouterConfig) where
  abbrev default_id : Text
  default_id = or_default config.default_provider (lit "anthropic")

  -- The runner that the router hands to the walk: one call of the backend of a reference.
  unfoldable pub run_ref : CompletionRequest → ℕ → Text → Result Thrown CompletionResult
  unfolding get_backend
  run_ref request n ref =
      let target = parse_model_ref ref default_id in
      get_backend config target.provider >>= λ b.
      backend n b (record request { model = target.model; fallback = none; route = none }) >>= λ r.
      ok (record r { model = some ref })

  abbrev pub env_of : CompletionRequest → Env
  env_of request = record { run = run_ref request; rand = rand }

  abbrev pub chain_of : CompletionRequest → List Text
  chain_of request = build_chain request.model request.fallback request.route default_id

  abbrev wrap : Result WalkError CompletionResult → Result RouterError CompletionResult
  wrap (ok r) = ok r
  wrap (err e) = err (walk_failed e)

  unfoldable pub complete : CompletionRequest → Result RouterError CompletionResult × Log
  complete request = elim (trim request.model) [
    | [] ↦ (err no_model, empty_log)
    | _ ∷ _ ↦
        let (x, log) = run_with_fallback (env_of request) config.retry (chain_of request) in
        (wrap x, log)
  ]

  -- What the backend of a reference is sent.
  abbrev pub sent : CompletionRequest → Text → CompletionRequest
  sent request ref = record request {
    model = (parse_model_ref ref default_id).model;
    fallback = none;
    route = none;
  }

  -- The reference was sent to a configured backend by the n-th call, and `r` is the answer under its name.
  abbrev pub AnsweredBy : CompletionRequest → ℕ → Text → CompletionResult → Type 0
  AnsweredBy request n ref r =
      (b : Backend) × (get_backend config (parse_model_ref ref default_id).provider ≡ ok b)
      × (own : CompletionResult) × (backend n b (sent request ref) ≡ ok own)
      × (r ≡ record own { model = some ref })

  stamp_named :
      (s : Text) (r : CompletionResult)
      → stamp s (record r { model = some s }) ≡ record r { model = some s }
  stamp_named [] r = refl
  stamp_named (c ∷ s) r = refl

  run_ref-AnsweredBy :
      (request : CompletionRequest) (n : ℕ) (ref : Text) (own : CompletionResult)
      → run_ref request n ref ≡ ok own
      → AnsweredBy request n ref (stamp ref own)
  unfolding run_ref
  run_ref-AnsweredBy request n ref own h =
      let (b, found, called) =
        >>=-eq-ok (get_backend config (parse_model_ref ref default_id).provider) _ h in
      let (r, answered, made) = >>=-eq-ok (backend n b (sent request ref)) _ called in
      (b, found, r, answered, ap (stamp ref) (sym (ok-injective made)) ∙ stamp_named ref r)

  complete-ok :
      (request : CompletionRequest) (r : CompletionResult)
      → (complete request).0 ≡ ok r
      → ((run_with_fallback (env_of request) config.retry (chain_of request)).0 ≡ ok r)
        × ((run_with_fallback (env_of request) config.retry (chain_of request)).1
            ≡ (complete request).1)
  unfolding complete
  complete-ok request r h = elim (List-cases (trim request.model)) [
    | inl blank ↦ absurd (cc (rw (blank, complete) at h))
    | inr (c, s, e) ↦ (
      unwrap (run_with_fallback (env_of request) config.retry (chain_of request)).0
          (rw (e, complete) at h),
      rw (e, complete) refl,
    )
  ]
    where
      unwrap : (x : Result WalkError CompletionResult) → wrap x ≡ ok r → x ≡ ok r
      unwrap (ok r') q = cc
      unwrap (err e) q = cc

  answer_in_chain :
      (env : Env) (model : Text) (rest : List Text) (r : CompletionResult)
      → (run_with_fallback env config.retry (model ∷ rest)).0 ≡ ok r
      → Answered env (model ∷ rest) r (run_with_fallback env config.retry (model ∷ rest)).1
  answer_in_chain env model rest r h =
      elim (run_with_fallback-Outcome env config.retry model rest) [
        | inl (r', e, a) ↦
            let log = (run_with_fallback env config.retry (model ∷ rest)).1 in
            subst (λ x. Answered env (model ∷ rest) x log) (ok-injective (sym e ∙ h)) a
        | inr (fs, t, e, f) ↦ cc
      ]

  has-middle :
      (before : List Failure) (m : Text) (rest : List Text)
      → has (map (λ f. f.model) before ++ m ∷ rest) m ≡ true
  has-middle [] m rest = ground (arith, text_eq.beq_iff m m)
  has-middle (f ∷ before) m rest = ground (arith, has-middle before m rest)

  pub complete-model :
      (request : CompletionRequest) (r : CompletionResult)
      → (complete request).0 ≡ ok r
      → (ref : Text) × (earlier : List Text) × ((complete request).1.calls ≡ earlier ++ ref ∷ [])
        × ((request.model == ref || has (alternatives request.fallback) ref) ≡ true)
        × AnsweredBy request (length earlier) ref r
  complete-model request r h =
      let ((rest, chain), _, members) =
        build_chain_lem request.model request.fallback request.route default_id in
      let (returned, logged) = complete-ok request r h in
      let a = answer_in_chain (env_of request) request.model rest r (rw chain at returned) in
      let (earlier, last, made) = a.success in
      let inside : has (chain_of request) a.model ≡ true =
        ap (λ l. has l a.model) (chain ∙ a.split) ∙ has-middle a.before a.model a.rest in
      (
        a.model,
        earlier,
        ap (λ l. l.calls) (sym logged)
            ∙ ap (λ c. (run_with_fallback (env_of request) config.retry c).1.calls) chain
            ∙ last,
        sym (members a.model) ∙ inside,
        subst (AnsweredBy request (length earlier) a.model) (sym a.stamped)
            (run_ref-AnsweredBy request (length earlier) a.model a.own made),
      )
