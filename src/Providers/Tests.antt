-- ===== src/Providers/Tests.antt =====
-- A chain of two models and a router over it, each theorem at them.
use mathlib.Core.List.{Perm}
use makedown.Base.{
  ◌++◌, length, ℕ, ◌*◌, ◌≤◌, ◌<◌, max, Text, text_eq, list_eqb, index_of, trim, trim_start,
  trim_end, lit, Bool, true, false, ◌||◌, ◌==◌, Option, none, some, List, [], ◌∷◌, map, length, has,
  ◌≡◌, ◌⊎◌, refl, arith, Result, ok, err,
}
use makedown.Types.{end, cost_aware}
use makedown.Providers.Errors.{
  CompletionRequest, CompletionResult, Thrown, provider_error, overload,
}
use makedown.Providers.ModelRef.{parse_model_ref}
use makedown.Providers.Pricing.{blended_price}
use makedown.Providers.Retry.{Random, default_retry_policy, capped_delay, backoff_delay_ms}
use makedown.Providers.Retry.Bounds.{backoff_delay_ms_bounds}
use makedown.Providers.Chain.{Entry, entries_from, sort_by_cost, dedupe, build_chain, alternatives}
use makedown.Providers.Chain.Members.{IsDistinct, build_chain_lem}
use makedown.Providers.Chain.Sorted.{IsCheapestFirst, sort_by_cost_lem}
use makedown.Providers.Fallback.{Env, Failure, walk_error, try_model, walk, run_with_fallback}
use makedown.Providers.Fallback.Calls.{Walked, run_with_fallback-calls}
use makedown.Providers.Fallback.Outcomes.{Answered, Failed, run_with_fallback-Outcome}
use makedown.Providers.Router.{
  AnsweredBy, ProviderRouterConfig, get_backend, run_ref, complete, complete-model,
}

abbrev answer : CompletionResult
answer = record {
  text = lit "t";
  usage = record { input = 1; output = 1 };
  cost_usd = none;
  model = none;
}

abbrev busy : Thrown
busy = provider_error (record {
  message = lit "busy";
  kind = overload;
  provider = lit "anthropic";
  status = none;
  retry_after_ms = none;
})

abbrev half : Random
half = record { num = 1; den = 2 }

-- The first model is always busy.
abbrev env : Env
env = record { run = λ n model. if_busy (model == lit "a"); rand = λ n. half }
  where
    if_busy : Bool → Result Thrown CompletionResult
    if_busy true = err busy
    if_busy false = ok answer

abbrev chain : List Text
chain = lit "a" ∷ lit "b" ∷ []

run_with_fallback-Outcome_example :
    let (x, log) = run_with_fallback env default_retry_policy chain in
    ((r : CompletionResult) × (x ≡ ok r) × Answered env chain r log)
    ⊎ ((failures : List Failure) × (e : Thrown) × (x ≡ err (walk_error failures e))
        × Failed env chain failures e log)
run_with_fallback-Outcome_example =
    run_with_fallback-Outcome env default_retry_policy (lit "a") (lit "b" ∷ [])

run_with_fallback-calls_example :
    Walked (max 1 3) chain (run_with_fallback env default_retry_policy chain).1.calls
    × (length (run_with_fallback env default_retry_policy chain).1.calls ≤ max 1 3 * length chain)
run_with_fallback-calls_example = run_with_fallback-calls env default_retry_policy chain

abbrev config : ProviderRouterConfig
config = record {
  default_provider = none;
  anthropic_configured = true;
  openai_configured = false;
  retry = default_retry_policy;
}

abbrev request : CompletionRequest
request = record {
  model = lit "a";
  system = none;
  prompt = lit "p";
  params = end;
  fallback = some (lit "b" ∷ []);
  route = none;
}

complete-model_example :
    (ref : Text) × (earlier : List Text) × ((complete
        (λ n b req. ok answer)
        (λ n. half)
        config
        request).1.calls
      ≡ earlier ++ ref ∷ [])
    × ((lit "a" == ref || has (alternatives (some (lit "b" ∷ []))) ref) ≡ true)
    × AnsweredBy
        (λ n b req. ok answer)
        (λ n. half)
        config
        request
        (length earlier)
        ref
        (record answer { model = some (lit "a") })
unfolding complete trim trim_start trim_end run_with_fallback walk try_model run_ref get_backend
    parse_model_ref index_of build_chain dedupe list_eqb
complete-model_example =
    complete-model (λ n b req. ok answer) (λ n. half) config request
      (record answer { model = some (lit "a") }) refl

build_chain_lem_example :
    ((rest : List Text) × (build_chain (lit "a") (some chain) (some cost_aware) (lit "openai")
        ≡ lit "a" ∷ rest))
    × IsDistinct (build_chain (lit "a") (some chain) (some cost_aware) (lit "openai"))
    × ((x : Text)
        → has (build_chain (lit "a") (some chain) (some cost_aware) (lit "openai")) x
          ≡ (lit "a" == x || has (alternatives (some chain)) x))
build_chain_lem_example = build_chain_lem (lit "a") (some chain) (some cost_aware) (lit "openai")

sort_by_cost_lem_example :
    (es : List Entry) × (sort_by_cost chain (lit "openai") ≡ map (λ e. e.ref) es)
    × Perm es (entries_from (λ ref. blended_price ref (lit "openai")) 0 chain)
    × IsCheapestFirst es
sort_by_cost_lem_example = sort_by_cost_lem chain (lit "openai")

backoff_delay_ms_bounds_example :
    ((ms : ℕ)
      → ◌≡◌ {A = Option ℕ} none (some ms)
      → 0 < ms
      → backoff_delay_ms 2 default_retry_policy none half ≡ ms)
    × ((◌≡◌ {A = Option ℕ} none none) ⊎ (◌≡◌ {A = Option ℕ} none (some 0))
        → (capped_delay 2 default_retry_policy
            ≤ 2 * backoff_delay_ms 2 default_retry_policy none half)
          × (backoff_delay_ms 2 default_retry_policy none half
              ≤ capped_delay 2 default_retry_policy)
          × (backoff_delay_ms 2 default_retry_policy none half ≤ 8000))
backoff_delay_ms_bounds_example =
    backoff_delay_ms_bounds 2 default_retry_policy none half (omega arith)
