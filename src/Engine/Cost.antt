-- ===== src/Engine/Cost.antt =====
-- packages/engine/src/cost.ts and packages/providers/src/params.ts: what a build may cost, found without
-- a call of a model. Costs are in millionths of a dollar.
pub mod Total
mod Tests
use makedown.Base.{
  ℕ, ◌+◌, ◌*◌, ◌/◌, Text, text_eq, lit, Bool, true, false, ◌&&◌, ◌==◌, ltb, Option, none, some,
  List, [], ◌∷◌, ◌++◌, length, if◌then◌else◌, Result, ok, err, ◌>>=◌, map_err,
}
use makedown.Base.Map.{Map, get, set}
use makedown.Types.{
  Fields, end, field, Json, StepType, chat, eval, map_step, transform, agent, TargetBlock, BuildDoc,
}
use makedown.Providers.ModelRef.{parse_model_ref}
use makedown.Providers.Pricing.{estimate_cost_usd}
use makedown.Engine.World.{World, BuildError}
use makedown.Engine.Context.{Context}
use makedown.Engine.Plan.{TargetPlan, by_name, non_empty, plan_build}
use makedown.Engine.Template.{Sources, RenderError, render_template, read_ref_content, parse_list}

abbrev pub chars_per_token : ℕ
chars_per_token = 4

-- `Math.ceil` of the quotient
abbrev pub estimate_tokens : Text → ℕ
estimate_tokens text = (length text + 3) / chars_per_token

pub record TargetCost : Type 0 where
  pub target : Text
  pub step : StepType
  pub model : Option Text
  pub stale : Bool
  pub calls : ℕ
  pub input_tokens : ℕ
  pub max_output_tokens : ℕ
  pub cost_usd : Option ℕ

pub record BuildCost : Type 0 where
  pub targets : List TargetCost
  pub total_cost_usd : ℕ
  pub has_unpriced : Bool

abbrev pub is_model_step : StepType → Bool
is_model_step chat = true
is_model_step eval = true
is_model_step map_step = true
is_model_step agent = false
is_model_step transform = false

unfoldable pub price_usd : Option Text → ℕ → ℕ → Option ℕ
price_usd model input_tokens output_tokens = elim (non_empty model) [
  | none ↦ none
  | some m ↦
      estimate_cost_usd (parse_model_ref m (lit "anthropic")).model input_tokens output_tokens
]

-- `new Map(doc.targets.map((t) => [t.name, t.header.output]))`
abbrev pub outputs_of : List TargetBlock → Map Text Text → Map Text Text
outputs_of [] m = m
outputs_of (t ∷ ts) m = outputs_of ts (set m t.name t.header.output)

-- An unread list is an empty one.
abbrev pub list_or_none : (Text → List Text) → Result RenderError Text → List Text
list_or_none parse (ok content) = parse content
list_or_none parse (err e) = []

abbrev pub first_or_empty : List Text → Text
first_or_empty [] = []
first_or_empty (item ∷ items) = item

abbrev pub bindings_of : Option Text → Map Text Text
bindings_of none = []
bindings_of (some item) = (lit "item", item) ∷ []

-- The contribution of one target to the sum.
unfoldable pub add_cost : TargetCost → BuildCost → BuildCost
add_cost cost sum =
    let targets = sum.targets ++ cost ∷ [] in
    if cost.stale && is_model_step cost.step
    then elim cost.cost_usd [
      | none ↦ record {
        targets = targets;
        total_cost_usd = sum.total_cost_usd;
        has_unpriced = true;
      }
      | some usd ↦ record {
        targets = targets;
        total_cost_usd = sum.total_cost_usd + usd;
        has_unpriced = sum.has_unpriced;
      }
    ]
    else record {
      targets = targets;
      total_cost_usd = sum.total_cost_usd;
      has_unpriced = sum.has_unpriced;
    }

abbrev pub default_max_tokens : ℕ
default_max_tokens = 16000

abbrev pub param : Text → Fields → Option Json
param key end = none
param key (field k v fields) = if k == key then some v else param key fields

abbrev pub positive_or : ℕ → Option ℕ → ℕ
positive_or fallback none = fallback
positive_or fallback (some n) = if ltb 0 n then n else fallback

-- `number_of` is `Number`: nothing where that is not a finite number.
unfoldable pub resolve_max_tokens : (Json → Option ℕ) → Fields → ℕ
resolve_max_tokens number_of params = elim (param (lit "max_tokens") params) [
  | none ↦ default_max_tokens
  | some raw ↦ positive_or default_max_tokens (number_of raw)
]

pub data CostError : Type 0 where
  plan_failed : BuildError → CostError
  render_failed : RenderError → CostError

abbrev pub no_cost : BuildCost
no_cost = record { targets = []; total_cost_usd = 0; has_unpriced = false }

-- Files, JSON and the conversion to a number are arguments.
module _ (src : Sources) (json_parse : Text → Option Json) (stringify : Json → Text)
    (number_of : Json → Option ℕ) where
  unfoldable pub render_for_cost :
      Map Text Text → TargetBlock → Option Text → Result RenderError Text
  render_for_cost outputs t item =
      render_template src outputs true (bindings_of item) t.body >>= λ prompt.
      elim (non_empty t.header.system) [
        | none ↦ ok (b'\n' ∷ prompt)
        | some s ↦ render_template src outputs true (bindings_of item) s >>= λ system.
            ok (system ++ b'\n' ∷ prompt)
      ]

  unfoldable pub items_of : Map Text Text → TargetBlock → List Text
  items_of outputs t = elim (non_empty t.header.over) [
    | none ↦ []
    | some over ↦ list_or_none (parse_list json_parse stringify) (read_ref_content src outputs over)
  ]

  abbrev pub cost_of_calls : TargetBlock → TargetPlan → ℕ → ℕ → TargetCost
  cost_of_calls t tp calls per_call =
      let input_tokens = per_call * calls in
      let max_output_tokens = resolve_max_tokens number_of t.header.params * calls in
      record {
        target = t.name;
        step = t.header.step;
        model = t.header.model;
        stale = tp.stale;
        calls = calls;
        input_tokens = input_tokens;
        max_output_tokens = max_output_tokens;
        cost_usd = price_usd t.header.model input_tokens max_output_tokens;
      }

  abbrev pub cost_of_none : TargetBlock → TargetPlan → TargetCost
  cost_of_none t tp = record {
    target = t.name;
    step = t.header.step;
    model = t.header.model;
    stale = tp.stale;
    calls = 0;
    input_tokens = 0;
    max_output_tokens = 0;
    cost_usd = some 0;
  }

  abbrev pub cost_of_call : Map Text Text → TargetBlock → TargetPlan → Result RenderError TargetCost
  cost_of_call outputs t tp =
      render_for_cost outputs t none >>= λ text. ok (cost_of_calls t tp 1 (estimate_tokens text))

  unfoldable pub cost_for_target :
      Map Text Text → TargetBlock → TargetPlan → Result RenderError TargetCost
  cost_for_target outputs t tp = elim t.header.step [
    | transform ↦ ok (cost_of_none t tp)
    | agent ↦ ok (cost_of_none t tp)
    | map_step ↦
        let items = items_of outputs t in
        render_for_cost outputs t (some (first_or_empty items)) >>= λ per_item.
        ok (cost_of_calls t tp (length items) (estimate_tokens per_item))
    | chat ↦ cost_of_call outputs t tp
    | eval ↦ cost_of_call outputs t tp
  ]

  -- The loop over the plan.
  unfoldable pub cost_targets :
      Map Text TargetBlock
      → Map Text Text
      → List TargetPlan
      → BuildCost
      → Result RenderError BuildCost
  cost_targets targets outputs [] sum = ok sum
  cost_targets targets outputs (tp ∷ tps) sum = elim (get targets tp.name) [
    | none ↦ cost_targets targets outputs tps sum
    | some t ↦ cost_for_target outputs t tp >>= λ cost.
        cost_targets targets outputs tps (add_cost cost sum)
  ]

  unfoldable pub estimate_build_cost : Context → World → BuildDoc → Result CostError BuildCost
  estimate_build_cost ctx w doc = map_err plan_failed (plan_build ctx w doc) >>= λ plan.
      map_err render_failed
        (cost_targets (by_name doc.targets []) (outputs_of doc.targets []) plan.targets no_cost)
