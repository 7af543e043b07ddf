-- ===== src/Engine/Execute/Fanout.antt =====
-- packages/engine/src/build.ts: the `map` step, one completion for each item of a list.
use makedown.Base.{
  ℕ, ◌+◌, Text, text_eq, Option, none, some, List, [], ◌∷◌, ◌++◌, length, ltb, has, if◌then◌else◌,
  or_default, Result, ok, err,
}
use makedown.Types.{map_step, TargetBlock, Provenance}
use makedown.Providers.Errors.{CompletionResult}
use makedown.Engine.World.{
  World, Build, BuildError, no_over, fanout_exceeded, pure, lift, gets, asks, some_or, ◌>>=◌, ◌>>◌,
}
use makedown.Engine.Context.{Context, Provider, Outputs}
use makedown.Engine.Plan.{TargetPlan, non_empty}
use makedown.Engine.Artifact.{
  map_aggregate_model, request, complete, need_provider, render_prompt, render_system,
  store_artifact,
}

abbrev pub default_map_fanout_cap : ℕ
default_map_fanout_cap = 1000

-- The five variables of the loop.
pub record Totals : Type 0 where
  pub results : List Text
  pub actual_models : List Text
  pub input : ℕ
  pub output : ℕ
  pub cost_usd : ℕ

abbrev pub no_totals : Totals
no_totals = record { results = []; actual_models = []; input = 0; output = 0; cost_usd = 0 }

-- `set.add(m)` where a model was reported.
abbrev pub add_model : List Text → Option Text → List Text
add_model models none = models
add_model models (some m) = if has models m then models else models ++ m ∷ []

unfoldable pub add_result : Totals → CompletionResult → Totals
add_result acc r = record {
  results = acc.results ++ r.text ∷ [];
  actual_models = add_model acc.actual_models r.model;
  input = acc.input + r.usage.input;
  output = acc.output + r.usage.output;
  cost_usd = acc.cost_usd + or_default r.cost_usd 0;
}

module _ (ctx : Context) where
  unfoldable pub map_item : Provider → TargetBlock → Outputs → Text → Build CompletionResult
  map_item provider t outputs item = do
    prompt ← render_prompt ctx t outputs (some item)
    system ← render_system ctx t outputs (some item)
    complete provider (request t system prompt)

  unfoldable pub map_items : Provider → TargetBlock → Outputs → List Text → Totals → Build Totals
  map_items provider t outputs [] acc = pure acc
  map_items provider t outputs (item ∷ items) acc = do
    result ← map_item provider t outputs item
    map_items provider t outputs items (add_result acc result)

  unfoldable pub map_provenance : TargetBlock → TargetPlan → Totals → ℕ → World → Provenance
  map_provenance t tp acc duration w =
      let m = map_aggregate_model t.header.model acc.actual_models in
      record {
        target = t.name;
        id = tp.id;
        output = t.header.output;
        step = map_step;
        model = m.model;
        requested_model = m.requested_model;
        fell_back = m.fell_back;
        params = t.header.params;
        inputs = tp.inputs;
        prompt_hash = ctx.sha256 (ctx.encode t.body);
        tokens = some (record { input = acc.input; output = acc.output });
        cost_usd = some acc.cost_usd;
        duration_ms = some duration;
        produced_at = ctx.now w;
        produced_by = none;
      }

  -- The cap is tested before any completion is asked for.
  unfoldable pub check_fanout : TargetBlock → List Text → Result BuildError (Unit {0})
  check_fanout t items =
      let cap = or_default ctx.max_map_fanout default_map_fanout_cap in
      if ltb cap (length items) then err (fanout_exceeded t.name (length items) cap) else ok tt

  unfoldable pub execute_map : TargetBlock → TargetPlan → Outputs → Build (Unit {0})
  execute_map t tp outputs = do
    provider ← need_provider ctx t
    over ← lift (some_or (non_empty t.header.over) (no_over t.name))
    content ← asks (λ w. ctx.read_ref w outputs over)
    lift (check_fanout t (ctx.parse_list content))
    totals ← map_items provider t outputs (ctx.parse_list content) no_totals
    duration ← gets ctx.duration
    store_artifact ctx t tp (ctx.encode (ctx.stringify totals.results))
        (map_provenance t tp totals duration)
