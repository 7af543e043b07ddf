-- ===== src/Engine/Cost/Tests.antt =====
-- The estimate for a document of one chat target whose model has a price.
use makedown.Base.{
  text_eq, nat_eq, list_eq, list_eqb, index_of, trim, trim_end, trim_start, lit, true, false, none,
  some, [], ◌∷◌, ok, ◌≡◌, refl,
}
use makedown.Base.Map.{get, set}
use makedown.Types.{chat, TargetBlock, BuildDoc}
use makedown.Refs.{bare_ref}
use makedown.Graph.{visit, topo_sort, graph_node, graph_nodes, build_graph}
use makedown.Providers.ModelRef.{parse_model_ref}
use makedown.Providers.Pricing.{
  strip_date_suffix, normalize_model_id, lookup, anthropic_rate, estimate_cost_usd,
}
use makedown.Engine.Cas.{has_object}
use makedown.Engine.Plan.{
  by_name, is_stale, resolve_input, resolve_inputs, aux_hashes_for, plan_target, plan_targets,
  plan_build,
}
use makedown.Engine.Template.{Sources, replace_async, render_template}
use makedown.Engine.Sample.{header, context, world}
use makedown.Engine.Cost.{
  BuildCost, price_usd, add_cost, resolve_max_tokens, render_for_cost, cost_for_target,
  cost_targets, estimate_build_cost,
}
use makedown.Engine.Cost.Total.{SumsUp, estimate_build_cost-SumsUp}

abbrev priced_target : TargetBlock
priced_target = record {
  name = lit "n";
  header = record (header chat []) { model = some (lit "claude-opus-4-8") };
  body = lit "abcd";
}

abbrev priced_doc : BuildDoc
priced_doc = record {
  front_matter = record {
    version = none;
    defaults = none;
    artifacts_dir = lit "a";
    sources_dir = lit "s";
  };
  targets = priced_target ∷ [];
}

abbrev no_files : Sources
no_files = record {
  root = [];
  realpath = λ path. some path;
  read_file = λ path. ok [];
  resolver = none;
}

abbrev estimate : BuildCost
estimate = record {
  targets =
      record {
        target = lit "n";
        step = chat;
        model = some (lit "claude-opus-4-8");
        stale = true;
        calls = 1;
        input_tokens = 2;
        max_output_tokens = 16000;
        cost_usd = some 400010;
      }
      ∷ [];
  total_cost_usd = 400010;
  has_unpriced = false;
}

estimated :
    estimate_build_cost no_files (λ _. none) (λ _. []) (λ _. none) (context true) world priced_doc
    ≡ ok estimate
unfolding estimate_build_cost plan_build build_graph graph_nodes graph_node topo_sort visit bare_ref
    index_of by_name plan_targets plan_target resolve_inputs resolve_input aux_hashes_for is_stale
    has_object cost_targets cost_for_target render_for_cost render_template replace_async price_usd
    parse_model_ref estimate_cost_usd anthropic_rate lookup normalize_model_id strip_date_suffix
    add_cost resolve_max_tokens trim trim_start trim_end get set list_eqb
estimated = refl

estimate_build_cost-SumsUp_example : SumsUp estimate
estimate_build_cost-SumsUp_example =
    estimate_build_cost-SumsUp no_files (λ _. none) (λ _. []) (λ _. none) (context true) world
      priced_doc estimate estimated
