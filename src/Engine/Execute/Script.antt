-- ===== src/Engine/Execute/Script.antt =====
-- packages/engine/src/build.ts: the `transform` step, a script over the contents of the inputs.
use makedown.Base.{ℕ, Text, text_eq, none, some, List, [], ◌∷◌, Result, ok, err}
use makedown.Base.Map.{Map, get, set}
use makedown.Types.{transform, TargetBlock, Provenance}
use makedown.Refs.{bare_ref}
use makedown.Engine.Cas.{Bytes}
use makedown.Engine.World.{
  World, Build, BuildError, no_script, script_not_found, bad_product, pure, lift, gets, asks,
  some_or, ◌>>=◌,
}
use makedown.Engine.Context.{Context, Product, text_product, bytes_product, other_product, Outputs}
use makedown.Engine.Plan.{TargetPlan, non_empty}
use makedown.Engine.Artifact.{store_artifact}

pub record ScriptFile : Type 0 where
  pub abs_path : Text
  pub hash : Text

module _ (ctx : Context) where
  unfoldable pub resolve_transform_script : TargetBlock → Build ScriptFile
  resolve_transform_script t = do
    rel ← lift (some_or (non_empty t.header.transform_script) (no_script t.name))
    abs ← asks (λ w. ctx.confine w rel)
    bytes ← asks (λ w. some_or (get w.files abs) (script_not_found rel))
    pure (record { abs_path = abs; hash = ctx.sha256 bytes })

  unfoldable pub resolve_input_contents :
      Outputs → List Text → Map Text Text → Build (Map Text Text)
  resolve_input_contents outputs [] out = pure out
  resolve_input_contents outputs (input ∷ inputs) out = do
    content ← asks (λ w. ctx.read_ref w outputs (bare_ref input))
    resolve_input_contents outputs inputs (set out (bare_ref input) content)

  unfoldable pub to_bytes : TargetBlock → Product → Result BuildError Bytes
  to_bytes t (bytes_product b) = ok b
  to_bytes t (text_product s) = ok (ctx.encode s)
  to_bytes t other_product = err (bad_product t.name)

  unfoldable pub script_provenance : TargetBlock → TargetPlan → Text → ℕ → World → Provenance
  script_provenance t tp hash duration w = record {
    target = t.name;
    id = tp.id;
    output = t.header.output;
    step = transform;
    model = t.header.model;
    requested_model = none;
    fell_back = none;
    params = t.header.params;
    inputs = tp.inputs;
    prompt_hash = hash;
    tokens = none;
    cost_usd = some 0;
    duration_ms = some duration;
    produced_at = ctx.now w;
    produced_by = none;
  }

  unfoldable pub execute_transform : TargetBlock → TargetPlan → Outputs → Build (Unit {0})
  execute_transform t tp outputs = do
    script ← resolve_transform_script t
    inputs ← resolve_input_contents outputs t.header.inputs []
    produced ← asks (λ w. ctx.run_script w t.header.sandbox script.abs_path script.hash inputs)
    duration ← gets ctx.duration
    content ← lift (to_bytes t produced)
    store_artifact ctx t tp content (script_provenance t tp script.hash duration)
