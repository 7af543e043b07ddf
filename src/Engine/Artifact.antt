-- ===== src/Engine/Artifact.antt =====
-- packages/engine/src/build.ts: what the steps share. Prompts are rendered, a completion is asked for,
-- and an artifact is put in the store, written to its path and recorded with its provenance.
use makedown.Base.{
  ℕ, nat_eq, Text, text_eq, Bool, true, not, ◌==◌, Option, none, some, List, [], ◌∷◌, ◌++◌, any,
  if◌then◌else◌, or_default,
}
use makedown.Base.Map.{set}
use makedown.Types.{TargetBlock, Provenance}
use makedown.Providers.Errors.{CompletionRequest, CompletionResult}
use makedown.Engine.Cas.{Bytes, put, put_provenance, get_object}
use makedown.Engine.World.{
  World, Build, no_provider, pure, lift, gets, asks, modify, some_or, ◌>>=◌, ◌>>◌,
}
use makedown.Engine.Context.{Context, Provider, Outputs}
use makedown.Engine.Plan.{TargetPlan, non_empty}

-- The three fields that tell which model made an artifact.
pub record ModelRecord : Type 0 where
  pub model : Option Text
  pub requested_model : Option Text
  pub fell_back : Option Bool

abbrev pub first_of : Option Text → Option Text → Option Text
first_of none b = b
first_of (some a) b = some a

unfoldable pub reconcile_model : Option Text → Option Text → ModelRecord
reconcile_model (some r) (some a) =
    if a == r
    then record { model = some a; requested_model = none; fell_back = none }
    else record { model = some a; requested_model = some r; fell_back = some true }
reconcile_model requested actual = record {
  model = first_of actual requested;
  requested_model = none;
  fell_back = none;
}

abbrev pub differs : Option Text → Text → Bool
differs none m = true
differs (some r) m = not (m == r)

-- `models` is a set: the models that answered, each once.
unfoldable pub map_aggregate_model : Option Text → List Text → ModelRecord
map_aggregate_model requested [] = reconcile_model requested none
map_aggregate_model requested (only ∷ []) = reconcile_model requested (some only)
map_aggregate_model requested (a ∷ b ∷ rest) =
    let fell : Bool = any (differs requested) (a ∷ b ∷ rest) in
    record {
      model = requested;
      requested_model = none;
      fell_back = if fell then some true else none;
    }

abbrev pub request : TargetBlock → Option Text → Text → CompletionRequest
request t system prompt = record {
  model = or_default t.header.model [];
  system = system;
  prompt = prompt;
  params = t.header.params;
  fallback = t.header.fallback;
  route = t.header.route;
}

unfoldable pub complete : Provider → CompletionRequest → Build CompletionResult
complete provider req w = (provider w req, record w { completions = w.completions ++ req ∷ [] })

module _ (ctx : Context) where
  unfoldable pub need_provider : TargetBlock → Build Provider
  need_provider t = lift (some_or ctx.provider (no_provider t.name))

  unfoldable pub render_prompt : TargetBlock → Outputs → Option Text → Build Text
  render_prompt t outputs item = asks (λ w. ctx.render w outputs item t.body)

  abbrev pub render_some : Outputs → Option Text → Option Text → Build (Option Text)
  render_some outputs item none = pure none
  render_some outputs item (some s) = do
    rendered ← asks (λ w. ctx.render w outputs item s)
    pure (some rendered)

  unfoldable pub render_system : TargetBlock → Outputs → Option Text → Build (Option Text)
  render_system t outputs item = render_some outputs item (non_empty t.header.system)

  unfoldable pub write_output : Text → Bytes → Build (Unit {0})
  write_output output content = do
    path ← asks (λ w. ctx.confine w output)
    modify (λ w. record w { files = set w.files path content })

  unfoldable pub put_object : Text → Bytes → Build (Unit {0})
  put_object id content = modify (λ w. record w { cas = put w.cas id content })

  unfoldable pub record_provenance : (World → Provenance) → Build (Unit {0})
  record_provenance p = modify (λ w. record w { cas = put_provenance w.cas (p w) })

  -- The provenance is stamped with the time after the writes.
  unfoldable pub store_artifact :
      TargetBlock → TargetPlan → Bytes → (World → Provenance) → Build (Unit {0})
  store_artifact t tp content p = do
    put_object tp.id content
    write_output t.header.output content
    record_provenance p

  unfoldable pub model_provenance :
      TargetBlock → TargetPlan → Text → CompletionResult → ℕ → World → Provenance
  model_provenance t tp prompt result duration w =
      let m = reconcile_model t.header.model result.model in
      record {
        target = t.name;
        id = tp.id;
        output = t.header.output;
        step = t.header.step;
        model = m.model;
        requested_model = m.requested_model;
        fell_back = m.fell_back;
        params = t.header.params;
        inputs = tp.inputs;
        prompt_hash = ctx.sha256 (ctx.encode prompt);
        tokens = some result.usage;
        cost_usd = result.cost_usd;
        duration_ms = some duration;
        produced_at = ctx.now w;
        produced_by = none;
      }

  abbrev pub write_some : Text → Option Bytes → Build (Unit {0})
  write_some output none = pure tt
  write_some output (some content) = write_output output content

  -- A reused target: its artifact is written back to the output path.
  unfoldable pub materialize : TargetPlan → TargetBlock → Build (Unit {0})
  materialize tp t = do
    content ← gets (λ w. get_object w.cas tp.id)
    write_some t.header.output content
