-- ===== src/Engine/Execute/Model.antt =====
-- packages/engine/src/build.ts: one completion (`chat`, `eval`), and k samples of one
-- (`stochastic(n=k)`), of which the blessed one is the artifact.
use makedown.Base.{
  ℕ, zero, suc, ◌-◌, Text, Bool, false, Option, none, some, is_some, if◌then◌else◌, Result, ok, err,
}
use makedown.Types.{eval, CachePolicy, stochastic, TargetBlock, Provenance}
use makedown.Engine.Cas.{
  Bytes, count_samples, put_sample, get_sample, get_sample_provenance, get_blessed,
}
use makedown.Engine.World.{Build, BuildError, not_json, pure, lift, gets, modify, ◌>>=◌, ◌>>◌}
use makedown.Engine.Context.{Context, Provider, Outputs}
use makedown.Engine.Plan.{TargetPlan}
use makedown.Engine.Artifact.{
  request, complete, need_provider, render_prompt, render_system, put_object, write_output,
  record_provenance, store_artifact, model_provenance,
}

abbrev pub wants_json : TargetBlock → Bool
wants_json t = elim t.header.step [ eval ↦ is_some t.header.schema | _ ↦ false ]

-- How many samples a target wants.
abbrev pub sample_count : CachePolicy → ℕ
sample_count (stochastic n) = n
sample_count _ = 1

module _ (ctx : Context) where
  unfoldable pub assert_json : Text → Text → Result BuildError (Unit {0})
  assert_json text name = if ctx.is_json text then ok tt else err (not_json name)

  unfoldable pub execute_model_step : TargetBlock → TargetPlan → Outputs → Build (Unit {0})
  execute_model_step t tp outputs = do
    provider ← need_provider ctx t
    prompt ← render_prompt ctx t outputs none
    system ← render_system ctx t outputs none
    result ← complete provider (request t system prompt)
    duration ← gets ctx.duration
    lift (if wants_json t then assert_json result.text t.name else ok tt)
    store_artifact ctx t tp (ctx.encode result.text)
        (model_provenance ctx t tp prompt result duration)

  -- One round of the sampling loop.
  unfoldable pub take_sample :
      Provider → TargetBlock → TargetPlan → Text → Option Text → ℕ → Build (Unit {0})
  take_sample provider t tp prompt system index = do
    result ← complete provider (request t system prompt)
    duration ← gets ctx.duration
    modify λ w. record w {
      cas = put_sample w.cas (record {
        id = tp.id;
        index = index;
        content = ctx.encode result.text;
        provenance = model_provenance ctx t tp prompt result duration w;
      });
    }

  -- `left` rounds, from `index` on.
  unfoldable pub top_up :
      Provider → TargetBlock → TargetPlan → Text → Option Text → ℕ → ℕ → Build (Unit {0})
  top_up provider t tp prompt system zero index = pure tt
  top_up provider t tp prompt system (suc left) index = do
    take_sample provider t tp prompt system index
    top_up provider t tp prompt system left (suc index)

  abbrev pub record_some : Option Provenance → Build (Unit {0})
  record_some none = pure tt
  record_some (some p) = record_provenance ctx (λ w. p)

  abbrev pub promote : TargetBlock → TargetPlan → ℕ → Option Bytes → Build (Unit {0})
  promote t tp blessed none = pure tt
  promote t tp blessed (some content) = do
    put_object ctx tp.id content
    write_output ctx t.header.output content
    p ← gets λ w. elim (get_sample_provenance w.cas tp.id blessed) [
      | some p ↦ some p
      | none ↦ get_sample_provenance w.cas tp.id 0
    ]
    record_some p

  unfoldable pub materialize_blessed : TargetBlock → TargetPlan → Build (Unit {0})
  materialize_blessed t tp = do
    blessed ← gets (λ w. get_blessed w.cas tp.id)
    content ← gets λ w. elim (get_sample w.cas tp.id blessed) [
      | some content ↦ some content
      | none ↦ get_sample w.cas tp.id 0
    ]
    promote t tp blessed content

  unfoldable pub execute_stochastic_model_step :
      TargetBlock → TargetPlan → Outputs → Build (Unit {0})
  execute_stochastic_model_step t tp outputs = do
    provider ← need_provider ctx t
    existing ← gets (λ w. count_samples w.cas tp.id)
    prompt ← render_prompt ctx t outputs none
    system ← render_system ctx t outputs none
    top_up provider t tp prompt system (sample_count t.header.cache - existing) existing
    materialize_blessed t tp
