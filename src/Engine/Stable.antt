-- ===== src/Engine/Stable.antt =====
-- An invariant that no single effect of a build breaks is kept by every step, and by the whole build.
pub mod Loop
pub mod Sandboxed
use makedown.Base.{
  ℕ, zero, suc, Text, Bool, true, false, Option, none, some, List, [], ◌∷◌, Result, ok, err, ◌≡◌,
  if◌then◌else◌, any, has,
}
use makedown.Base.Map.{Map, get}
use makedown.Types.{
  StepType, chat, agent, transform, eval, map_step, CachePolicy, deterministic, stochastic, always,
  Approval, not_required, required, TargetBlock, BuildDoc, Provenance,
}
use makedown.Graph.{GraphNode, deps_of}
use makedown.Providers.Errors.{CompletionRequest, CompletionResult}
use makedown.Engine.Cas.{Bytes, LocalCas, has_object, put, put_provenance, put_sample, SampleInput}
use makedown.Engine.Cas.Laws.{has_object-put}
use makedown.Engine.World.{
  World, Build, BuildEvent, modify, AgentRunRequest, ApprovalRequest, ◌>>=◌, ◌>>◌,
}
use makedown.Engine.World.Keeps.{Keeps, Keeps-modify, Keeps-bind, keeps_rules}
use makedown.Engine.Context.{Context, Provider, AgentRunner, Approver, Outputs}
use makedown.Engine.Plan.{TargetPlan}
use makedown.Engine.Artifact.{
  complete, need_provider, render_prompt, render_some, render_system, put_object, write_output,
  record_provenance, store_artifact, write_some, materialize,
}
use makedown.Engine.Execute.{execute_inference, execute_step, execute_target}
use makedown.Engine.Execute.Model.{
  execute_model_step, take_sample, top_up, record_some, promote, materialize_blessed,
  execute_stochastic_model_step,
}
use makedown.Engine.Execute.Fanout.{Totals, add_result, map_item, map_items, execute_map}
use makedown.Engine.Execute.Agent.{
  AgentWork, ask, ask_some, in_sandbox, approved, accept, execute_agent_step,
}
use makedown.Engine.Execute.Script.{
  resolve_transform_script, resolve_input_contents, execute_transform,
}
use makedown.Engine.Run.{
  Progress, emit, finished, skip, make, reuse, start_target, run_target, run_targets, run_build,
}

-- No object of the first store is missing in the second.
abbrev pub Grows : LocalCas → LocalCas → Type 0
Grows cas cas' = (j : Text) → has_object cas j ≡ true → has_object cas' j ≡ true

pub record Stable (P : World → Type 0) (ctx : Context) : Type 0 where
  pub stores : (w : World) (cas : LocalCas) → Grows w.cas cas → P w → P (record w { cas = cas })
  pub writes : (w : World) (files : Map Text Bytes) → P w → P (record w { files = files })
  pub completes :
      (w : World) (reqs : List CompletionRequest) → P w → P (record w { completions = reqs })
  pub approves : (w : World) (reqs : List ApprovalRequest) → P w → P (record w { approvals = reqs })
  pub emits : (w : World) (es : List BuildEvent) → P w → P (record w { events = es })
  pub sandboxed :
      (runner : AgentRunner) (t : TargetBlock) (prompt : Text) (system : Option Text)
      → Keeps P (in_sandbox ctx runner t prompt system)

module _ (ctx : Context) (P : World → Type 0) (st : Stable P ctx) where
  complete-Stable :
      (provider : Provider) (req : CompletionRequest) → Keeps P (complete provider req)
  unfolding complete
  complete-Stable provider req = record { at = λ w h. st.completes w _ h }

  pub put_object-Stable : (id : Text) (content : Bytes) → Keeps P (put_object ctx id content)
  unfolding put_object
  put_object-Stable id content =
      Keeps-modify _ λ w h. st.stores w _ (has_object-put w.cas id content) h

  pub record_provenance-Stable : (p : World → Provenance) → Keeps P (record_provenance ctx p)
  unfolding record_provenance has_object put_provenance
  record_provenance-Stable p = Keeps-modify _ λ w h. st.stores w _ (λ j g. g) h

  pub write_output-Stable :
      (output : Text) (content : Bytes) → Keeps P (write_output ctx output content)
  unfolding write_output
  write_output-Stable output content = search (keeps_rules, Keeps-modify, st.writes)

  in_sandbox-Stable :
      (runner : AgentRunner) (t : TargetBlock) (prompt : Text) (system : Option Text)
      → Keeps P (in_sandbox ctx runner t prompt system)
  in_sandbox-Stable = st.sandboxed

  ruleset base_rules = (
    keeps_rules, complete-Stable, put_object-Stable, record_provenance-Stable, write_output-Stable,
    in_sandbox-Stable,
  )

  need_provider-Stable : (t : TargetBlock) → Keeps P (need_provider ctx t)
  unfolding need_provider
  need_provider-Stable t = search keeps_rules

  render_prompt-Stable :
      (t : TargetBlock) (outputs : Outputs) (item : Option Text)
      → Keeps P (render_prompt ctx t outputs item)
  unfolding render_prompt
  render_prompt-Stable t outputs item = search keeps_rules

  render_some-Stable :
      (outputs : Outputs) (item s : Option Text) → Keeps P (render_some ctx outputs item s)
  render_some-Stable outputs item none = search keeps_rules
  render_some-Stable outputs item (some s) = search keeps_rules

  render_system-Stable :
      (t : TargetBlock) (outputs : Outputs) (item : Option Text)
      → Keeps P (render_system ctx t outputs item)
  unfolding render_system
  render_system-Stable t outputs item = render_some-Stable outputs item _

  pub store_artifact-Stable :
      (t : TargetBlock) (tp : TargetPlan) (content : Bytes) (p : World → Provenance)
      → Keeps P (store_artifact ctx t tp content p)
  unfolding store_artifact
  store_artifact-Stable t tp content p = search base_rules

  ruleset step_rules = (
    base_rules, need_provider-Stable, render_prompt-Stable, render_system-Stable,
    store_artifact-Stable,
  )

  pub execute_model_step-Stable :
      (t : TargetBlock) (tp : TargetPlan) (outputs : Outputs)
      → Keeps P (execute_model_step ctx t tp outputs)
  unfolding execute_model_step
  execute_model_step-Stable t tp outputs = search (step_rules) depth 30

  put_sample-Stable :
      (s : World → SampleInput) → Keeps P (modify (λ w. record w { cas = put_sample w.cas (s w) }))
  unfolding has_object put_sample
  put_sample-Stable s = Keeps-modify _ λ w h. st.stores w _ (λ j g. g) h

  take_sample-Stable :
      (provider : Provider) (t : TargetBlock) (tp : TargetPlan) (prompt : Text)
      (system : Option Text) (index : ℕ)
      → Keeps P (take_sample ctx provider t tp prompt system index)
  unfolding take_sample
  take_sample-Stable provider t tp prompt system index =
      search (base_rules, put_sample-Stable) depth 30

  top_up-Stable :
      (provider : Provider) (t : TargetBlock) (tp : TargetPlan) (prompt : Text)
      (system : Option Text) (left index : ℕ)
      → Keeps P (top_up ctx provider t tp prompt system left index)
  unfolding top_up
  top_up-Stable provider t tp prompt system zero index = search keeps_rules
  top_up-Stable provider t tp prompt system (suc left) index =
      Keeps-bind _ _ (take_sample-Stable provider t tp prompt system index)
        (λ _. top_up-Stable provider t tp prompt system left (suc index))

  pub record_some-Stable : (p : Option Provenance) → Keeps P (record_some ctx p)
  record_some-Stable none = search base_rules
  record_some-Stable (some p) = search base_rules

  promote-Stable :
      (t : TargetBlock) (tp : TargetPlan) (blessed : ℕ) (content : Option Bytes)
      → Keeps P (promote ctx t tp blessed content)
  promote-Stable t tp blessed none = search base_rules
  promote-Stable t tp blessed (some content) = search (base_rules, record_some-Stable)

  pub execute_stochastic-Stable :
      (t : TargetBlock) (tp : TargetPlan) (outputs : Outputs)
      → Keeps P (execute_stochastic_model_step ctx t tp outputs)
  unfolding execute_stochastic_model_step materialize_blessed
  execute_stochastic-Stable t tp outputs =
      search (step_rules, top_up-Stable, promote-Stable) depth 30

  map_items-Stable :
      (provider : Provider) (t : TargetBlock) (outputs : Outputs) (items : List Text) (acc : Totals)
      → Keeps P (map_items ctx provider t outputs items acc)
  unfolding map_items map_item
  map_items-Stable provider t outputs [] acc = search keeps_rules
  map_items-Stable provider t outputs (item ∷ items) acc =
      search (step_rules, map_items-Stable provider t outputs items)

  pub execute_map-Stable :
      (t : TargetBlock) (tp : TargetPlan) (outputs : Outputs)
      → Keeps P (execute_map ctx t tp outputs)
  unfolding execute_map
  execute_map-Stable t tp outputs = search (step_rules, map_items-Stable) depth 30

  ask_some-Stable : (a : Option Approver) (req : ApprovalRequest) → Keeps P (ask_some ctx a req)
  unfolding ask
  ask_some-Stable none req = search keeps_rules
  ask_some-Stable (some a) req = record { at = λ w h. st.approves w _ h }

  approved-Stable : (a : Approval) (req : ApprovalRequest) → Keeps P (approved ctx a req)
  unfolding approved
  approved-Stable not_required req = search keeps_rules
  approved-Stable required req = ask_some-Stable ctx.approve req

  pub execute_agent_step-Stable :
      (t : TargetBlock) (tp : TargetPlan) (outputs : Outputs)
      → Keeps P (execute_agent_step ctx t tp outputs)
  unfolding execute_agent_step accept
  execute_agent_step-Stable t tp outputs = search (step_rules, approved-Stable) depth 30

  resolve_input_contents-Stable :
      (outputs : Outputs) (inputs : List Text) (out : Map Text Text)
      → Keeps P (resolve_input_contents ctx outputs inputs out)
  unfolding resolve_input_contents
  resolve_input_contents-Stable outputs [] out = search keeps_rules
  resolve_input_contents-Stable outputs (input ∷ inputs) out =
      search (keeps_rules, resolve_input_contents-Stable outputs inputs)

  pub execute_transform-Stable :
      (t : TargetBlock) (tp : TargetPlan) (outputs : Outputs)
      → Keeps P (execute_transform ctx t tp outputs)
  unfolding execute_transform resolve_transform_script
  execute_transform-Stable t tp outputs =
      search (step_rules, resolve_input_contents-Stable) depth 30
