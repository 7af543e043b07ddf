-- ===== src/Engine/Stable/Loop.antt =====
-- The loop of the build keeps what each of its effects keeps.
use makedown.Base.{Text, text_eq, Bool, true, false, Option, none, some, List, [], ◌∷◌}
use makedown.Base.Map.{Map, get}
use makedown.Types.{
  StepType, chat, agent, transform, eval, map_step, CachePolicy, deterministic, stochastic, always,
  TargetBlock, BuildDoc,
}
use makedown.Graph.{GraphNode, deps_of}
use makedown.Engine.Cas.{Bytes}
use makedown.Engine.World.{World, BuildEvent}
use makedown.Engine.World.Keeps.{Keeps, Keeps-modify, Keeps-bind, keeps_rules}
use makedown.Engine.Context.{Context, Outputs}
use makedown.Engine.Plan.{TargetPlan}
use makedown.Engine.Artifact.{write_some, materialize}
use makedown.Engine.Execute.{execute_inference, execute_step, execute_target}
use makedown.Engine.Run.{
  Progress, emit, finished, skip, make, reuse, start_target, run_target, run_found, run_targets,
  run_build,
}
use makedown.Engine.Stable.{
  Stable, write_output-Stable, execute_model_step-Stable, execute_stochastic-Stable,
  execute_map-Stable, execute_agent_step-Stable, execute_transform-Stable,
}

module _ (ctx : Context) (P : World → Type 0) (st : Stable P ctx) where
  execute_inference-Stable :
      (c : CachePolicy) (t : TargetBlock) (tp : TargetPlan) (outputs : Outputs)
      → Keeps P (execute_inference ctx c t tp outputs)
  unfolding execute_inference
  execute_inference-Stable (stochastic n) t tp outputs =
      execute_stochastic-Stable ctx P st t tp outputs
  execute_inference-Stable deterministic t tp outputs =
      execute_model_step-Stable ctx P st t tp outputs
  execute_inference-Stable always t tp outputs = execute_model_step-Stable ctx P st t tp outputs

  execute_step-Stable :
      (s : StepType) (t : TargetBlock) (tp : TargetPlan) (outputs : Outputs)
      → Keeps P (execute_step ctx s t tp outputs)
  unfolding execute_step
  execute_step-Stable chat t tp outputs = search (keeps_rules, execute_inference-Stable)
  execute_step-Stable eval t tp outputs = search (keeps_rules, execute_inference-Stable)
  execute_step-Stable transform t tp outputs =
      search (keeps_rules, execute_transform-Stable ctx P st t tp outputs)
  execute_step-Stable map_step t tp outputs =
      search (keeps_rules, execute_map-Stable ctx P st t tp outputs)
  execute_step-Stable agent t tp outputs = execute_agent_step-Stable ctx P st t tp outputs

  pub execute_target-Stable :
      (t : TargetBlock) (tp : TargetPlan) (outputs : Outputs)
      → Keeps P (execute_target ctx t tp outputs)
  unfolding execute_target
  execute_target-Stable t tp outputs = execute_step-Stable t.header.step t tp outputs

  emit-Stable : (e : BuildEvent) → Keeps P (emit e)
  emit-Stable e = Keeps-modify _ λ w h. st.emits w _ h

  pub finished-Stable :
      (name : Text) (accepted : Bool) (p : Progress) → Keeps P (finished name accepted p)
  finished-Stable name true p = search (keeps_rules, emit-Stable)
  finished-Stable name false p = search (keeps_rules, emit-Stable)

  write_some-Stable :
      (output : Text) (content : Option Bytes) → Keeps P (write_some ctx output content)
  write_some-Stable output none = search keeps_rules
  write_some-Stable output (some content) = write_output-Stable ctx P st output content

  module _ (outputs : Outputs) where
    start_target-Stable :
        (t : TargetBlock) (tp : TargetPlan) (p : Progress)
        → Keeps P (start_target ctx outputs t tp p)
    unfolding start_target make reuse materialize
    start_target-Stable t tp p =
        search (keeps_rules, emit-Stable, finished-Stable, write_some-Stable, execute_target-Stable)
          depth 20

    run_target-Stable :
        (deps : List Text) (t : TargetBlock) (tp : TargetPlan) (p : Progress)
        → Keeps P (run_target ctx outputs deps t tp p)
    unfolding run_target skip
    run_target-Stable deps t tp p = search (keeps_rules, emit-Stable, start_target-Stable) depth 20

    run_found-Stable :
        (t : Option TargetBlock) (deps : List Text) (tp : TargetPlan) (p : Progress)
        → Keeps P (run_found ctx outputs t deps tp p)
    run_found-Stable none deps tp p = search keeps_rules
    run_found-Stable (some t) deps tp p = run_target-Stable deps t tp p

    pub run_targets-Stable :
        (targets : Map Text TargetBlock) (nodes : Map Text GraphNode) (tps : List TargetPlan)
        (p : Progress)
        → Keeps P (run_targets ctx outputs targets nodes tps p)
    unfolding run_targets
    run_targets-Stable targets nodes [] p = search keeps_rules
    run_targets-Stable targets nodes (tp ∷ tps) p =
        Keeps-bind _ _ (run_found-Stable (get targets tp.name) (deps_of nodes tp.name) tp p)
          (run_targets-Stable targets nodes tps)

  pub run_build-Stable : (doc : BuildDoc) → Keeps P (run_build ctx doc)
  unfolding run_build
  run_build-Stable doc = search (keeps_rules, run_targets-Stable) depth 20
