-- ===== src/Engine/Tests.antt =====
-- Builds of a small document: an agent target that requires approval, and a chat target over it.
use makedown.Base.{
  ◌≤◌, ◌+◌, text_eq, list_eqb, index_of, trim, trim_end, trim_start, lit, true, false, none, some,
  [], ◌∷◌, All, has, length, ◌≡◌, refl,
}
use makedown.Base.Map.{get, set}
use makedown.Types.{chat, agent, map_step, deterministic, target, TargetBlock, BuildDoc}
use makedown.Refs.{bare_ref}
use makedown.Graph.{visit, topo_sort, graph_node, graph_nodes, build_graph}
use makedown.Engine.Cas.{hex, has_object, get_object, put, put_provenance}
use makedown.Engine.Sample.{header, context, world}
use makedown.Engine.World.{World, pure, lift, gets, asks, modify, ◌>>=◌}
use makedown.Engine.Plan.{
  TargetPlan, BuildPlan, by_name, is_stale, resolve_input, resolve_inputs, aux_hashes_for,
  plan_target, plan_targets, plan_build,
}
use makedown.Engine.Plan.Ordering.{Planned, plan_build-Planned}
use makedown.Engine.Artifact.{
  reconcile_model, complete, need_provider, render_prompt, render_system, write_output, put_object,
  record_provenance, store_artifact, model_provenance, materialize,
}
use makedown.Engine.Execute.{execute_inference, execute_step, execute_target}
use makedown.Engine.Execute.Model.{execute_model_step}
use makedown.Engine.Execute.Fanout.{execute_map}
use makedown.Engine.Execute.Cap.{execute_map-cap}
use makedown.Engine.Execute.Agent.{
  artifact_text, run_agent, ask, cleanup, provision_worktree, provision_sandbox, work, in_sandbox,
  approved, accept, execute_agent_step,
}
use makedown.Engine.Approval.{Granted, Denied, Untouched}
use makedown.Engine.Approval.Gate.{execute_target-Denied, execute_agent_step-Granted}
use makedown.Engine.Objects.{is_stale-execute_target}
use makedown.Engine.Run.{
  BuildResult, skip, make, reuse, start_target, run_target, run_targets, run_build,
}
use makedown.Engine.Run.Fresh.{Idle}
use makedown.Engine.Outcome.{IsSettled, run_build-Settled, run_build-Idle, is_stale-run_build}
use makedown.Engine.Sandboxes.{LeftOver, run_build-sandboxes}

abbrev patch_target : TargetBlock
patch_target = record { name = lit "p"; header = header agent []; body = lit "x" }

abbrev notes_target : TargetBlock
notes_target = record { name = lit "n"; header = header chat (lit "p" ∷ []); body = lit "y" }

abbrev list_target : TargetBlock
list_target = record { name = lit "q"; header = header map_step []; body = lit "z" }

abbrev doc : BuildDoc
doc = record {
  front_matter = record {
    version = none;
    defaults = none;
    artifacts_dir = lit "a";
    sources_dir = lit "s";
  };
  targets = notes_target ∷ patch_target ∷ [];
}

abbrev plan_of : TargetBlock → TargetPlan
plan_of t = record { name = t.name; id = t.body; stale = true; inputs = [] }

run_build-sandboxes_example : LeftOver (context true) [] (run_build (context true) doc world).1
run_build-sandboxes_example = run_build-sandboxes (context true) doc world

execute_map-cap_example :
    length (execute_map (context true) list_target (plan_of list_target) [] world).1.completions
    ≤ 0 + 2
execute_map-cap_example = execute_map-cap (context true) list_target (plan_of list_target) [] world

execute_target-Denied_example :
    (agent ≡ agent)
    × Denied (context false) patch_target (plan_of patch_target)
    × Untouched
        (context false)
        world.cas
        world.files
        (execute_target (context false) patch_target (plan_of patch_target) [] world).1
unfolding accept execute_target execute_step execute_agent_step render_prompt render_system
    in_sandbox provision_sandbox provision_worktree work run_agent cleanup approved ask
    artifact_text trim trim_end trim_start pure lift asks gets modify ◌>>=◌
execute_target-Denied_example =
    execute_target-Denied (context false) patch_target (plan_of patch_target) [] world
      (execute_target (context false) patch_target (plan_of patch_target) [] world).1 refl

-- The state after the agent step whose artifact was granted.
abbrev granted_patch : World
granted_patch = (execute_agent_step (context true) patch_target (plan_of patch_target) [] world).1

execute_agent_step-Granted_example :
    Granted (context true) patch_target (plan_of patch_target) granted_patch
unfolding accept execute_target execute_step execute_agent_step render_prompt render_system
    in_sandbox provision_sandbox provision_worktree work run_agent cleanup approved ask
    artifact_text trim trim_end trim_start pure lift asks gets modify ◌>>=◌ store_artifact
    put_object write_output record_provenance put put_provenance hex set get list_eqb
execute_agent_step-Granted_example =
    execute_agent_step-Granted (context true) patch_target (plan_of patch_target) [] world
      granted_patch refl refl

is_stale-execute_target_example :
    is_stale patch_target
      (lit "x")
      (execute_target (context true) patch_target (plan_of patch_target) [] world).1.cas
    ≡ false
unfolding accept execute_target execute_step execute_agent_step render_prompt render_system
    in_sandbox provision_sandbox provision_worktree work run_agent cleanup approved ask
    artifact_text trim trim_end trim_start pure lift asks gets modify ◌>>=◌ store_artifact
    put_object write_output record_provenance put put_provenance hex set get list_eqb
is_stale-execute_target_example =
    is_stale-execute_target (context true) patch_target (plan_of patch_target) [] world
      (execute_target (context true) patch_target (plan_of patch_target) [] world).1 refl refl

abbrev plan : BuildPlan
plan = record {
  graph = record {
    nodes =
        (lit "n", record { target = notes_target; deps = lit "p" ∷ []; sources = [] })
        ∷ (lit "p", record { target = patch_target; deps = []; sources = [] })
        ∷ [];
    order = lit "p" ∷ lit "n" ∷ [];
  };
  targets =
      plan_of patch_target
      ∷ record {
        name = lit "n";
        id = lit "y";
        stale = true;
        inputs = record { ref = lit "p"; kind = target; hash = lit "x"; imported = none } ∷ [];
      }
      ∷ [];
  ids = (lit "p", lit "x") ∷ (lit "n", lit "y") ∷ [];
}

plan_build-Planned_example :
    Planned plan.graph.nodes (by_name doc.targets []) world plan.graph.order plan.targets
unfolding accept execute_target execute_step execute_agent_step render_prompt render_system
    in_sandbox provision_sandbox provision_worktree work run_agent cleanup approved ask
    artifact_text trim trim_end trim_start pure lift asks gets modify ◌>>=◌ store_artifact
    put_object write_output record_provenance put put_provenance hex set get list_eqb run_build
    plan_build build_graph graph_nodes graph_node topo_sort visit bare_ref index_of by_name
    plan_targets plan_target resolve_inputs resolve_input aux_hashes_for is_stale has_object
    run_targets run_target start_target make skip reuse materialize get_object execute_inference
    execute_model_step need_provider complete model_provenance reconcile_model
plan_build-Planned_example = plan_build-Planned (context true) world doc plan refl

abbrev rejected_result : BuildResult
rejected_result = record { plan = plan; built = []; reused = []; rejected = lit "p" ∷ lit "n" ∷ [] }

run_build-Settled_example :
    All (IsSettled (context false) doc rejected_result) rejected_result.plan.targets
unfolding accept execute_target execute_step execute_agent_step render_prompt render_system
    in_sandbox provision_sandbox provision_worktree work run_agent cleanup approved ask
    artifact_text trim trim_end trim_start pure lift asks gets modify ◌>>=◌ store_artifact
    put_object write_output record_provenance put put_provenance hex set get list_eqb run_build
    plan_build build_graph graph_nodes graph_node topo_sort visit bare_ref index_of by_name
    plan_targets plan_target resolve_inputs resolve_input aux_hashes_for is_stale has_object
    run_targets run_target start_target make skip reuse materialize get_object execute_inference
    execute_model_step need_provider complete model_provenance reconcile_model
run_build-Settled_example =
    run_build-Settled (context false) doc world (run_build (context false) doc world).1
      rejected_result refl

abbrev built_result : BuildResult
built_result = record { plan = plan; built = lit "p" ∷ lit "n" ∷ []; reused = []; rejected = [] }

is_stale-run_build_example :
    All
      (λ tp.
        (t : TargetBlock)
        → get (by_name doc.targets []) tp.name ≡ some t
        → t.header.cache ≡ deterministic
        → has built_result.rejected tp.name ≡ false
        → is_stale t tp.id (run_build (context true) doc world).1.cas ≡ false)
      built_result.plan.targets
unfolding accept execute_target execute_step execute_agent_step render_prompt render_system
    in_sandbox provision_sandbox provision_worktree work run_agent cleanup approved ask
    artifact_text trim trim_end trim_start pure lift asks gets modify ◌>>=◌ store_artifact
    put_object write_output record_provenance put put_provenance hex set get list_eqb run_build
    plan_build build_graph graph_nodes graph_node topo_sort visit bare_ref index_of by_name
    plan_targets plan_target resolve_inputs resolve_input aux_hashes_for is_stale has_object
    run_targets run_target start_target make skip reuse materialize get_object execute_inference
    execute_model_step need_provider complete model_provenance reconcile_model
is_stale-run_build_example =
    is_stale-run_build (context true) doc world (run_build (context true) doc world).1 built_result
      refl

abbrev full_world : World
full_world = record world {
  cas = record {
    objects = (lit "x", lit "1") ∷ (lit "y", lit "2") ∷ [];
    provenance = [];
    samples = [];
  };
}

abbrev fresh_plan : BuildPlan
fresh_plan = record plan {
  targets =
      record { name = lit "p"; id = lit "x"; stale = false; inputs = [] }
      ∷ record {
        name = lit "n";
        id = lit "y";
        stale = false;
        inputs = record { ref = lit "p"; kind = target; hash = lit "x"; imported = none } ∷ [];
      }
      ∷ [];
}

run_build-Idle_example : Idle full_world (run_build (context true) doc full_world).1
unfolding accept execute_target execute_step execute_agent_step render_prompt render_system
    in_sandbox provision_sandbox provision_worktree work run_agent cleanup approved ask
    artifact_text trim trim_end trim_start pure lift asks gets modify ◌>>=◌ store_artifact
    put_object write_output record_provenance put put_provenance hex set get list_eqb run_build
    plan_build build_graph graph_nodes graph_node topo_sort visit bare_ref index_of by_name
    plan_targets plan_target resolve_inputs resolve_input aux_hashes_for is_stale has_object
    run_targets run_target start_target make skip reuse materialize get_object execute_inference
    execute_model_step need_provider complete model_provenance reconcile_model
run_build-Idle_example =
    run_build-Idle (context true) doc full_world fresh_plan refl (refl, (refl, tt))
