-- ===== src/Engine/Run.antt =====
-- packages/engine/src/build.ts: the build. Targets are taken in the order of the plan; a stale one is
-- executed, any other is written back, and what depends on a denied one is skipped.
pub mod Rounds
pub mod Verdicts
pub mod Settling
pub mod Fresh
pub mod Kept
use makedown.Base.{
  ℕ, Text, text_eq, Bool, true, false, Option, none, some, List, [], ◌∷◌, ◌++◌, any, has,
  if◌then◌else◌,
}
use makedown.Base.Map.{Map, get, set}
use makedown.Types.{TargetBlock, BuildDoc}
use makedown.Graph.{GraphNode, deps_of}
use makedown.Engine.World.{
  World, Build, BuildError, BuildEvent, target_start, target_built, target_reused, target_denied,
  target_skipped, pure, gets, asks, modify, ◌>>=◌, ◌>>◌,
}
use makedown.Engine.Context.{Context, Outputs}
use makedown.Engine.Plan.{TargetPlan, BuildPlan, by_name, plan_build}
use makedown.Engine.Artifact.{materialize}
use makedown.Engine.Execute.{execute_target}

-- The three lists of names; `denied` is the set of the source.
pub record Progress : Type 0 where
  pub built : List Text
  pub reused : List Text
  pub denied : List Text

pub record BuildResult : Type 0 where
  pub plan : BuildPlan
  pub built : List Text
  pub reused : List Text
  pub rejected : List Text

abbrev pub no_progress : Progress
no_progress = record { built = []; reused = []; denied = [] }

-- `set.add(name)`
abbrev pub add : List Text → Text → List Text
add names name = if has names name then names else names ++ name ∷ []

-- `new Map(doc.targets.map((t) => [t.name, t.header.output]))`
abbrev pub output_paths : List TargetBlock → Outputs → Outputs
output_paths [] m = m
output_paths (t ∷ ts) m = output_paths ts (set m t.name t.header.output)

abbrev pub emit : BuildEvent → Build (Unit {0})
emit e = modify (λ w. record w { events = w.events ++ e ∷ [] })

abbrev pub finished : Text → Bool → Progress → Build Progress
finished name true p = do emit (target_built name); pure (record p { built = p.built ++ name ∷ [] })
finished name false p = do emit (target_denied name); pure (record p { denied = add p.denied name })

module _ (ctx : Context) (outputs : Outputs) where
  unfoldable pub skip : TargetPlan → Progress → Build Progress
  skip tp p = do emit (target_skipped tp.name); pure (record p { denied = add p.denied tp.name })

  unfoldable pub make : TargetBlock → TargetPlan → Progress → Build Progress
  make t tp p = do accepted ← execute_target ctx t tp outputs; finished tp.name accepted p

  unfoldable pub reuse : TargetBlock → TargetPlan → Progress → Build Progress
  reuse t tp p = do
    materialize ctx tp t
    emit (target_reused tp.name)
    pure (record p { reused = p.reused ++ tp.name ∷ [] })

  unfoldable pub start_target : TargetBlock → TargetPlan → Progress → Build Progress
  start_target t tp p = do
    emit (target_start tp.name tp.stale)
    if tp.stale then make t tp p else reuse t tp p

  -- One round of the loop, for a target of the document.
  unfoldable pub run_target : List Text → TargetBlock → TargetPlan → Progress → Build Progress
  run_target deps t tp p = if any (has p.denied) deps then skip tp p else start_target t tp p

  -- A name without a target is passed over.
  abbrev pub run_found : Option TargetBlock → List Text → TargetPlan → Progress → Build Progress
  run_found none deps tp p = pure p
  run_found (some t) deps tp p = run_target deps t tp p

  unfoldable pub run_targets :
      Map Text TargetBlock → Map Text GraphNode → List TargetPlan → Progress → Build Progress
  run_targets targets nodes [] p = pure p
  run_targets targets nodes (tp ∷ tps) p = do
    p' ← run_found (get targets tp.name) (deps_of nodes tp.name) tp p
    run_targets targets nodes tps p'

unfoldable pub run_build : Context → BuildDoc → Build BuildResult
run_build ctx doc = do
  plan ← asks (λ w. plan_build ctx w doc)
  p ←
      run_targets ctx (output_paths doc.targets []) (by_name doc.targets []) plan.graph.nodes
        plan.targets no_progress
  pure (record { plan = plan; built = p.built; reused = p.reused; rejected = p.denied })
