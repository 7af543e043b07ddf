-- ===== src/Engine/Run/Fresh.antt =====
-- packages/engine/src/build.ts, runBuild: a second build. Nothing is executed where nothing is stale,
-- and what a build has made is not stale after it.
use makedown.Base.{
  Text, text_eq, Bool, true, false, Option, none, some, List, [], ◌∷◌, All, any, has, ◌≡◌,
  if◌then◌else◌,
}
use makedown.Base.Map.{Map, get}
use makedown.Types.{TargetBlock}
use makedown.Graph.{GraphNode, deps_of}
use makedown.Engine.Cas.{Bytes}
use makedown.Engine.World.{World, BuildEvent, target_start}
use makedown.Engine.World.Keeps.{Keeps, Keeps-modify, Keeps-bind, Keeps-if, keeps_rules}
use makedown.Engine.Context.{Context, Outputs}
use makedown.Engine.Plan.{TargetPlan}
use makedown.Engine.Artifact.{write_output, write_some, materialize}
use makedown.Engine.Run.{
  Progress, emit, skip, reuse, make, start_target, run_target, run_found, run_targets,
}

-- No collaborator has been called, and the store is as it was.
pub record Idle (w w' : World) : Type 0 where
  pub cas : w'.cas ≡ w.cas
  pub completions : w'.completions ≡ w.completions
  pub agent_runs : w'.agent_runs ≡ w.agent_runs
  pub approvals : w'.approvals ≡ w.approvals

Idle-files : (w v : World) (files : Map Text Bytes) → Idle w v → Idle w (record v { files = files })
Idle-files w v files h = record {
  cas = h.cas;
  completions = h.completions;
  agent_runs = h.agent_runs;
  approvals = h.approvals;
}

Idle-events : (w v : World) (es : List BuildEvent) → Idle w v → Idle w (record v { events = es })
Idle-events w v es h = record {
  cas = h.cas;
  completions = h.completions;
  agent_runs = h.agent_runs;
  approvals = h.approvals;
}

module _ (ctx : Context) (outputs : Outputs) (w : World) where
  emit-Idle : (e : BuildEvent) → Keeps (Idle w) (emit e)
  emit-Idle e = Keeps-modify _ λ v h. Idle-events w v _ h

  write_some-Idle :
      (output : Text) (content : Option Bytes) → Keeps (Idle w) (write_some ctx output content)
  unfolding write_output
  write_some-Idle output none = search keeps_rules
  write_some-Idle output (some content) = search (keeps_rules, Keeps-modify, Idle-files)

  make_or_reuse-Idle :
      (stale : Bool) (t : TargetBlock) (tp : TargetPlan) (p : Progress)
      → stale ≡ false
      → Keeps (Idle w) (if stale then make ctx outputs t tp p else reuse ctx outputs t tp p)
  unfolding reuse materialize
  make_or_reuse-Idle true t tp p fresh = cc
  make_or_reuse-Idle false t tp p fresh = search (keeps_rules, emit-Idle, write_some-Idle) depth 20

  run_found-Idle :
      (found : Option TargetBlock) (deps : List Text) (tp : TargetPlan) (p : Progress)
      → tp.stale ≡ false
      → Keeps (Idle w) (run_found ctx outputs found deps tp p)
  unfolding run_target start_target skip
  run_found-Idle none deps tp p fresh = search keeps_rules
  run_found-Idle (some t) deps tp p fresh =
      Keeps-if (any (has p.denied) deps) (skip ctx outputs tp p) _ (search (keeps_rules, emit-Idle))
        (Keeps-bind _ _ (emit-Idle (target_start tp.name tp.stale))
          (λ u. make_or_reuse-Idle tp.stale t tp p fresh))

  pub run_targets-Idle :
      (targets : Map Text TargetBlock) (nodes : Map Text GraphNode) (tps : List TargetPlan)
      (p : Progress)
      → All (λ tp. tp.stale ≡ false) tps
      → Keeps (Idle w) (run_targets ctx outputs targets nodes tps p)
  unfolding run_targets
  run_targets-Idle targets nodes [] p fresh = search keeps_rules
  run_targets-Idle targets nodes (tp ∷ tps) p (fresh, rest) =
      Keeps-bind _ _ (run_found-Idle (get targets tp.name) (deps_of nodes tp.name) tp p fresh)
        (λ p'. run_targets-Idle targets nodes tps p' rest)
