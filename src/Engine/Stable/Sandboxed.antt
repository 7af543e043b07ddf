-- ===== src/Engine/Stable/Sandboxed.antt =====
-- packages/engine/src/build.ts, executeAgentStep: the part of the step that runs in the sandbox.
use makedown.Base.{◌&&◌, Text, Bool-cases, inl, inr, Option, List}
use makedown.Types.{Sandbox, worktree, container, no_sandbox, TargetBlock}
use makedown.Engine.World.{World, AgentRunRequest}
use makedown.Engine.World.Keeps.{Keeps, Keeps-modify, keeps_rules}
use makedown.Engine.Context.{Context, AgentRunner}
use makedown.Engine.Execute.Agent.{
  SandboxHandle, and_finally, run_agent, cleanup, provision_worktree, provision_sandbox, work,
  in_sandbox,
}

-- What the calls on the agent and the sandboxes do not break is kept by the sandboxed part of a step.
module _ (ctx : Context) (P : World → Type 0)
    (runs : (w : World) (reqs : List AgentRunRequest) (req : AgentRunRequest)
      → P w
      → P (record w { agent_runs = reqs; files = ctx.agent_files w req }))
    (boxes : (w : World) (dirs : List Text) → P w → P (record w { sandboxes = dirs })) where
  run_agent-Keeps :
      (runner : AgentRunner) (req : AgentRunRequest)
      → Keeps P (run_agent ctx.agent_files runner req)
  unfolding run_agent
  run_agent-Keeps runner req = record { at = λ w h. runs w _ req h }

  work-Keeps :
      (runner : AgentRunner) (t : TargetBlock) (prompt : Text) (system : Option Text)
      (s : SandboxHandle)
      → Keeps P (work ctx runner t prompt system s)
  unfolding work
  work-Keeps runner t prompt system s = search (keeps_rules, run_agent-Keeps) depth 20

  cleanup-keeps : (s : SandboxHandle) (w : World) → P w → P (cleanup ctx.torn_down s w)
  unfolding cleanup
  cleanup-keeps s w h = elim (Bool-cases (s.is_worktree && ctx.torn_down w s.dir)) [
    | inl yes_worktree ↦ rw yes_worktree (boxes w _ h)
    | inr not_worktree ↦ rw not_worktree h
  ]

  provision_sandbox-Keeps : (s : Sandbox) → Keeps P (provision_sandbox ctx s)
  unfolding provision_sandbox provision_worktree
  provision_sandbox-Keeps no_sandbox = search keeps_rules
  provision_sandbox-Keeps container = search keeps_rules
  provision_sandbox-Keeps worktree = search (keeps_rules, Keeps-modify, boxes) depth 20

  and_finally-Keeps :
      (runner : AgentRunner) (t : TargetBlock) (prompt : Text) (system : Option Text)
      (s : SandboxHandle)
      → Keeps P (and_finally (work ctx runner t prompt system s) (cleanup ctx.torn_down s))
  and_finally-Keeps runner t prompt system s = record {
    at = λ w h. cleanup-keeps s _ ((work-Keeps runner t prompt system s).at w h);
  }

  pub in_sandbox-Keeps :
      (runner : AgentRunner) (t : TargetBlock) (prompt : Text) (system : Option Text)
      → Keeps P (in_sandbox ctx runner t prompt system)
  unfolding in_sandbox
  in_sandbox-Keeps runner t prompt system =
      search (keeps_rules, provision_sandbox-Keeps, and_finally-Keeps)
