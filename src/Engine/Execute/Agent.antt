-- ===== src/Engine/Execute/Agent.antt =====
-- packages/engine/src/build.ts and sandbox.ts: the `agent` step. A coding agent works in a sandbox,
-- which is torn down, as far as that works, whether it returns or throws, and what it made is gated behind an approval.
use makedown.Base.{
  ℕ, nat_eq, Text, text_eq, lit, trim, Bool, true, false, ◌==◌, ◌&&◌, Option, none, some, List, [],
  ◌∷◌, ◌++◌, if◌then◌else◌, or_default, Result, ok, err,
}
use makedown.Base.Map.{Map}
use makedown.Engine.Cas.{Bytes}
use makedown.Types.{
  agent, Sandbox, worktree, container, no_sandbox, Approval, not_required, required, TargetBlock,
  Provenance,
}
use makedown.Engine.World.{
  World, Build, BuildError, no_agent_runner, not_implemented, ApprovalRequest, AgentRunRequest,
  AgentRunResult, pure, throw, lift, gets, asks, modify, some_or, ◌>>=◌, ◌>>◌,
}
use makedown.Engine.Context.{Context, AgentRunner, Approver, Outputs}
use makedown.Engine.Plan.{TargetPlan}
use makedown.Engine.Artifact.{render_prompt, render_system, store_artifact}

pub record SandboxHandle : Type 0 where
  pub dir : Text
  pub is_worktree : Bool

-- What the sandboxed part of the step gives: the result, its milliseconds and the diff.
pub record AgentWork : Type 0 where
  pub result : AgentRunResult
  pub duration : ℕ
  pub diff : Option Text

abbrev pub without_first : List Text → Text → List Text
without_first [] d = []
without_first (x ∷ xs) d = let rest = without_first xs d in if x == d then xs else x ∷ rest

-- `try { m } finally { cleanup }`, for a cleanup that does not throw.
abbrev pub and_finally {ℓ} : {A : Type ℓ} → Build A → (World → World) → Build A
and_finally m cleanup w = let (r, w') = m w in (r, cleanup w')

-- The diff, unless it is missing or blank.
unfoldable pub artifact_text : Option Text → Text → Text
artifact_text none output = output
artifact_text (some diff) output = elim (trim diff) [ [] ↦ output | c ∷ s ↦ diff ]

-- `files` gives what the agent leaves of the workspace's files.
unfoldable pub run_agent :
    (World → AgentRunRequest → Map Text Bytes)
    → AgentRunner
    → AgentRunRequest
    → Build AgentRunResult
run_agent files runner req w =
    (runner w req, record w { agent_runs = w.agent_runs ++ req ∷ []; files = files w req })

unfoldable pub ask : Approver → ApprovalRequest → Build Bool
ask approve req w = (approve w req, record w { approvals = w.approvals ++ req ∷ [] })

-- Best effort: what could not be removed stays, and no error is thrown.
unfoldable pub cleanup : (World → Text → Bool) → SandboxHandle → World → World
cleanup torn_down s w =
    if s.is_worktree && torn_down w s.dir
    then record w { sandboxes = without_first w.sandboxes s.dir }
    else w

abbrev pub approval_request : TargetBlock → TargetPlan → Text → ApprovalRequest
approval_request t tp text = record {
  target = t.name;
  id = tp.id;
  output = t.header.output;
  preview = text;
  step = agent;
}

module _ (ctx : Context) where
  unfoldable pub provision_worktree : Build SandboxHandle
  provision_worktree = do
    dir ← asks ctx.add_worktree
    modify (λ w. record w { sandboxes = dir ∷ w.sandboxes })
    pure (record { dir = dir; is_worktree = true })

  unfoldable pub provision_sandbox : Sandbox → Build SandboxHandle
  provision_sandbox no_sandbox = pure (record { dir = ctx.workspace_dir; is_worktree = false })
  provision_sandbox worktree = provision_worktree
  provision_sandbox container = throw (not_implemented (lit "sandbox: container"))

  abbrev read_diff : SandboxHandle → World → Result BuildError (Option Text)
  read_diff s w = elim s.is_worktree [
    | false ↦ ok none
    | true ↦ elim (ctx.worktree_diff w s.dir) [ err e ↦ err e | ok d ↦ ok (some d) ]
  ]

  unfoldable pub work :
      AgentRunner → TargetBlock → Text → Option Text → SandboxHandle → Build AgentWork
  work runner t prompt system s = do
    result ← run_agent ctx.agent_files runner (record {
      agent_id = or_default t.header.agent_id [];
      model = t.header.model;
      system = system;
      prompt = prompt;
      params = t.header.params;
      workdir = s.dir;
    })
    duration ← gets ctx.duration
    diff ← asks (read_diff s)
    pure (record { result = result; duration = duration; diff = diff })

  unfoldable pub in_sandbox : AgentRunner → TargetBlock → Text → Option Text → Build AgentWork
  in_sandbox runner t prompt system = do
    s ← provision_sandbox t.header.sandbox
    and_finally (work runner t prompt system s) (cleanup ctx.torn_down s)

  abbrev pub ask_some : Option Approver → ApprovalRequest → Build Bool
  ask_some none req = pure false
  ask_some (some approve) req = ask approve req

  -- Without an approver, what needs approval is denied.
  unfoldable pub approved : Approval → ApprovalRequest → Build Bool
  approved not_required req = pure true
  approved required req = ask_some ctx.approve req

  unfoldable pub agent_provenance : TargetBlock → TargetPlan → Text → AgentWork → World → Provenance
  agent_provenance t tp prompt done w = record {
    target = t.name;
    id = tp.id;
    output = t.header.output;
    step = agent;
    model = t.header.model;
    requested_model = none;
    fell_back = none;
    params = t.header.params;
    inputs = tp.inputs;
    prompt_hash = ctx.sha256 (ctx.encode prompt);
    tokens = some done.result.usage;
    cost_usd = done.result.cost_usd;
    duration_ms = some done.duration;
    produced_at = ctx.now w;
    produced_by = done.result.produced_by;
  }

  -- The last part of the step: an artifact that was denied is not stored.
  unfoldable pub accept : TargetBlock → TargetPlan → Text → AgentWork → Build Bool
  accept t tp prompt done = do
    granted ←
        approved t.header.approval
          (approval_request t tp (artifact_text done.diff done.result.output))
    if granted
        then (do
          store_artifact ctx t tp (ctx.encode (artifact_text done.diff done.result.output))
              (agent_provenance t tp prompt done)
          pure true)
        else pure false

  unfoldable pub execute_agent_step : TargetBlock → TargetPlan → Outputs → Build Bool
  execute_agent_step t tp outputs = do
    runner ← lift (some_or ctx.agent_runner (no_agent_runner t.name))
    prompt ← render_prompt ctx t outputs none
    system ← render_system ctx t outputs none
    done ← in_sandbox runner t prompt system
    accept t tp prompt done
