-- ===== src/Engine/Context.antt =====
-- packages/engine/src/build.ts: `BuildContext`, and the collaborators that the build calls.
-- `confine` is `realResolveInWorkspace` (paths.ts), `render`, `read_ref` and `parse_list` are of
-- template.ts, `identity` is `computeIdentityHash` (hash.ts), `is_importable` and `input_hash` are the
-- import resolver's (imports.ts), `add_worktree` and `worktree_diff` run git (sandbox.ts), and
-- `run_script` is one of the three ways to run a transform script. Each reads the state at its call.
use makedown.Base.{ℕ, Text, Bool, Option, List, Result}
use makedown.Base.Map.{Map}
use makedown.Types.{Sandbox, ImportedSource, RecipeHeader}
use makedown.Providers.Errors.{CompletionRequest, CompletionResult}
use makedown.Engine.Cas.{Bytes}
use makedown.Engine.World.{World, BuildError, ApprovalRequest, AgentRunRequest, AgentRunResult}

abbrev pub Provider : Type 0
Provider = World → CompletionRequest → Result BuildError CompletionResult

abbrev pub AgentRunner : Type 0
AgentRunner = World → AgentRunRequest → Result BuildError AgentRunResult

abbrev pub Approver : Type 0
Approver = World → ApprovalRequest → Result BuildError Bool

-- What a transform script returned.
pub data Product : Type 0 where
  text_product : Text → Product
  bytes_product : Bytes → Product
  other_product : Product

-- `outputs` maps a target's name to the path of its artifact.
abbrev pub Outputs : Type 0
Outputs = Map Text Text

pub record Context : Type 0 where
  pub workspace_dir : Text
  pub provider : Option Provider
  pub agent_runner : Option AgentRunner
  pub approve : Option Approver
  pub max_map_fanout : Option ℕ
  pub now : World → Text
  -- the milliseconds since the step started
  pub duration : World → ℕ
  pub confine : World → Text → Result BuildError Text
  pub render : World → Outputs → Option Text → Text → Result BuildError Text
  pub read_ref : World → Outputs → Text → Result BuildError Text
  pub parse_list : Text → List Text
  pub identity : List Text → RecipeHeader → Text → List Text → Text
  pub is_importable : Text → Bool
  pub input_hash : Bytes → Text → Text × Option ImportedSource
  pub add_worktree : World → Result BuildError Text
  -- the workspace's files when the agent has run: without a sandbox it works among them
  pub agent_files : World → AgentRunRequest → Map Text Bytes
  -- whether `git worktree remove` and `rm` leave nothing of a sandbox, whose failures are swallowed
  pub torn_down : World → Text → Bool
  pub worktree_diff : World → Text → Result BuildError Text
  pub run_script : World → Sandbox → Text → Text → Map Text Text → Result BuildError Product
  pub sha256 : Bytes → Text
  -- `TextEncoder`, and the JSON of the platform
  pub encode : Text → Bytes
  pub is_json : Text → Bool
  pub stringify : List Text → Text
