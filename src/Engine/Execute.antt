-- ===== src/Engine/Execute.antt =====
-- packages/engine/src/build.ts: a stale target is dispatched on its step. The result tells whether the
-- artifact was accepted.
pub mod Model
pub mod Fanout
pub mod Agent
pub mod Script
pub mod Cap
use makedown.Base.{Bool, true}
use makedown.Types.{
  StepType, chat, agent, transform, eval, map_step, CachePolicy, deterministic, stochastic, always,
  TargetBlock,
}
use makedown.Engine.World.{Build, pure, ◌>>=◌, ◌>>◌}
use makedown.Engine.Context.{Context, Outputs}
use makedown.Engine.Plan.{TargetPlan}
use makedown.Engine.Execute.Model.{execute_model_step, execute_stochastic_model_step}
use makedown.Engine.Execute.Fanout.{execute_map}
use makedown.Engine.Execute.Agent.{execute_agent_step}
use makedown.Engine.Execute.Script.{execute_transform}

module _ (ctx : Context) where
  unfoldable pub execute_inference :
      CachePolicy → TargetBlock → TargetPlan → Outputs → Build (Unit {0})
  execute_inference (stochastic n) = execute_stochastic_model_step ctx
  execute_inference _ = execute_model_step ctx

  unfoldable pub execute_step : StepType → TargetBlock → TargetPlan → Outputs → Build Bool
  execute_step chat t tp outputs = do execute_inference t.header.cache t tp outputs; pure true
  execute_step eval t tp outputs = do execute_inference t.header.cache t tp outputs; pure true
  execute_step transform t tp outputs = do execute_transform ctx t tp outputs; pure true
  execute_step map_step t tp outputs = do execute_map ctx t tp outputs; pure true
  execute_step agent t tp outputs = execute_agent_step ctx t tp outputs

  unfoldable pub execute_target : TargetBlock → TargetPlan → Outputs → Build Bool
  execute_target t tp outputs = execute_step t.header.step t tp outputs
