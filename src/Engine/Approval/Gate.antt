-- ===== src/Engine/Approval/Gate.antt =====
-- packages/engine/src/build.ts, executeTarget: what a denied and what a granted artifact leave.
use makedown.Base.{Text, true, false, ◌≡◌, refl, ok, inl, inr}
use makedown.Base.Map.{Map}
use makedown.Types.{StepType, chat, agent, transform, eval, map_step, required, TargetBlock}
use makedown.Engine.Cas.{LocalCas, Bytes}
use makedown.Engine.World.{World, Build, pure, ◌>>◌, bind-eq-ok}
use makedown.Engine.World.Keeps.{keeps_rules}
use makedown.Engine.World.Gives.{Ends, Ends-seq}
use makedown.Engine.Context.{Context, Outputs}
use makedown.Engine.Plan.{TargetPlan}
use makedown.Engine.Artifact.{render_prompt, render_system}
use makedown.Engine.Execute.{execute_step, execute_target}
use makedown.Engine.Execute.Agent.{execute_agent_step}
use makedown.Engine.Approval.{
  Granted, Denied, Untouched, Gated, render_some-Untouched, accept-Gated,
}
use makedown.Engine.Stable.Sandboxed.{in_sandbox-Keeps}

execute_agent_step-Gated :
    (ctx : Context) (cas : LocalCas) (files : Map Text Bytes) (t : TargetBlock) (tp : TargetPlan)
    (outputs : Outputs)
    → Ends
        (Untouched ctx cas files)
        (Gated ctx cas files t tp)
        (execute_agent_step ctx t tp outputs)
unfolding execute_agent_step render_prompt render_system
execute_agent_step-Gated ctx cas files t tp outputs =
    search
      (
        Ends-seq,
        keeps_rules,
        render_some-Untouched ctx cas files,
        in_sandbox-Keeps ctx (Untouched ctx cas files) (λ w reqs req h. (h.0, inr (w, req, refl)))
            (λ w dirs h. h),
        accept-Gated ctx cas files,
      )
      depth 20

-- A step that always accepts its artifact.
never_denied : (m : Build (Unit {0})) (w w' : World) → ¬ ((m >> pure true) w ≡ (ok false, w'))
unfolding pure
never_denied m w w' h = let (u, v, _, last) = bind-eq-ok m (λ _. pure true) w h in cc

execute_step-Denied :
    (ctx : Context) (s : StepType) (t : TargetBlock) (tp : TargetPlan) (outputs : Outputs)
    (w w' : World)
    → execute_step ctx s t tp outputs w ≡ (ok false, w')
    → (s ≡ agent) × Denied ctx t tp × Untouched ctx w.cas w.files w'
unfolding execute_step
execute_step-Denied ctx agent t tp outputs w w' h =
    let (untouched, was_denied) =
      ((execute_agent_step-Gated ctx w.cas w.files t tp outputs).at w false w' (refl, inl refl) h).0
        refl in
    (refl, was_denied, untouched)
execute_step-Denied ctx chat t tp outputs w w' h = absurd (never_denied _ w w' h)
execute_step-Denied ctx eval t tp outputs w w' h = absurd (never_denied _ w w' h)
execute_step-Denied ctx transform t tp outputs w w' h = absurd (never_denied _ w w' h)
execute_step-Denied ctx map_step t tp outputs w w' h = absurd (never_denied _ w w' h)

-- Only an agent target that requires approval is ever denied, and only where there is no approver or the
-- approver denied a text it was shown. A denied artifact leaves the store as it was, and the workspace's
-- files as they were or as the agent itself left them.
pub execute_target-Denied :
    (ctx : Context) (t : TargetBlock) (tp : TargetPlan) (outputs : Outputs) (w w' : World)
    → execute_target ctx t tp outputs w ≡ (ok false, w')
    → (t.header.step ≡ agent) × Denied ctx t tp × Untouched ctx w.cas w.files w'
unfolding execute_target
execute_target-Denied ctx t tp outputs w w' h =
    execute_step-Denied ctx t.header.step t tp outputs w w' h

pub execute_agent_step-Granted :
    (ctx : Context) (t : TargetBlock) (tp : TargetPlan) (outputs : Outputs) (w w' : World)
    → t.header.approval ≡ required
    → execute_agent_step ctx t tp outputs w ≡ (ok true, w')
    → Granted ctx t tp w'
execute_agent_step-Granted ctx t tp outputs w w' req h =
    ((execute_agent_step-Gated ctx w.cas w.files t tp outputs).at w true w' (refl, inl refl) h).1
      refl req
