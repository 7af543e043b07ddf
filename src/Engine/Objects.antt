-- ===== src/Engine/Objects.antt =====
-- packages/engine/src/build.ts: what a step leaves in the store. Objects are only added, a step that
-- accepted its artifact has stored it, and an artifact that was denied leaves no trace.
use makedown.Base.{Text, text_eq, Bool, true, false, ok, ◌≡◌, refl, ap, if◌then◌else◌, sym}
use makedown.Types.{
  StepType, chat, agent, transform, eval, map_step, CachePolicy, deterministic, stochastic,
  TargetBlock, Provenance,
}
use makedown.Engine.Cas.{Bytes, has_object}
use makedown.Engine.Cas.Laws.{has_object-put_self}
use makedown.Engine.World.{World, Build, pure, modify, ◌>>◌}
use makedown.Engine.World.Keeps.{keeps_rules}
use makedown.Engine.World.Gives.{Gives, Gives-last, Gives-first}
use makedown.Engine.Context.{Context, Outputs}
use makedown.Engine.Plan.{TargetPlan, is_stale}
use makedown.Engine.Artifact.{put_object, store_artifact}
use makedown.Engine.Execute.{execute_inference, execute_step, execute_target}
use makedown.Engine.Execute.Model.{execute_model_step}
use makedown.Engine.Execute.Fanout.{execute_map}
use makedown.Engine.Execute.Script.{execute_transform}
use makedown.Engine.Execute.Agent.{accept, execute_agent_step}
use makedown.Engine.Stable.Sandboxed.{in_sandbox-Keeps}
use makedown.Engine.Stable.{Stable, write_output-Stable, record_provenance-Stable}

abbrev pub HasObject : Text → World → Type 0
HasObject id w = has_object w.cas id ≡ true

pub HasObject-Stable : (ctx : Context) (id : Text) → Stable (HasObject id) ctx
HasObject-Stable ctx id = record {
  stores = λ w cas grows h. grows id h;
  writes = λ w fs h. h;
  completes = λ w reqs h. h;
  approves = λ w reqs h. h;
  emits = λ w es h. h;
  sandboxed = in_sandbox-Keeps ctx (HasObject id) (λ w reqs req h. h) (λ w dirs h. h);
}

module _ (ctx : Context) where
  store_artifact-HasObject :
      (t : TargetBlock) (tp : TargetPlan) (content : Bytes) (p : World → Provenance)
      → Gives (λ u. HasObject tp.id) (store_artifact ctx t tp content p)
  unfolding store_artifact put_object modify
  store_artifact-HasObject t tp content p =
      Gives-first _ _
        (record {
          at = λ w u w' h. rw (sym (ap (λ q. q.1) h)) (has_object-put_self w.cas tp.id content);
        })
        (λ u. search (
          keeps_rules,
          write_output-Stable ctx (HasObject tp.id) (HasObject-Stable ctx tp.id),
          record_provenance-Stable ctx (HasObject tp.id) (HasObject-Stable ctx tp.id),
        ))

  execute_model_step-HasObject :
      (t : TargetBlock) (tp : TargetPlan) (outputs : Outputs)
      → Gives (λ u. HasObject tp.id) (execute_model_step ctx t tp outputs)
  unfolding execute_model_step
  execute_model_step-HasObject t tp outputs = search (Gives-last, store_artifact-HasObject) depth 30

  execute_map-HasObject :
      (t : TargetBlock) (tp : TargetPlan) (outputs : Outputs)
      → Gives (λ u. HasObject tp.id) (execute_map ctx t tp outputs)
  unfolding execute_map
  execute_map-HasObject t tp outputs = search (Gives-last, store_artifact-HasObject) depth 30

  execute_transform-HasObject :
      (t : TargetBlock) (tp : TargetPlan) (outputs : Outputs)
      → Gives (λ u. HasObject tp.id) (execute_transform ctx t tp outputs)
  unfolding execute_transform
  execute_transform-HasObject t tp outputs = search (Gives-last, store_artifact-HasObject) depth 30

  -- What a step that tells whether it accepted its artifact gives, where it did.
  abbrev Accepts : Text → Build Bool → Type 0
  Accepts id m = Gives (λ a w. a ≡ true → HasObject id w) m

  done-Accepts :
      (id : Text) (m : Build (Unit {0})) → Gives (λ u. HasObject id) m → Accepts id (m >> pure true)
  done-Accepts id m g =
      let k = Gives-first m (λ _. pure true) g (λ u. search keeps_rules) in
      record { at = λ w a w' h _. k.at w a w' h }

  granted-Accepts :
      (id : Text) (granted : Bool) (m : Build (Unit {0}))
      → Gives (λ u. HasObject id) m
      → Accepts id (if granted then m >> pure true else pure false)
  unfolding pure
  granted-Accepts id true m g = done-Accepts id m g
  granted-Accepts id false m g = record { at = λ w a w' h yes_accepted. cc }

  execute_agent_step-HasObject :
      (t : TargetBlock) (tp : TargetPlan) (outputs : Outputs)
      → Accepts tp.id (execute_agent_step ctx t tp outputs)
  unfolding execute_agent_step accept
  execute_agent_step-HasObject t tp outputs =
      search (Gives-last, granted-Accepts, store_artifact-HasObject) depth 30

  execute_inference-HasObject :
      (c : CachePolicy) (t : TargetBlock) (tp : TargetPlan) (outputs : Outputs)
      → c ≡ deterministic
      → Gives (λ u. HasObject tp.id) (execute_inference ctx c t tp outputs)
  unfolding execute_inference
  execute_inference-HasObject (stochastic n) t tp outputs e = cc
  execute_inference-HasObject _ t tp outputs e = execute_model_step-HasObject t tp outputs

  execute_step-HasObject :
      (s : StepType) (t : TargetBlock) (tp : TargetPlan) (outputs : Outputs)
      → t.header.cache ≡ deterministic
      → Accepts tp.id (execute_step ctx s t tp outputs)
  unfolding execute_step
  execute_step-HasObject chat t tp outputs e =
      done-Accepts tp.id _ (execute_inference-HasObject t.header.cache t tp outputs e)
  execute_step-HasObject eval t tp outputs e =
      done-Accepts tp.id _ (execute_inference-HasObject t.header.cache t tp outputs e)
  execute_step-HasObject transform t tp outputs e =
      done-Accepts tp.id _ (execute_transform-HasObject t tp outputs)
  execute_step-HasObject map_step t tp outputs e =
      done-Accepts tp.id _ (execute_map-HasObject t tp outputs)
  execute_step-HasObject agent t tp outputs e = execute_agent_step-HasObject t tp outputs

pub execute_target-HasObject :
    (ctx : Context) (t : TargetBlock) (tp : TargetPlan) (outputs : Outputs) (w w' : World)
    → t.header.cache ≡ deterministic
    → execute_target ctx t tp outputs w ≡ (ok true, w')
    → HasObject tp.id w'
unfolding execute_target
execute_target-HasObject ctx t tp outputs w w' e h =
    (execute_step-HasObject ctx t.header.step t tp outputs e).at w true w' h refl

-- Once a deterministic target has been executed and its artifact accepted, the target is not stale.
pub is_stale-execute_target :
    (ctx : Context) (t : TargetBlock) (tp : TargetPlan) (outputs : Outputs) (w w' : World)
    → t.header.cache ≡ deterministic
    → execute_target ctx t tp outputs w ≡ (ok true, w')
    → is_stale t tp.id w'.cas ≡ false
unfolding is_stale
is_stale-execute_target ctx t tp outputs w w' e h =
    rw (e, execute_target-HasObject ctx t tp outputs w w' e h) refl
