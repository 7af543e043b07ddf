-- ===== src/Engine/Outcome.antt =====
-- packages/engine/src/build.ts, runBuild: what a build that returns reports of its targets.
use makedown.Base.{
  Text, text_eq, some, [], All, has, ok, ok-injective, All-both, Bool-cases, inl, inr, some_inj,
  ◌∙◌, ◌↔◌, arith, false, ◌≡◌, refl, ap, subst, sym,
}
use makedown.Base.Map.{get}
use makedown.Types.{deterministic, TargetBlock, BuildDoc}
use makedown.Engine.World.{World, pure, asks, ◌>>=◌, bind-eq-ok}
use makedown.Engine.World.Keeps.{Keeps, Keeps-bind, Keeps-pure}
use makedown.Engine.Context.{Context}
use makedown.Engine.World.Gives.{Keeps-at}
use makedown.Engine.Objects.{HasObject, HasObject-Stable}
use makedown.Engine.Run.Kept.{run_targets-HasObject}
use makedown.Engine.Stable.Loop.{run_build-Stable}
use makedown.Engine.Plan.{TargetPlan, BuildPlan, by_name, is_stale, plan_build}
use makedown.Engine.Plan.Ordering.{plan_build-Planned}
use makedown.Engine.Run.{Progress, no_progress, output_paths, BuildResult, run_targets, run_build}
use makedown.Engine.Run.Verdicts.{Settled}
use makedown.Engine.Run.Fresh.{Idle, run_targets-Idle}
use makedown.Engine.Run.Settling.{run_targets-Settled}

abbrev pub progress : BuildResult → Progress
progress r = record { built = r.built; reused = r.reused; denied = r.rejected }

-- The parts of a build that returned: its plan, and the loop over it.
abbrev pub Looped : Context → BuildDoc → World → World → BuildResult → Type 0
Looped ctx doc w w' r =
    (plan_build ctx w doc ≡ ok r.plan)
    × (run_targets ctx (output_paths doc.targets []) (by_name doc.targets []) r.plan.graph.nodes
          r.plan.targets no_progress w
        ≡ (ok (progress r), w'))

pub run_build-Looped :
    (ctx : Context) (doc : BuildDoc) (w w' : World) (r : BuildResult)
    → run_build ctx doc w ≡ (ok r, w')
    → Looped ctx doc w w' r
unfolding run_build asks pure
run_build-Looped ctx doc w w' r h =
    let (plan, v, planned, rest) =
      bind-eq-ok (asks (λ w. plan_build ctx w doc))
        (λ plan.
          run_targets ctx (output_paths doc.targets []) (by_name doc.targets []) plan.graph.nodes
            plan.targets no_progress
          >>= λ p.
              pure
                (record { plan = plan; built = p.built; reused = p.reused; rejected = p.denied }))
        w h in
    let (p, u, looped, last) =
      bind-eq-ok
        (run_targets ctx (output_paths doc.targets []) (by_name doc.targets []) plan.graph.nodes
          plan.targets no_progress)
        (λ p.
          pure (record { plan = plan; built = p.built; reused = p.reused; rejected = p.denied }))
        v rest in
    subst (Looped ctx doc w w') (ok-injective (ap (λ q. q.0) last)) (
      ap (λ q. q.0) planned,
      subst
          (λ x.
            run_targets ctx (output_paths doc.targets []) (by_name doc.targets []) plan.graph.nodes
              plan.targets no_progress x
            ≡ (ok p, w'))
          (sym (ap (λ q. q.1) planned))
          (subst
            (λ x.
              run_targets ctx (output_paths doc.targets []) (by_name doc.targets [])
                plan.graph.nodes plan.targets no_progress v
              ≡ (ok p, x))
            (ap (λ q. q.1) last) looped),
    )

abbrev pub IsSettled : Context → BuildDoc → BuildResult → TargetPlan → Type 0
IsSettled ctx doc r tp =
    (t : TargetBlock)
    → get (by_name doc.targets []) tp.name ≡ some t
    → Settled ctx r.plan.graph.nodes (progress r) t tp

-- Every planned target of a build that returned is in exactly one of the three lists. It is
-- rejected where one of its dependencies is, and otherwise only as a stale agent target that requires
-- approval, where there is no approver or the approver denied its artifact; if not rejected, it is built where it was stale and reused where it was
-- not.
pub run_build-Settled :
    (ctx : Context) (doc : BuildDoc) (w w' : World) (r : BuildResult)
    → run_build ctx doc w ≡ (ok r, w')
    → All (IsSettled ctx doc r) r.plan.targets
run_build-Settled ctx doc w w' r h =
    let (planned, looped) = run_build-Looped ctx doc w w' r h in
    let ordered = plan_build-Planned ctx w doc r.plan planned in
    run_targets-Settled ctx (output_paths doc.targets []) (by_name doc.targets [])
      r.plan.graph.nodes r.plan.targets no_progress (progress r) w w' ordered.backward
      (λ m here. (refl, refl, refl)) looped

-- A build of a plan with no stale target asks for no completion, runs no agent, asks for no approval
-- and leaves the store as it was, whether it returns or throws.
pub run_build-Idle :
    (ctx : Context) (doc : BuildDoc) (w : World) (plan : BuildPlan)
    → plan_build ctx w doc ≡ ok plan
    → All (λ tp. tp.stale ≡ false) plan.targets
    → Idle w (run_build ctx doc w).1
unfolding run_build ◌>>=◌ asks
run_build-Idle ctx doc w plan planned fresh =
    let loop =
      run_targets ctx (output_paths doc.targets []) (by_name doc.targets []) plan.graph.nodes
        plan.targets no_progress in
    let idle : Keeps (Idle w) (
        loop >>= λ p.
        pure (record { plan = plan; built = p.built; reused = p.reused; rejected = p.denied })) =
      Keeps-bind _ _
        (run_targets-Idle ctx (output_paths doc.targets []) w (by_name doc.targets [])
          plan.graph.nodes plan.targets no_progress fresh)
        (λ p. Keeps-pure _) in
    rw planned
      (idle.at w (record { cas = refl; completions = refl; agent_runs = refl; approvals = refl }))

not_stale :
    (t : TargetBlock) (id : Text) (w : World)
    → t.header.cache ≡ deterministic
    → (is_stale t id w.cas ≡ false) ↔ HasObject id w
unfolding is_stale
not_stale t id w e = rw e (ground arith)

-- After a build that returned, every planned deterministic target that was not rejected has its
-- artifact in the store, and so is not stale under the identity it was planned with.
pub is_stale-run_build :
    (ctx : Context) (doc : BuildDoc) (w w' : World) (r : BuildResult)
    → run_build ctx doc w ≡ (ok r, w')
    → All
        (λ tp.
          (t : TargetBlock)
          → get (by_name doc.targets []) tp.name ≡ some t
          → t.header.cache ≡ deterministic
          → has r.rejected tp.name ≡ false
          → is_stale t tp.id w'.cas ≡ false)
        r.plan.targets
is_stale-run_build ctx doc w w' r h =
    let (planned, looped) = run_build-Looped ctx doc w w' r h in
    let ordered = plan_build-Planned ctx w doc r.plan planned in
    All-both _ _ _
      (λ tp (t', found', judged) made t found e kept. elim (Bool-cases tp.stale) [
        | inl stale ↦ (not_stale t tp.id w' e).1 (made t found e stale kept)
        | inr fresh ↦ (not_stale t tp.id w' e).1 (
            Keeps-at (run_build ctx doc)
              (run_build-Stable ctx (HasObject tp.id) (HasObject-Stable ctx tp.id) doc) h
              ((not_stale t tp.id w e).0 (
                subst (λ x. is_stale x tp.id w.cas ≡ false) (some_inj (sym found' ∙ found))
                  (sym judged ∙ fresh))))
      ])
      r.plan.targets ordered.judged
      (run_targets-HasObject ctx (output_paths doc.targets []) (by_name doc.targets [])
        r.plan.graph.nodes r.plan.targets no_progress (progress r) w w' ordered.backward looped)
