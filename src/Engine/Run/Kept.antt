-- ===== src/Engine/Run/Kept.antt =====
-- packages/engine/src/build.ts, runBuild: the artifact of a target that was executed and not denied is
-- in the store when the loop ends.
use makedown.Base.{
  Text, text_eq, Bool, true, false, Bool-cases, Option, none, some, List, [], ◌∷◌, All, any, has,
  ok, inl, inr, ◌≡◌, ap, ◌∙◌, if◌then◌else◌, arith, eq_refl, some_inj,
}
use makedown.Base.Map.{Map, get}
use makedown.Types.{deterministic, TargetBlock}
use makedown.Graph.{GraphNode, deps_of}
use makedown.Engine.World.{World, bind-eq-ok, target_start, target_denied, target_skipped}
use makedown.Engine.World.Gives.{Keeps-at}
use makedown.Engine.Context.{Context, Outputs}
use makedown.Engine.Plan.{TargetPlan}
use makedown.Engine.Plan.Ordering.{names_of, Backward}
use makedown.Engine.Execute.{execute_target}
use makedown.Engine.Objects.{HasObject, HasObject-Stable, execute_target-HasObject}
use makedown.Engine.Run.{
  Progress, add, emit, finished, skip, make, reuse, start_target, run_target, run_found,
  run_targets,
}
use makedown.Engine.Run.Rounds.{pure-last}
use makedown.Engine.Run.Verdicts.{has-add, run_targets-Agree}
use makedown.Engine.Stable.Loop.{finished-Stable, run_targets-Stable}

module _ (ctx : Context) (outputs : Outputs) where
  finished-HasObject :
      (accepted : Bool) (t : TargetBlock) (tp : TargetPlan) (p q : Progress) (w v w' : World)
      → t.header.cache ≡ deterministic
      → execute_target ctx t tp outputs w ≡ (ok accepted, v)
      → finished tp.name accepted p v ≡ (ok q, w')
      → has q.denied tp.name ≡ false
      → HasObject tp.id w'
  finished-HasObject true t tp p q w v w' e made h kept =
      Keeps-at (finished tp.name true p)
        (finished-Stable ctx (HasObject tp.id) (HasObject-Stable ctx tp.id) tp.name true p) h
        (execute_target-HasObject ctx t tp outputs w v e made)
  finished-HasObject false t tp p q w v w' e made h kept =
      let last = pure-last (emit (target_denied tp.name)) _ q v w' h in
      absurd (
        ground (
          arith,
          ap (λ x. has x.denied tp.name) last,
          has-add p.denied tp.name tp.name,
          eq_refl tp.name,
        ))

  make_or_reuse-HasObject :
      (stale : Bool) (t : TargetBlock) (tp : TargetPlan) (p q : Progress) (w w' : World)
      → t.header.cache ≡ deterministic
      → stale ≡ true
      → (if stale then make ctx outputs t tp p else reuse ctx outputs t tp p) w ≡ (ok q, w')
      → has q.denied tp.name ≡ false
      → HasObject tp.id w'
  unfolding make
  make_or_reuse-HasObject false t tp p q w w' e s h kept = cc
  make_or_reuse-HasObject true t tp p q w w' e s h kept =
      let (accepted, v, made, last) =
        bind-eq-ok (execute_target ctx t tp outputs) (λ a. finished tp.name a p) w h in
      finished-HasObject accepted t tp p q w v w' e made last kept

  run_found-HasObject :
      (found : Option TargetBlock) (deps : List Text) (t : TargetBlock) (tp : TargetPlan)
      (p q : Progress) (w w' : World)
      → found ≡ some t
      → t.header.cache ≡ deterministic
      → tp.stale ≡ true
      → run_found ctx outputs found deps tp p w ≡ (ok q, w')
      → has q.denied tp.name ≡ false
      → HasObject tp.id w'
  unfolding run_target skip start_target
  run_found-HasObject none deps t tp p q w w' f e s h kept = cc
  run_found-HasObject (some t') deps t tp p q w w' f e s h kept =
      elim (Bool-cases (any (has p.denied) deps)) [
        | inl blocked ↦
            let last =
              pure-last (emit (target_skipped tp.name)) (record p { denied = add p.denied tp.name })
                q w w' (rw blocked at h) in
            absurd (
              ground (
                arith,
                ap (λ x. has x.denied tp.name) last,
                has-add p.denied tp.name tp.name,
                eq_refl tp.name,
              ))
        | inr clear ↦
            let (_, u, _, rest) =
              bind-eq-ok (emit (target_start tp.name tp.stale))
                (λ x. if tp.stale then make ctx outputs t' tp p else reuse ctx outputs t' tp p) w
                (rw clear at h) in
            make_or_reuse-HasObject tp.stale t' tp p q u w'
              (ap (λ x. x.header.cache) (some_inj f) ∙ e) s rest kept
      ]

  pub run_targets-HasObject :
      (targets : Map Text TargetBlock) (nodes : Map Text GraphNode) (tps : List TargetPlan)
      (p q : Progress) (w w' : World)
      → Backward nodes (names_of tps)
      → run_targets ctx outputs targets nodes tps p w ≡ (ok q, w')
      → All
          (λ tp.
            (t : TargetBlock)
            → get targets tp.name ≡ some t
            → t.header.cache ≡ deterministic
            → tp.stale ≡ true
            → has q.denied tp.name ≡ false
            → HasObject tp.id w')
          tps
  unfolding run_targets
  run_targets-HasObject targets nodes [] p q w w' b h = tt
  run_targets-HasObject targets nodes (tp ∷ tps) p q w w' (once, behind, b) h =
      let deps = deps_of nodes tp.name in
      let (mid, v, first, rest) =
        bind-eq-ok (run_found ctx outputs (get targets tp.name) deps tp p)
          (run_targets ctx outputs targets nodes tps) w h in
      (
        λ t found e s kept.
            Keeps-at (run_targets ctx outputs targets nodes tps mid)
              (run_targets-Stable ctx (HasObject tp.id) (HasObject-Stable ctx tp.id) outputs targets
                nodes tps mid)
              rest
              (run_found-HasObject (get targets tp.name) deps t tp p mid w v found e s first (
                ground (
                  arith,
                  run_targets-Agree ctx outputs targets nodes tps mid q v w' tp.name rest once,
                ))),
        run_targets-HasObject targets nodes tps mid q v w' b rest,
      )
