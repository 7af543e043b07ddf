-- ===== src/Engine/Run/Rounds.antt =====
-- packages/engine/src/build.ts, runBuild: what one round of the loop adds to the lists.
use makedown.Base.{
  Text, text_eq, Bool, true, false, Bool-cases, List, [], ◌∷◌, ◌++◌, any, has, ok, inl, inr, ◌≡◌,
  refl, ap, if◌then◌else◌, ok-injective, subst,
}
use makedown.Types.{agent, TargetBlock}
use makedown.Engine.World.{
  World, Build, pure, ◌>>◌, bind-eq-ok, target_start, target_built, target_reused, target_denied,
  target_skipped,
}
use makedown.Engine.Context.{Context, Outputs}
use makedown.Engine.Plan.{TargetPlan}
use makedown.Engine.Artifact.{materialize}
use makedown.Engine.Execute.{execute_target}
use makedown.Engine.Approval.{Denied}
use makedown.Engine.Approval.Gate.{execute_target-Denied}
use makedown.Engine.Run.{Progress, add, emit, finished, skip, make, reuse, start_target, run_target}

-- The four ways a round ends.
pub data Round (ctx : Context) (t : TargetBlock) (tp : TargetPlan) (deps : List Text) (p : Progress)
    : Progress → Type 0 where
  skipped :
      any (has p.denied) deps ≡ true
      → Round ctx t tp deps p (record p { denied = add p.denied tp.name })
  denied :
      any (has p.denied) deps ≡ false
      → tp.stale ≡ true
      → t.header.step ≡ agent
      → Denied ctx t tp
      → Round ctx t tp deps p (record p { denied = add p.denied tp.name })
  built :
      any (has p.denied) deps ≡ false
      → tp.stale ≡ true
      → Round ctx t tp deps p (record p { built = p.built ++ tp.name ∷ [] })
  reused :
      any (has p.denied) deps ≡ false
      → tp.stale ≡ false
      → Round ctx t tp deps p (record p { reused = p.reused ++ tp.name ∷ [] })

-- What a sequence ends with, where its last part is `pure`.
pub pure-last :
    {A B : Type 0} (m : Build A) (b c : B) (w w' : World) → (m >> pure b) w ≡ (ok c, w') → b ≡ c
unfolding pure
pure-last m b c w w' h =
    let (a, v, _, last) = bind-eq-ok m (λ _. pure b) w h in ok-injective (ap (λ q. q.0) last)

module _ (ctx : Context) (outputs : Outputs) where
  finished-Round :
      (accepted : Bool) (t : TargetBlock) (tp : TargetPlan) (deps : List Text) (p q : Progress)
      (w v w' : World)
      → any (has p.denied) deps ≡ false
      → tp.stale ≡ true
      → execute_target ctx t tp outputs w ≡ (ok accepted, v)
      → finished tp.name accepted p v ≡ (ok q, w')
      → Round ctx t tp deps p q
  finished-Round true t tp deps p q w v w' clear stale made h =
      subst (Round ctx t tp deps p) (pure-last (emit (target_built tp.name)) _ q v w' h)
        (built clear stale)
  finished-Round false t tp deps p q w v w' clear stale made h =
      let (is_agent, was_denied, _) = execute_target-Denied ctx t tp outputs w v made in
      subst (Round ctx t tp deps p) (pure-last (emit (target_denied tp.name)) _ q v w' h)
        (denied clear stale is_agent was_denied)

  make_or_reuse-Round :
      (stale : Bool) (t : TargetBlock) (tp : TargetPlan) (deps : List Text) (p q : Progress)
      (w w' : World)
      → any (has p.denied) deps ≡ false
      → tp.stale ≡ stale
      → (if stale then make ctx outputs t tp p else reuse ctx outputs t tp p) w ≡ (ok q, w')
      → Round ctx t tp deps p q
  unfolding make reuse
  make_or_reuse-Round true t tp deps p q w w' clear stale h =
      let (accepted, v, made, last) =
        bind-eq-ok (execute_target ctx t tp outputs) (λ a. finished tp.name a p) w h in
      finished-Round accepted t tp deps p q w v w' clear stale made last
  make_or_reuse-Round false t tp deps p q w w' clear fresh h =
      let (_, v, _, last) = bind-eq-ok (materialize ctx tp t) _ w h in
      subst (Round ctx t tp deps p) (pure-last (emit (target_reused tp.name)) _ q v w' last)
        (reused clear fresh)

  start_target-Round :
      (t : TargetBlock) (tp : TargetPlan) (deps : List Text) (p q : Progress) (w w' : World)
      → any (has p.denied) deps ≡ false
      → start_target ctx outputs t tp p w ≡ (ok q, w')
      → Round ctx t tp deps p q
  unfolding start_target
  start_target-Round t tp deps p q w w' clear h =
      let (_, u, _, rest) = bind-eq-ok (emit (target_start tp.name tp.stale)) _ w h in
      make_or_reuse-Round tp.stale t tp deps p q u w' clear refl rest

  pub run_target-Round :
      (t : TargetBlock) (tp : TargetPlan) (deps : List Text) (p q : Progress) (w w' : World)
      → run_target ctx outputs deps t tp p w ≡ (ok q, w')
      → Round ctx t tp deps p q
  unfolding run_target skip
  run_target-Round t tp deps p q w w' h = elim (Bool-cases (any (has p.denied) deps)) [
    | inl blocked ↦
        subst (Round ctx t tp deps p)
          (pure-last (emit (target_skipped tp.name)) _ q w w' (rw blocked at h)) (skipped blocked)
    | inr clear ↦ start_target-Round t tp deps p q w w' clear (rw clear at h)
  ]
