-- ===== src/Engine/Run/Settling.antt =====
-- packages/engine/src/build.ts, runBuild: every planned target is settled when the loop ends.
use makedown.Base.{
  Text, text_eq, false, Bool-cases, Option, none, some, List, [], ◌∷◌, All, All-of, any, has,
  has-append, ok, inl, inr, ◌≡◌, subst, ◌∙◌, ◌==◌, eq_refl, arith, some_inj,
}
use makedown.Base.Map.{Map, get}
use makedown.Types.{TargetBlock}
use makedown.Graph.{GraphNode, deps_of}
use makedown.Engine.World.{World, bind-eq-ok}
use makedown.Engine.Context.{Context, Outputs}
use makedown.Engine.Plan.{TargetPlan}
use makedown.Engine.Plan.Ordering.{names_of, Backward}
use makedown.Engine.Run.{Progress, run_found, run_targets}
use makedown.Engine.Run.Rounds.{Round, skipped, denied, built, reused, run_target-Round}
use makedown.Engine.Run.Verdicts.{
  Unlisted, Settled, Agree, has-add, any-cong, found-Agree, run_targets-Agree,
}

-- A round settles its target, as seen from a later state that agrees on its name and on what it
-- depends on.
Round-Settled :
    (ctx : Context) (nodes : Map Text GraphNode) (t : TargetBlock) (tp : TargetPlan)
    (p q last : Progress)
    → Round ctx t tp (deps_of nodes tp.name) p q
    → (has p.built tp.name ≡ false)
      × (has p.reused tp.name ≡ false)
      × (has p.denied tp.name ≡ false)
    → any (has last.denied) (deps_of nodes tp.name) ≡ any (has p.denied) (deps_of nodes tp.name)
    → Agree q last tp.name
    → Settled ctx nodes last t tp
Round-Settled ctx nodes t tp p _ last (skipped blocked) (nb, nr, nd) same (ab, ar, ad) =
    let here = eq_refl tp.name in
    let put = has-add p.denied tp.name tp.name in
    record {
      rejected_if = λ h. ground arith;
      rejected_by = λ h. inl (same ∙ blocked);
      built_iff = λ h. absurd (ground arith);
      reused_if = λ h. ground arith;
      reused_iff = λ h g. absurd (ground arith);
      one_list = λ h. ground arith;
    }
Round-Settled ctx nodes t tp p _ last (denied clear stale is_agent was_denied) (nb, nr, nd) same
      (ab, ar, ad) =
    let here = eq_refl tp.name in
    let put = has-add p.denied tp.name tp.name in
    record {
      rejected_if = λ h. absurd (ground arith);
      rejected_by = λ h. inr (stale, is_agent, was_denied);
      built_iff = λ h. absurd (ground arith);
      reused_if = λ h. ground arith;
      reused_iff = λ h g. absurd (ground arith);
      one_list = λ h. ground arith;
    }
Round-Settled ctx nodes t tp p _ last (built clear stale) (nb, nr, nd) same (ab, ar, ad) =
    let here = eq_refl tp.name in
    let put = has-append p.built (tp.name ∷ []) tp.name in
    record {
      rejected_if = λ h. absurd (ground arith);
      rejected_by = λ h. absurd (ground arith);
      built_iff = λ h. ground arith;
      reused_if = λ h. ground arith;
      reused_iff = λ h g. absurd (ground arith);
      one_list = λ h. absurd (ground arith);
    }
Round-Settled ctx nodes t tp p _ last (reused clear fresh) (nb, nr, nd) same (ab, ar, ad) =
    let here = eq_refl tp.name in
    let put = has-append p.reused (tp.name ∷ []) tp.name in
    record {
      rejected_if = λ h. absurd (ground arith);
      rejected_by = λ h. absurd (ground arith);
      built_iff = λ h. ground arith;
      reused_if = λ h. absurd (ground arith);
      reused_iff = λ h g. ground arith;
      one_list = λ h. absurd (ground arith);
    }

module _ (ctx : Context) (outputs : Outputs) (targets : Map Text TargetBlock)
    (nodes : Map Text GraphNode) where
  found-Settled :
      (found : Option TargetBlock) (t : TargetBlock) (tp : TargetPlan) (p q last : Progress)
      (w w' : World)
      → found ≡ some t
      → run_found ctx outputs found (deps_of nodes tp.name) tp p w ≡ (ok q, w')
      → (has p.built tp.name ≡ false)
        × (has p.reused tp.name ≡ false)
        × (has p.denied tp.name ≡ false)
      → any (has last.denied) (deps_of nodes tp.name) ≡ any (has p.denied) (deps_of nodes tp.name)
      → Agree q last tp.name
      → Settled ctx nodes last t tp
  found-Settled none t tp p q last w w' e h = cc
  found-Settled (some t') t tp p q last w w' e h = Round-Settled ctx nodes t tp p q last (
      subst (λ x. Round ctx x tp (deps_of nodes tp.name) p q) (some_inj e)
        (run_target-Round ctx outputs t' tp (deps_of nodes tp.name) p q w w' h))

  pub run_targets-Settled :
      (tps : List TargetPlan) (p q : Progress) (w w' : World)
      → Backward nodes (names_of tps)
      → Unlisted p (names_of tps)
      → run_targets ctx outputs targets nodes tps p w ≡ (ok q, w')
      → All (λ tp. (t : TargetBlock) → get targets tp.name ≡ some t → Settled ctx nodes q t tp) tps
  unfolding run_targets
  run_targets-Settled [] p q w w' b u h = tt
  run_targets-Settled (tp ∷ tps) p q w w' (once, behind, b) u h =
      let deps = deps_of nodes tp.name in
      let (mid, v, first, rest) =
        bind-eq-ok (run_found ctx outputs (get targets tp.name) deps tp p)
          (run_targets ctx outputs targets nodes tps) w h in
      let early : (m : Text) → (tp.name == m) ≡ false → Agree p mid m = λ m.
        found-Agree ctx outputs targets nodes (get targets tp.name) tp deps p mid w v m first in
      let late : (m : Text) → has (names_of tps) m ≡ false → Agree mid q m =
        λ m. run_targets-Agree ctx outputs targets nodes tps mid q v w' m rest in
      (
        λ t e.
            found-Settled (get targets tp.name) t tp p mid q w v e first
              (u tp.name (ground (arith, eq_refl tp.name)))
              (any-cong (has q.denied) (has p.denied) deps
                (All-of _ _ (λ d far. ground (arith, early d, late d)) deps behind))
              (late tp.name once),
        run_targets-Settled tps mid q v w' b
            (λ m here.
              ground (arith, early m, Bool-cases (tp.name == m), text_eq.beq_iff tp.name m, u m))
            rest,
      )
