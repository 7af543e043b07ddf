-- ===== src/Engine/Run/Verdicts.antt =====
-- packages/engine/src/build.ts, runBuild: the list that each planned target ends in.
use makedown.Base.{
  Text, text_eq, Bool, true, false, Bool-cases, Option, none, some, List, [], ◌∷◌, All, any, has,
  has-append, ok, ◌≡◌, ◌⊎◌, refl, ap, ◌||◌, ◌==◌, arith, ok-injective,
}
use makedown.Base.Map.{Map, get}
use makedown.Types.{agent, TargetBlock}
use makedown.Graph.{GraphNode, deps_of}
use makedown.Engine.World.{World, pure, bind-eq-ok}
use makedown.Engine.Context.{Context, Outputs}
use makedown.Engine.Approval.{Denied}
use makedown.Engine.Plan.{TargetPlan}
use makedown.Engine.Plan.Ordering.{names_of}
use makedown.Engine.Run.{Progress, add, run_found, run_targets}
use makedown.Engine.Run.Rounds.{Round, skipped, denied, built, reused, run_target-Round}

-- None of the names is in a list yet.
abbrev pub Unlisted : Progress → List Text → Type 0
Unlisted p names =
    (m : Text)
    → has names m ≡ true
    → (has p.built m ≡ false) × (has p.reused m ≡ false) × (has p.denied m ≡ false)

-- A target is rejected for a rejected dependency, or as an agent target whose artifact was denied.
-- Otherwise it is built if it was stale, and reused if it was not; it is in one list only.
pub record Settled (ctx : Context) (nodes : Map Text GraphNode) (p : Progress) (t : TargetBlock)
    (tp : TargetPlan) : Type 0 where
  pub rejected_if : any (has p.denied) (deps_of nodes tp.name) ≡ true → has p.denied tp.name ≡ true
  pub rejected_by :
      has p.denied tp.name ≡ true
      → (any (has p.denied) (deps_of nodes tp.name) ≡ true)
        ⊎ ((tp.stale ≡ true) × (t.header.step ≡ agent) × Denied ctx t tp)
  pub built_iff : has p.denied tp.name ≡ false → has p.built tp.name ≡ tp.stale
  pub reused_if : tp.stale ≡ true → has p.reused tp.name ≡ false
  pub reused_iff : has p.denied tp.name ≡ false → tp.stale ≡ false → has p.reused tp.name ≡ true
  pub one_list :
      has p.denied tp.name ≡ true → (has p.built tp.name ≡ false) × (has p.reused tp.name ≡ false)

-- The lists agree on a name.
abbrev pub Agree : Progress → Progress → Text → Type 0
Agree p q m =
    (has q.built m ≡ has p.built m)
    × (has q.reused m ≡ has p.reused m)
    × (has q.denied m ≡ has p.denied m)

pub has-add : (xs : List Text) (x m : Text) → has (add xs x) m ≡ (has xs m || x == m)
has-add xs x m =
    ground (arith, has-append xs (x ∷ []) m, text_eq.beq_iff x m, Bool-cases (has xs x))

Round-Agree :
    (ctx : Context) (t : TargetBlock) (tp : TargetPlan) (deps : List Text) (p q : Progress)
    (m : Text)
    → Round ctx t tp deps p q
    → (tp.name == m) ≡ false
    → Agree p q m
Round-Agree ctx t tp deps p _ m (skipped a) other = ground (arith, has-add p.denied tp.name m)
Round-Agree ctx t tp deps p _ m (denied a b c d) other = ground (arith, has-add p.denied tp.name m)
Round-Agree ctx t tp deps p _ m (built a b) other =
    ground (arith, has-append p.built (tp.name ∷ []) m)
Round-Agree ctx t tp deps p _ m (reused a b) other =
    ground (arith, has-append p.reused (tp.name ∷ []) m)

pub any-cong : (f g : Text → Bool) (xs : List Text) → All (λ x. f x ≡ g x) xs → any f xs ≡ any g xs
any-cong f g [] h = refl
any-cong f g (x ∷ xs) h = ground (arith, h.0, any-cong f g xs h.1)

module _ (ctx : Context) (outputs : Outputs) (targets : Map Text TargetBlock)
    (nodes : Map Text GraphNode) where
  pub found-Agree :
      (found : Option TargetBlock) (tp : TargetPlan) (deps : List Text) (p q : Progress)
      (w w' : World) (m : Text)
      → run_found ctx outputs found deps tp p w ≡ (ok q, w')
      → (tp.name == m) ≡ false
      → Agree p q m
  unfolding pure
  found-Agree none tp deps p q w w' m h other =
      rw (ok-injective (ap (λ r. r.0) h)) (refl, refl, refl)
  found-Agree (some t) tp deps p q w w' m h other =
      Round-Agree ctx t tp deps p q m (run_target-Round ctx outputs t tp deps p q w w' h) other

  -- Rounds of other names leave a name's lists alone.
  pub run_targets-Agree :
      (tps : List TargetPlan) (p q : Progress) (w w' : World) (m : Text)
      → run_targets ctx outputs targets nodes tps p w ≡ (ok q, w')
      → has (names_of tps) m ≡ false
      → Agree p q m
  unfolding run_targets pure
  run_targets-Agree [] p q w w' m h new = rw (ok-injective (ap (λ r. r.0) h)) (refl, refl, refl)
  run_targets-Agree (tp ∷ tps) p q w w' m h new =
      let (mid, v, first, rest) =
        bind-eq-ok (run_found ctx outputs (get targets tp.name) (deps_of nodes tp.name) tp p)
          (run_targets ctx outputs targets nodes tps) w h in
      ground (
        arith,
        found-Agree (get targets tp.name) tp (deps_of nodes tp.name) p mid w v m first,
        run_targets-Agree tps mid q v w' m rest,
      )
