-- ===== src/Engine/Cost/Total.antt =====
-- packages/engine/src/cost.ts: the sum of an estimate is that of its own rows.
use makedown.Base.{
  ℕ, ◌+◌, Text, text_eq, Bool, true, false, ◌&&◌, ◌||◌, Option, none, some, List, [], ◌∷◌, ◌++◌, ok,
  map_err, map_err-ok, >>=-eq-ok, ok-injective, Option-cases, inl, inr, Bool-cases, ◌≡◌, refl,
  subst, arith,
}
use makedown.Base.Map.{Map, get}
use makedown.Types.{Json, TargetBlock, BuildDoc}
use makedown.Engine.World.{World}
use makedown.Engine.Context.{Context}
use makedown.Engine.Plan.{TargetPlan, plan_build}
use makedown.Engine.Template.{Sources}
use makedown.Engine.Cost.{
  TargetCost, BuildCost, is_model_step, add_cost, no_cost, cost_for_target, cost_targets,
  plan_failed, render_failed, estimate_build_cost,
}

-- A row that is counted: stale, and of a step that calls a model.
abbrev pub is_counted : TargetCost → Bool
is_counted c = c.stale && is_model_step c.step

abbrev pub share_of : Bool → Option ℕ → ℕ
share_of false usd = 0
share_of true none = 0
share_of true (some usd) = usd

abbrev pub lacks_price : Bool → Option ℕ → Bool
lacks_price false usd = false
lacks_price true none = true
lacks_price true (some usd) = false

abbrev pub sum_costs : List TargetCost → ℕ
sum_costs [] = 0
sum_costs (c ∷ cs) = share_of (is_counted c) c.cost_usd + sum_costs cs

abbrev pub some_unpriced : List TargetCost → Bool
some_unpriced [] = false
some_unpriced (c ∷ cs) = lacks_price (is_counted c) c.cost_usd || some_unpriced cs

-- The two summaries of an estimate are those of its rows.
abbrev pub SumsUp : BuildCost → Type 0
SumsUp b = (b.total_cost_usd ≡ sum_costs b.targets) × (b.has_unpriced ≡ some_unpriced b.targets)

sum_costs-append :
    (cs : List TargetCost) (c : TargetCost)
    → sum_costs (cs ++ c ∷ []) ≡ sum_costs cs + share_of (is_counted c) c.cost_usd
sum_costs-append [] c = omega arith
sum_costs-append (d ∷ cs) c = omega (arith, sum_costs-append cs c)

some_unpriced-append :
    (cs : List TargetCost) (c : TargetCost)
    → some_unpriced (cs ++ c ∷ []) ≡ (some_unpriced cs || lacks_price (is_counted c) c.cost_usd)
some_unpriced-append [] c = grind (arith, Bool-cases (lacks_price (is_counted c) c.cost_usd))
some_unpriced-append (d ∷ cs) c =
    grind (arith, some_unpriced-append cs c, Bool-cases (lacks_price (is_counted d) d.cost_usd))

add_cost-SumsUp : (c : TargetCost) (b : BuildCost) → SumsUp b → SumsUp (add_cost c b)
unfolding add_cost
add_cost-SumsUp c b (total, unpriced) = elim (Bool-cases (is_counted c)) [
  | inr fresh ↦ (
    rw fresh ground (arith, total, fresh, sum_costs-append b.targets c),
    rw fresh ground (arith, some_unpriced-append b.targets c, Bool-cases (some_unpriced b.targets)),
  )
  | inl counted ↦ elim (Option-cases c.cost_usd) [
    | inl unknown ↦ (
      rw counted (rw unknown ground (arith, sum_costs-append b.targets c)),
      rw counted (
          rw unknown ground
            (arith, some_unpriced-append b.targets c, Bool-cases (some_unpriced b.targets))),
    )
    | inr (usd, known) ↦ (
      rw counted (rw known ground (arith, sum_costs-append b.targets c)),
      rw counted (
          rw known ground
            (arith, some_unpriced-append b.targets c, Bool-cases (some_unpriced b.targets))),
    )
  ]
]

module _ (src : Sources) (json_parse : Text → Option Json) (stringify : Json → Text)
    (number_of : Json → Option ℕ) where
  cost_targets-SumsUp :
      (targets : Map Text TargetBlock) (outputs : Map Text Text) (tps : List TargetPlan)
      (b c : BuildCost)
      → SumsUp b
      → cost_targets src json_parse stringify number_of targets outputs tps b ≡ ok c
      → SumsUp c
  unfolding cost_targets
  cost_targets-SumsUp targets outputs [] b c up h = let e = ok-injective h in subst SumsUp e up
  cost_targets-SumsUp targets outputs (tp ∷ tps) b c up h =
      let loop = cost_targets src json_parse stringify number_of targets outputs tps in
      elim (Option-cases (get targets tp.name)) [
        | inl absent ↦
            cost_targets-SumsUp targets outputs tps b c up (rw (cost_targets, absent) at h)
        | inr (t, found) ↦
            let (cost, _, rest) =
              >>=-eq-ok (cost_for_target src json_parse stringify number_of outputs t tp)
                (λ cost. loop (add_cost cost b)) (rw (cost_targets, found) at h) in
            cost_targets-SumsUp targets outputs tps (add_cost cost b) c (add_cost-SumsUp cost b up)
              rest
      ]

  -- The total of an estimate that is returned is the sum of the costs of its own rows that are stale and of
  -- a step that calls a model, and it is marked as unpriced exactly where such a row has no cost.
  pub estimate_build_cost-SumsUp :
      (ctx : Context) (w : World) (doc : BuildDoc) (b : BuildCost)
      → estimate_build_cost src json_parse stringify number_of ctx w doc ≡ ok b
      → SumsUp b
  unfolding estimate_build_cost
  estimate_build_cost-SumsUp ctx w doc b h =
      let (plan, _, costed) = >>=-eq-ok (map_err plan_failed (plan_build ctx w doc)) _ h in
      cost_targets-SumsUp _ _ plan.targets no_cost b (refl, refl)
        (map_err-ok render_failed _ costed)
