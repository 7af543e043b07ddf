-- ===== src/Engine/Plan/Ordering.antt =====
-- packages/engine/src/build.ts, planBuild: the targets of a plan stand in the order of the graph.
use makedown.Base.{
  filterb, is_some, none, Text, text_eq, true, false, some, List, [], ◌∷◌, ◌++◌, append_assoc,
  append-nil, map, All, All-of, has, ok, >>=-eq-ok, ok-injective, ◌≡◌, refl, ap, sym, subst, ◌∙◌,
  arith, text_eq, inl, inr, eq_refl, Option-cases,
}
use makedown.Base.Map.{Map, get, set}
use makedown.Types.{TargetBlock, BuildDoc}
use makedown.Graph.{GraphNode, deps_of}
use makedown.Graph.Order.{DepsFirst}
use makedown.Graph.Document.{build_graph_lem}
use makedown.Engine.World.{World}
use makedown.Engine.Context.{Context}
use makedown.Engine.Plan.{
  TargetPlan, BuildPlan, by_name, is_stale, plan_target, plan_targets, plan_build,
}

abbrev pub names_of : List TargetPlan → List Text
names_of tps = map (λ tp. tp.name) tps

-- No name stands twice, and none has a dependency at its own place or behind it.
abbrev pub Backward : Map Text GraphNode → List Text → Type 0
Backward nodes [] = Unit
Backward nodes (name ∷ rest) =
    (has rest name ≡ false)
    × All (λ d. has (name ∷ rest) d ≡ false) (deps_of nodes name)
    × Backward nodes rest

module _ (nodes : Map Text GraphNode) where
  -- What was seen does not come again.
  DepsFirst-new :
      (seen xs : List Text) (d : Text)
      → DepsFirst nodes seen xs
      → has seen d ≡ true
      → has xs d ≡ false
  DepsFirst-new seen [] d o h = refl
  DepsFirst-new seen (x ∷ xs) d (new, deps, o) h =
      ground (arith, DepsFirst-new (x ∷ seen) xs d o, text_eq.beq_iff x d)

  pub DepsFirst-Backward : (seen xs : List Text) → DepsFirst nodes seen xs → Backward nodes xs
  DepsFirst-Backward seen [] o = tt
  DepsFirst-Backward seen (x ∷ xs) (new, deps, o) = (
    DepsFirst-new (x ∷ seen) xs x o (ground (arith, eq_refl x)),
    All-of _ _ (λ d h. DepsFirst-new seen (x ∷ xs) d (new, deps, o) h) (deps_of nodes x) deps,
    DepsFirst-Backward (x ∷ seen) xs o,
  )

-- What a plan says of its targets: the order, the names, and whether each is stale.
pub record Planned (nodes : Map Text GraphNode) (targets : Map Text TargetBlock) (w : World)
    (names : List Text) (plans : List TargetPlan) : Type 0 where
  pub backward : Backward nodes (names_of plans)
  pub named : (m : Text) → has names m ≡ false → has (names_of plans) m ≡ false
  pub in_order : names_of plans ≡ filterb (λ n. is_some (get targets n)) names
  pub judged :
      All
        (λ tp.
          (t : TargetBlock) × (get targets tp.name ≡ some t) × (tp.stale ≡ is_stale t tp.id w.cas))
        plans

module _ (ctx : Context) (w : World) (targets : Map Text TargetBlock)
    (nodes : Map Text GraphNode) where
  plan_target_lem :
      (ids : Map Text Text) (name : Text) (t : TargetBlock) (tp : TargetPlan)
      → plan_target ctx w ids name t ≡ ok tp
      → (tp.name ≡ name) × (tp.stale ≡ is_stale t tp.id w.cas)
  unfolding plan_target
  plan_target_lem ids name t tp h = ground arith

  -- The loop appends to `plans` what it plans for the rest of the order.
  abbrev Appended : List Text → List TargetPlan → List TargetPlan → Type 0
  Appended names plans plans' =
      (new : List TargetPlan) × (plans' ≡ plans ++ new) × Planned nodes targets w names new

  planned-cons :
      (name : Text) (names : List Text) (t : TargetBlock) (tp : TargetPlan)
      (plans plans' : List TargetPlan)
      → Backward nodes (name ∷ names)
      → get targets name ≡ some t
      → (tp.name ≡ name) × (tp.stale ≡ is_stale t tp.id w.cas)
      → Appended names (plans ++ tp ∷ []) plans'
      → Appended (name ∷ names) plans plans'
  planned-cons name names t tp plans plans' (once, behind, b) found (e, judged) (new, added, rest) =
      (
        tp ∷ new,
        added ∙ append_assoc plans (tp ∷ []) new,
        record {
          backward = rw e (
            rest.named name once,
            All-of _ _ (λ d far. ground (arith, rest.named d)) (deps_of nodes name) behind,
            rest.backward,
          );
          named = λ m far. rw e (ground (arith, rest.named m));
          in_order = rw e (rw found (ap (λ l. name ∷ l) rest.in_order));
          judged = ((t, rw e found, judged), rest.judged);
        },
      )

  planned-skip :
      (name : Text) (names : List Text) (plans plans' : List TargetPlan)
      → get targets name ≡ none
      → Appended names plans plans'
      → Appended (name ∷ names) plans plans'
  planned-skip name names plans plans' missing (new, added, rest) = (
    new,
    added,
    record {
      backward = rest.backward;
      named = λ m far. rest.named m (ground arith);
      in_order = rw missing rest.in_order;
      judged = rest.judged;
    },
  )

  plan_targets-Planned :
      (names : List Text) (ids ids' : Map Text Text) (plans plans' : List TargetPlan)
      → Backward nodes names
      → plan_targets ctx w targets names ids plans ≡ ok (ids', plans')
      → Appended names plans plans'
  unfolding plan_targets
  plan_targets-Planned [] ids ids' plans plans' b h = (
    [],
    sym (ap (λ q. q.1) (ok-injective h)) ∙ sym (append-nil plans),
    record { backward = tt; named = λ m far. refl; in_order = refl; judged = tt },
  )
  plan_targets-Planned (name ∷ names) ids ids' plans plans' b h =
      elim (Option-cases (get targets name)) [
        | inl missing ↦
            planned-skip name names plans plans' missing (
              plan_targets-Planned names ids ids' plans plans' b.2
                (rw (plan_targets, missing) at h))
        | inr (t, found) ↦
            let (tp, planned, rest) =
              >>=-eq-ok (plan_target ctx w ids name t)
                (λ tp. plan_targets ctx w targets names (set ids name tp.id) (plans ++ tp ∷ []))
                (rw (plan_targets, found) at h) in
            planned-cons name names t tp plans plans' b found
              (plan_target_lem ids name t tp planned)
              (plan_targets-Planned names (set ids name tp.id) ids' (plans ++ tp ∷ []) plans' b.2
                rest)
      ]

pub plan_build-Planned :
    (ctx : Context) (w : World) (doc : BuildDoc) (plan : BuildPlan)
    → plan_build ctx w doc ≡ ok plan
    → Planned plan.graph.nodes (by_name doc.targets []) w plan.graph.order plan.targets
unfolding plan_build
plan_build-Planned ctx w doc plan h = elim ((build_graph_lem doc).1) [
  | inr (names, e, _) ↦ absurd (ground arith)
  | inl (g, e, _, sorted, _) ↦
      let ((ids, plans), planned, last) =
        >>=-eq-ok (plan_targets ctx w (by_name doc.targets []) g.order [] [])
          (λ (ids, plans). ok (record { graph = g; targets = plans; ids = ids })) (rw e at h) in
      let (new, added, rest) =
        plan_targets-Planned ctx w (by_name doc.targets []) g.nodes g.order [] ids [] plans
          (DepsFirst-Backward g.nodes [] g.order sorted) planned in
      subst (λ p. Planned p.graph.nodes (by_name doc.targets []) w p.graph.order p.targets)
        (ok-injective last) (rw added rest)
]
