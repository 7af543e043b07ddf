-- ===== src/Engine/Plan.antt =====
-- packages/engine/src/build.ts: planning. Inputs are resolved to hashes, a target's identity is
-- computed from them, and a target is stale where its artifact is not in the store.
pub mod Ordering
use makedown.Base.{
  ℕ, Text, text_eq, lit, Bool, true, false, not, Option, none, some, List, [], ◌∷◌, ◌++◌, map, ltb,
  if◌then◌else◌, Result, ok, err, ◌>>=◌, map_err,
}
use makedown.Base.Map.{Map, get, set}
use makedown.Types.{
  CachePolicy, deterministic, stochastic, always, StepType, transform, InputKind, source, target,
  ResolvedInput, TargetBlock, BuildDoc,
}
use makedown.Refs.{bare_ref}
use makedown.Graph.{BuildGraph, build_graph}
use makedown.Engine.Cas.{LocalCas, Bytes, has_object, count_samples}
use makedown.Engine.World.{World, BuildError, graph_error, path_escape, failed}
use makedown.Engine.Context.{Context}

pub record TargetPlan : Type 0 where
  pub name : Text
  pub id : Text
  pub stale : Bool
  pub inputs : List ResolvedInput

pub record BuildPlan : Type 0 where
  pub graph : BuildGraph
  pub targets : List TargetPlan
  pub ids : Map Text Text

-- `new Map(doc.targets.map((t) => [t.name, t]))`
unfoldable pub by_name : List TargetBlock → Map Text TargetBlock → Map Text TargetBlock
by_name [] m = m
by_name (t ∷ ts) m = by_name ts (set m t.name t)

unfoldable pub is_stale : TargetBlock → Text → LocalCas → Bool
is_stale t id cas = elim t.header.cache [
  | always ↦ true
  | stochastic n ↦ ltb (count_samples cas id) n
  | deterministic ↦ not (has_object cas id)
]

abbrev pub read_file : World → Text → Result BuildError Bytes
read_file w path = elim (get w.files path) [ none ↦ err (failed path) | some bytes ↦ ok bytes ]

-- The truth value of an optional string: an empty one counts as absent.
abbrev pub non_empty : Option Text → Option Text
non_empty none = none
non_empty (some []) = none
non_empty (some (c ∷ s)) = some (c ∷ s)

module _ (ctx : Context) (w : World) where
  unfoldable pub resolve_input : Map Text Text → Text → Result BuildError ResolvedInput
  resolve_input ids input =
      let ref = bare_ref input in
      elim (get ids ref) [
        | some dep_id ↦ ok (record { ref = ref; kind = target; hash = dep_id; imported = none })
        | none ↦ ctx.confine w ref >>= λ abs. read_file w abs >>= λ bytes.
            if ctx.is_importable ref
            then ok (record {
              ref = ref;
              kind = source;
              hash = (ctx.input_hash bytes ref).0;
              imported = (ctx.input_hash bytes ref).1;
            })
            else ok (record { ref = ref; kind = source; hash = ctx.sha256 bytes; imported = none })
      ]

  unfoldable pub resolve_inputs : Map Text Text → List Text → Result BuildError (List ResolvedInput)
  resolve_inputs ids [] = ok []
  resolve_inputs ids (input ∷ inputs) =
      resolve_input ids input >>= λ r. resolve_inputs ids inputs >>= λ rs. ok (r ∷ rs)

  abbrev missing_script : List Text
  missing_script = lit "sha256:missing-transform-script" ∷ []

  -- A path that leaves the workspace is an error; any other failure to read is a missing script.
  unfoldable pub aux_hashes_for : TargetBlock → Result BuildError (List Text)
  aux_hashes_for t = elim t.header.step [
    | transform ↦ elim (non_empty t.header.transform_script) [
      | none ↦ ok []
      | some script ↦ elim (ctx.confine w script) [
        | err (path_escape p) ↦ err (path_escape p)
        | err _ ↦ ok missing_script
        | ok abs ↦ elim (get w.files abs) [
          | none ↦ ok missing_script
          | some bytes ↦ ok (ctx.sha256 bytes ∷ [])
        ]
      ]
    ]
    | _ ↦ ok []
  ]

  unfoldable pub plan_target : Map Text Text → Text → TargetBlock → Result BuildError TargetPlan
  plan_target ids name t = resolve_inputs ids t.header.inputs >>= λ inputs.
      aux_hashes_for t >>= λ aux.
      let id = ctx.identity (map (λ i. i.hash) inputs) t.header t.body aux in
      ok (record { name = name; id = id; stale = is_stale t id w.cas; inputs = inputs })

  -- The loop over the order; a name without a target is passed over.
  unfoldable pub plan_targets :
      Map Text TargetBlock
      → List Text
      → Map Text Text
      → List TargetPlan
      → Result BuildError (Map Text Text × List TargetPlan)
  plan_targets targets [] ids plans = ok (ids, plans)
  plan_targets targets (name ∷ names) ids plans = elim (get targets name) [
    | none ↦ plan_targets targets names ids plans
    | some t ↦ plan_target ids name t >>= λ tp.
        plan_targets targets names (set ids name tp.id) (plans ++ tp ∷ [])
  ]

  unfoldable pub plan_build : BuildDoc → Result BuildError BuildPlan
  plan_build doc = map_err graph_error (build_graph doc) >>= λ graph.
      plan_targets (by_name doc.targets []) graph.order [] [] >>= λ (ids, plans).
      ok (record { graph = graph; targets = plans; ids = ids })
