-- ===== src/Engine/Hash.antt =====
-- packages/engine/src/hash.ts: canonical JSON and the identity of a target. SHA-256 and `JSON.stringify`
-- are arguments.
pub mod Order
pub mod Canonical
mod Tests
use makedown.Base.{
  ℕ, Text, text_eq, text_ltb, lit, Bool, true, false, Option, none, some, or_default, List, [], ◌∷◌,
  ◌++◌, if◌then◌else◌,
}
use makedown.Types.{
  StepType, chat, agent, transform, eval, map_step, Sandbox, worktree, container, no_sandbox,
  RoutePolicy, strict, cost_aware, CachePolicy, deterministic, stochastic, always, Json, null, num,
  str, arr, obj, bool, Items, nil, cons, Fields, end, field, RecipeHeader,
}
use makedown.Format.Policy.{decimal}

-- A key among sorted ones.
unfoldable pub insert_field : Text → Json → Fields → Fields
insert_field k v end = field k v end
insert_field k v (field j w fs) =
    let rest = insert_field k v fs in
    if text_ltb j k then field j w rest else field k v (field j w fs)

abbrev mutual
  pub sort_json : Json → Json
  sort_json null = null
  sort_json (bool b) = bool b
  sort_json (num n) = num n
  sort_json (str s) = str s
  sort_json (arr items) = arr (sort_items items)
  sort_json (obj fields) = obj (sort_fields fields)

  pub sort_items : Items → Items
  sort_items nil = nil
  sort_items (cons v items) = cons (sort_json v) (sort_items items)

  pub sort_fields : Fields → Fields
  sort_fields end = end
  sort_fields (field k v fields) = insert_field k (sort_json v) (sort_fields fields)

abbrev pub texts : List Text → Items
texts [] = nil
texts (t ∷ ts) = cons (str t) (texts ts)

abbrev step_text : StepType → Text
step_text chat = lit "chat"
step_text agent = lit "agent"
step_text transform = lit "transform"
step_text eval = lit "eval"
step_text map_step = lit "map"

abbrev sandbox_text : Sandbox → Text
sandbox_text worktree = lit "worktree"
sandbox_text container = lit "container"
sandbox_text no_sandbox = lit "none"

abbrev route_text : RoutePolicy → Text
route_text strict = lit "strict"
route_text cost_aware = lit "cost-aware"

abbrev cache_json : CachePolicy → Json
cache_json deterministic = obj (field (lit "kind") (str (lit "deterministic")) end)
cache_json always = obj (field (lit "kind") (str (lit "always")) end)
cache_json (stochastic n) =
    obj (field (lit "kind") (str (lit "stochastic")) (field (lit "n") (num (decimal n)) end))

-- `x ?? null`
abbrev or_null {ℓ} : {A : Type ℓ} → (A → Json) → Option A → Json
or_null f none = null
or_null f (some a) = f a

abbrev pub normalize_header : RecipeHeader → Json
normalize_header h = obj (
    field (lit "inputs") (arr (texts h.inputs)) (
      field (lit "step") (str (step_text h.step)) (
        field (lit "fallback") (or_null (λ models. arr (texts models)) h.fallback) (
          field (lit "route") (or_null (λ r. str (route_text r)) h.route) (
            field (lit "system") (or_null str h.system) (
              field (lit "cache") (cache_json h.cache) (
                field (lit "agent") (or_null str h.agent_id) (
                  field (lit "sandbox") (str (sandbox_text h.sandbox)) (
                    field (lit "transform") (or_null str h.transform_script) (
                      field (lit "over") (or_null str h.over)
                        (field (lit "schema") (or_null (λ s. s) h.schema) end)))))))))))

-- Between two segments: a line of one space.
abbrev pub separator : Text
separator = 10 ∷ 32 ∷ 10 ∷ []

abbrev pub join_segments : List Text → Text
join_segments [] = []
join_segments (s ∷ ss) =
    let rest = join_segments ss in elim ss [ [] ↦ s | _ ∷ _ ↦ s ++ separator ++ rest ]

module _ (stringify : Json → Text) where
  unfoldable pub canonical_json : Json → Text
  canonical_json value = stringify (sort_json value)

  -- The last segment is there only for auxiliary content.
  abbrev pub aux_segment : List Text → List Text
  aux_segment [] = []
  aux_segment (h ∷ hs) = (lit "aux:" ++ canonical_json (arr (texts (h ∷ hs)))) ∷ []

  unfoldable pub compute_identity_hash :
      (Text → Text) → List Text → RecipeHeader → Text → List Text → Text
  compute_identity_hash sha256 input_hashes header body aux_hashes = sha256 (
      join_segments (
        canonical_json (arr (texts input_hashes))
        ∷ canonical_json (normalize_header header)
        ∷ body
        ∷ or_default header.model []
        ∷ canonical_json (obj header.params)
        ∷ aux_segment aux_hashes))
