-- ===== src/Engine/Hash/Tests.antt =====
-- A recipe whose parameters are written in two orders.
use makedown.Base.{lit, text_eq, list_eqb, none, [], ◌∷◌, refl, ◌≡◌}
use makedown.Types.{
  chat, deterministic, worktree, not_required, required, num, str, obj, end, field, Fields,
  RecipeHeader,
}
use makedown.Engine.Hash.{compute_identity_hash}
use makedown.Engine.Hash.Canonical.{
  swapped, same_field, same, same_obj, same_end, chained, compute_identity_hash-SameFields,
}

abbrev inner : Fields
inner = field (lit "b") (num (lit "1")) (field (lit "a") (str []) end)

abbrev header : RecipeHeader
header = record {
  inputs = lit "x" ∷ [];
  step = chat;
  model = none;
  fallback = none;
  route = none;
  system = none;
  params = field (lit "z") (obj inner) (field (lit "y") (num (lit "2")) end);
  output = lit "out";
  cache = deterministic;
  agent_id = none;
  sandbox = worktree;
  approval = not_required;
  transform_script = none;
  over = none;
  schema = none;
}

abbrev sorted_inner : Fields
sorted_inner = field (lit "a") (str []) (field (lit "b") (num (lit "1")) end)

compute_identity_hash-SameFields_example :
    compute_identity_hash
      (λ _. lit "json")
      (λ s. s)
      (lit "h" ∷ [])
      (record header {
        output = lit "elsewhere";
        approval = required;
        params = field (lit "y") (num (lit "2")) (field (lit "z") (obj sorted_inner) end);
      })
      (lit "Body")
      []
    ≡ compute_identity_hash (λ _. lit "json") (λ s. s) (lit "h" ∷ []) header (lit "Body") []
unfolding list_eqb
compute_identity_hash-SameFields_example =
    compute_identity_hash-SameFields (λ _. lit "json") (λ s. s) (lit "h" ∷ []) header (lit "Body")
      [] (lit "elsewhere") required
      (field (lit "y") (num (lit "2")) (field (lit "z") (obj sorted_inner) end))
      (chained header.params (field (lit "y") (num (lit "2")) (field (lit "z") (obj inner) end)) _
        (swapped (lit "z") (lit "y") (obj inner) (num (lit "2")) end refl)
        (same_field (lit "y") (num (lit "2")) (num (lit "2")) _ _ (same (num (lit "2"))) (
          same_field (lit "z") (obj inner) (obj sorted_inner) end end
            (same_obj inner sorted_inner
              (swapped (lit "b") (lit "a") (num (lit "1")) (str []) end refl))
            same_end)))
