-- ===== src/Providers/ModelRef.antt =====
-- packages/providers/src/model-ref.ts: `provider:model` references.
use makedown.Base.{
  Text, text_eq, lit, zero, suc, none, some, List, [], ◌∷◌, take, drop, has, index_of,
  if◌then◌else◌,
}

abbrev pub known_providers : List Text
known_providers = lit "anthropic" ∷ lit "openai" ∷ []

pub record ModelRef : Type 0 where
  pub provider : Text
  pub model : Text

unfoldable pub parse_model_ref : Text → Text → ModelRef
unfolding index_of
parse_model_ref raw default_provider = elim (index_of b':' raw) [
  | some (suc before) ↦
      let prefix = take (suc before) raw in
      if has known_providers prefix
      then record { provider = prefix; model = drop (suc (suc before)) raw }
      else record { provider = default_provider; model = raw }
  | some zero ↦ record { provider = default_provider; model = raw }
  | none ↦ record { provider = default_provider; model = raw }
]
