-- ===== src/Sharing.antt =====
-- apps/server/src/sharing: revocable public links to built artifacts. `types.ts` and the in-memory
-- store stand here, and the service in `Sharing/Service`. A time, where the source keeps its ISO
-- text, is its milliseconds: `Date.parse` reads back what `toISOString` prints.
mod Tests
pub mod Service
pub mod Laws
pub mod Revocation
use makedown.Base.{
  ℕ, Text, text_eq, Bool, true, false, Option, none, some, List, [], ◌∷◌, filterb, find, ◌==◌,
  is_some, if◌then◌else◌,
}
use makedown.Base.Map.{Map, get, set, values}

pub record Share : Type 0 where
  pub id : Text
  pub token_hash : Text
  pub workspace_id : Text
  pub target : Text
  pub include_provenance : Bool
  pub created_at : ℕ
  pub expires_at : Option ℕ
  pub revoked_at : Option ℕ

pub record ShareSummary : Type 0 where
  pub id : Text
  pub target : Text
  pub include_provenance : Bool
  pub created_at : ℕ
  pub expires_at : Option ℕ
  pub revoked : Bool

abbrev pub Shares : Type 0
Shares = Map Text Share

unfoldable pub create : Shares → Share → Shares
create shares input = set shares input.id (record input { revoked_at = none })

unfoldable pub find_by_token_hash : Shares → Text → Option Share
find_by_token_hash shares h = find (λ s. s.token_hash == h) (values shares)

unfoldable pub find_by_id : Shares → Text → Option Share
find_by_id shares id = get shares id

unfoldable pub list_for_workspace : Shares → Text → List Share
list_for_workspace shares w = filterb (λ s. s.workspace_id == w) (values shares)

-- The first revocation stays.
unfoldable pub revoke : Shares → Text → ℕ → Shares
revoke shares id at = elim (get shares id) [
  | none ↦ shares
  | some existing ↦
      if is_some existing.revoked_at
      then shares
      else set shares id (record existing { revoked_at = some at })
]
