-- ===== src/Sharing/Service.antt =====
-- apps/server/src/sharing/service.ts. The random token and id, and the clock, are arguments.
use makedown.Base.{
  ℕ, ◌+◌, ◌*◌, min, Text, text_eq, lit, Bool, false, ◌||◌, Option, none, some, List, [], ◌∷◌, ◌++◌,
  map, leb, is_some, if◌then◌else◌,
}
use makedown.Sharing.{
  Share, ShareSummary, Shares, create, find_by_token_hash, find_by_id, list_for_workspace, revoke,
}

abbrev pub ms_per_day : ℕ
ms_per_day = 24 * 60 * 60 * 1000

abbrev pub max_expiry_days : ℕ
max_expiry_days = 365

-- A number of days: undefined, zero, negative and not-a-number are one case; a positive number,
-- which may be fractional, is given by its floor.
pub data Days : Type 0 where
  no_expiry : Days
  positive : ℕ → Days

pub record CreateShareArgs : Type 0 where
  pub workspace_id : Text
  pub target : Text
  pub include_provenance : Bool
  pub expires_in_days : Days

pub record CreatedShare : Type 0 where
  pub id : Text
  pub token : Text
  pub path : Text
  pub expires_at : Option ℕ

unfoldable pub resolve_expiry : Days → ℕ → Option ℕ
resolve_expiry no_expiry now = none
resolve_expiry (positive floor) now = some (now + min floor max_expiry_days * ms_per_day)

unfoldable pub is_dead : Share → ℕ → Bool
is_dead share now =
    is_some share.revoked_at
    || elim share.expires_at [ none ↦ false | some expires_at ↦ leb expires_at now ]

-- Newest first: the stable sort of `listShares` by descending creation time.
abbrev pub insert_newest : Share → List Share → List Share
insert_newest s [] = s ∷ []
insert_newest s (t ∷ ts) =
    let rest = insert_newest s ts in if leb t.created_at s.created_at then s ∷ t ∷ ts else t ∷ rest

abbrev pub sort_newest : List Share → List Share
sort_newest [] = []
sort_newest (s ∷ ss) = insert_newest s (sort_newest ss)

abbrev pub summary : Share → ShareSummary
summary s = record {
  id = s.id;
  target = s.target;
  include_provenance = s.include_provenance;
  created_at = s.created_at;
  expires_at = s.expires_at;
  revoked = is_some s.revoked_at;
}

module _ (hash_token : Text → Text) where
  unfoldable pub create_share : CreateShareArgs → Text → Text → ℕ → Shares → CreatedShare × Shares
  unfolding resolve_expiry create
  create_share args token id now shares =
      let expires_at = resolve_expiry args.expires_in_days now in
      (
        record { id = id; token = token; path = lit "/s/" ++ token; expires_at = expires_at },
        create shares (record {
          id = id;
          token_hash = hash_token token;
          workspace_id = args.workspace_id;
          target = args.target;
          include_provenance = args.include_provenance;
          created_at = now;
          expires_at = expires_at;
          revoked_at = none;
        }),
      )

  unfoldable pub resolve_share : Shares → Text → ℕ → Option Share
  unfolding is_dead find_by_token_hash
  resolve_share shares [] now = none
  resolve_share shares (c ∷ token) now = elim (find_by_token_hash shares (hash_token (c ∷ token))) [
    | none ↦ none
    | some share ↦ if is_dead share now then none else some share
  ]

unfoldable pub list_shares : Shares → Text → List ShareSummary
unfolding list_for_workspace
list_shares shares workspace_id = map summary (sort_newest (list_for_workspace shares workspace_id))

unfoldable pub workspace_for_share : Shares → Text → Option Text
unfolding find_by_id
workspace_for_share shares id = elim (find_by_id shares id) [
  | none ↦ none
  | some share ↦ some share.workspace_id
]

unfoldable pub revoke_share : Shares → Text → ℕ → Shares
unfolding revoke
revoke_share shares id now = revoke shares id now
