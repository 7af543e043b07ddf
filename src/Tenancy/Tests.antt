-- ===== src/Tenancy/Tests.antt =====
-- The limiter on one key, and the roles, each theorem at an input.
use makedown.Base.{
  [], filterb, arith, err, false, is_some, list_eqb, lit, max, min, none, ok, refl, some, suc,
  text_eq, trim, trim_end, trim_start, true, ◌↔◌, ◌∷◌, ◌≡◌, ◌⊎◌,
}
use makedown.Base.Map.{get, values}
use makedown.Tenancy.Rbac.{
  viewer, member, admin, owner, member_manage, org_delete, can, IsRead, can_lem,
}
use makedown.Tenancy.Users.{
  User, Users, duplicate_user, normalize_email, find_user_by_email, create_user,
}
use makedown.Tenancy.Users.Emails.{UniqueEmails, create_user_lem}
use makedown.Tenancy.RateLimit.{LimiterOptions}
use makedown.Tenancy.RateLimit.Limit.{attempts, allowed, allow-limit}
use makedown.Types.{chat}
use makedown.Tenancy.Store.{Store, ProvenanceRow}
use makedown.Tenancy.Analytics.{
  AnalyticsRange, AnalyticsBreakdowns, in_selection, aggregate_provenance_for_org,
}
use makedown.Tenancy.Analytics.Totals.{Totals, AddsUp, aggregate_provenance_for_org-AddsUp}

abbrev options : LimiterOptions
options = record { max_attempts = 2; window_ms = 100 }

allow-limit_example :
    allowed options (lit "k") [] ((5, lit "k") ∷ (6, lit "k") ∷ (7, lit "j") ∷ (8, lit "k") ∷ [])
    ≡ min (suc (attempts (lit "k") ((6, lit "k") ∷ (7, lit "j") ∷ (8, lit "k") ∷ []))) (max 1 2)
unfolding get
allow-limit_example =
    allow-limit options (lit "k") [] 5 ((6, lit "k") ∷ (7, lit "j") ∷ (8, lit "k") ∷ [])
      (λ w e. absurd (ground arith)) (omega arith, (omega arith, (omega arith, tt)))

can_lem_example :
    ((can viewer member_manage ≡ true) ↔ IsRead member_manage)
    × ((can member member_manage ≡ false)
        ↔ ((member_manage ≡ member_manage) ⊎ (member_manage ≡ org_delete)))
    × ((can admin member_manage ≡ false) ↔ (member_manage ≡ org_delete))
    × (can owner member_manage ≡ true)
can_lem_example = can_lem member_manage

abbrev taken_users : Users
taken_users =
    (lit "1", record { id = lit "1"; email = lit "a"; password_hash = []; created_at = [] }) ∷ []

create_user_lem_example :
    ((is_some (find_user_by_email (λ s. s) taken_users (lit "b")) ≡ true)
      × (create_user (λ s. s) taken_users (lit "2") [] (lit "b") []
          ≡ err (duplicate_user (normalize_email (λ s. s) (lit "b")))))
    ⊎ ((find_user_by_email (λ s. s) taken_users (lit "b") ≡ none)
        × (u : User) × (after : Users) × (create_user (λ s. s) taken_users (lit "2") [] (lit "b") []
            ≡ ok (u, after))
        × (find_user_by_email (λ s. s) after (lit "b") ≡ some u)
        × UniqueEmails after)
unfolding normalize_email trim trim_start trim_end get list_eqb
create_user_lem_example =
    create_user_lem (λ s. s) taken_users (lit "2") [] (lit "b") [] refl refl (refl, tt)

abbrev row : ProvenanceRow
row = record {
  id = lit "i";
  workspace_id = lit "w";
  org_id = lit "o";
  target = lit "t";
  step = chat;
  model = none;
  tokens_input = 5;
  tokens_output = 7;
  cost_usd = 11;
  produced_at = lit "2024-05-06T00:00:00Z";
}

abbrev indexed : Store
indexed = record {
  users = [];
  orgs = [];
  memberships = [];
  workspaces = [];
  sessions = [];
  provenance = (lit "k", row) ∷ (lit "l", record row { target = lit "u"; cost_usd = 2 }) ∷ [];
}

abbrev since_may : AnalyticsRange
since_may = record { from = some (lit "2024-05"); to = none }

abbrev summed : AnalyticsBreakdowns
summed = aggregate_provenance_for_org (λ s t. false) indexed (lit "o") since_may

aggregate_provenance_for_org-AddsUp_example :
    Totals summed.totals (filterb (in_selection (lit "o") since_may) (values indexed.provenance))
    × AddsUp summed.totals summed.by_workspace
    × AddsUp summed.totals summed.by_model
    × AddsUp summed.totals summed.by_target
    × AddsUp summed.totals summed.by_day
aggregate_provenance_for_org-AddsUp_example =
    aggregate_provenance_for_org-AddsUp (λ s t. false) indexed (lit "o") since_may
