-- ===== src/Tenancy/Service/Tests.antt =====
-- A sign-up with its session, and a member of an org with a workspace, each theorem at it.
use makedown.Base.{lit, text_eq, nat_eq, list_eqb, true, [], ◌∷◌, has, trim, index_of, refl, ◌≡◌}
use makedown.Base.Map.{get, set}
use makedown.Tenancy.Rbac.{owner, member, workspace_read, can}
use makedown.Tenancy.Users.{User, find_user_by_email, normalize_email, create_user}
use makedown.Tenancy.Store.{Org, Store, key, create_org, add_member, add_workspace, find_membership}
use makedown.Tenancy.Service.{
  Crypto, Drawn, slugify, create_personal_org, auth_result, open_session, sign_in_new, signup,
  accessible_workspace_ids, authorize, authorize_org, create_workspace,
}
use makedown.Tenancy.Store.Filed.{IsFiled}
use makedown.Tenancy.Service.Reached.{
  no_store, Reached, start, next, org_created, joined, workspace_created, Reached-IsFiled,
}
use makedown.Tenancy.Service.Access.{accessible_workspace_ids-authorize}
use makedown.Tenancy.Service.SignIn.{SessionLasts, signup-SessionLasts}

abbrev crypto : Crypto
crypto = record {
  to_lower_case = λ s. s;
  hash_password = λ p. p;
  verify_password = λ p h. true;
  hash_token = λ t. t;
}

abbrev drawn : Drawn
drawn = record {
  user_id = lit "u";
  org_id = lit "o";
  slug_token = λ _. lit "ab";
  token = lit "secret";
  now = 7;
  timestamp = [];
}

abbrev org : Org
org = record { id = lit "o"; name = lit "a's workspace"; slug = lit "a-ab"; created_at = [] }

abbrev user : User
user = record { id = lit "u"; email = lit "a@b"; password_hash = lit "password"; created_at = [] }

abbrev signed_up : Store
signed_up = open_session crypto drawn (lit "u") (
    add_member (record no_store { users = (lit "u", user) ∷ []; orgs = (lit "o", org) ∷ [] }) []
      (lit "o") (lit "u") owner)

signup-SessionLasts_example : SessionLasts crypto (auth_result crypto drawn user org) signed_up 9
unfolding signup create_user normalize_email find_user_by_email sign_in_new create_personal_org
    create_org slugify trim index_of set
signup-SessionLasts_example =
    signup-SessionLasts crypto drawn (lit "a@b") (lit "password") no_store signed_up
      (auth_result crypto drawn user org) 9 (λ e. cc) refl

abbrev shared_org : Store
shared_org = record no_store {
  orgs = (lit "o", org) ∷ [];
  memberships =
      (
        key (lit "o") (lit "u"),
        record { org_id = lit "o"; user_id = lit "u"; role = member; created_at = [] },
      )
      ∷ [];
  workspaces =
      (
        lit "w",
        record {
          id = lit "w";
          org_id = lit "o";
          slug = lit "w";
          created_by = lit "u";
          created_at = [];
        },
      )
      ∷ [];
}

abbrev with_org : Store
with_org = record no_store { orgs = (lit "o", org) ∷ [] }

abbrev with_member : Store
with_member = record shared_org { workspaces = [] }

-- The org, its member and then the workspace, which the member may create.
shared_org-Reached : Reached shared_org
unfolding create_org add_member create_workspace add_workspace authorize_org find_membership can get
    set list_eqb
shared_org-Reached =
    next with_member shared_org
      (next with_org with_member
        (next no_store with_org start
          (org_created (lit "o") [] (lit "a's workspace") (lit "a-ab") org with_org refl refl))
        (joined [] (lit "o") (lit "u") member refl))
      (workspace_created [] (lit "w") (lit "o") (lit "w") (lit "u")
        (record {
          id = lit "w";
          org_id = lit "o";
          slug = lit "w";
          created_by = lit "u";
          created_at = [];
        })
        shared_org refl refl)

accessible_workspace_ids-authorize_example :
    has (accessible_workspace_ids shared_org (lit "u")) (lit "w")
    ≡ authorize shared_org (lit "u") (lit "w") workspace_read
accessible_workspace_ids-authorize_example =
    accessible_workspace_ids-authorize shared_org (lit "u") (lit "w") shared_org-Reached

Reached-IsFiled_example : IsFiled shared_org
Reached-IsFiled_example = Reached-IsFiled shared_org shared_org-Reached
