-- ===== src/Tenancy/Store.antt =====
-- apps/server/src/tenancy/memory-store.ts: orgs, members, workspaces, sessions and the provenance index.
-- Ids and the clock's value are arguments. A time that the code compares is a number of milliseconds,
-- and a cost is in whole numbers of 10 ^ -12 dollars.
pub mod Filed
use makedown.Base.{
  ℕ, Text, text_eq, Bool, true, false, ◌&&◌, Option, none, some, List, [], ◌∷◌, ◌++◌, filterb, any,
  map, ◌==◌, is_some, if◌then◌else◌, Result, ok, err,
}
use makedown.Base.Map.{Map, get, set, delete, values}
use makedown.Types.{StepType}
use makedown.Tenancy.Rbac.{Role}
use makedown.Tenancy.Users.{Users}

pub record Org : Type 0 where
  pub id : Text
  pub name : Text
  pub slug : Text
  pub created_at : Text

pub record Membership : Type 0 where
  pub org_id : Text
  pub user_id : Text
  pub role : Role
  pub created_at : Text

pub record Workspace : Type 0 where
  pub id : Text
  pub org_id : Text
  pub slug : Text
  pub created_by : Text
  pub created_at : Text

pub record Session : Type 0 where
  pub token_hash : Text
  pub user_id : Text
  pub created_at : Text
  pub expires_at : ℕ

pub record ProvenanceRow : Type 0 where
  pub id : Text
  pub workspace_id : Text
  pub org_id : Text
  pub target : Text
  pub step : StepType
  pub model : Option Text
  pub tokens_input : ℕ
  pub tokens_output : ℕ
  pub cost_usd : ℕ
  pub produced_at : Text

pub record Store : Type 0 where
  pub users : Users
  pub orgs : Map Text Org
  pub memberships : Map Text Membership
  pub workspaces : Map Text Workspace
  pub sessions : Map Text Session
  pub provenance : Map Text ProvenanceRow

pub data DuplicateError : Type 0 where
  duplicate_slug duplicate_workspace : Text → DuplicateError

-- The code of U+0000 stands between the two parts.
abbrev pub key : Text → Text → Text
key a b = a ++ 0 ∷ b

unfoldable pub create_org : Store → Text → Text → Text → Text → Result DuplicateError (Org × Store)
create_org s id now name slug =
    if any (λ (o : Org). o.slug == slug) (values s.orgs)
    then err (duplicate_slug slug)
    else let org : Org = record { id = id; name = name; slug = slug; created_at = now } in
      ok (org, record s { orgs = set s.orgs id org })

unfoldable pub add_member : Store → Text → Text → Text → Role → Store
add_member s now org_id user_id role = record s {
  memberships =
      set s.memberships (key org_id user_id)
        (record { org_id = org_id; user_id = user_id; role = role; created_at = now });
}

unfoldable pub find_membership : Store → Text → Text → Option Membership
find_membership s org_id user_id = get s.memberships (key org_id user_id)

unfoldable pub list_members : Store → Text → List Membership
list_members s org_id = filterb (λ m. m.org_id == org_id) (values s.memberships)

-- The orgs of a list of ids, without those that are missing.
abbrev pub orgs_of : Map Text Org → List Text → List Org
orgs_of orgs [] = []
orgs_of orgs (id ∷ ids) =
    let rest = orgs_of orgs ids in elim (get orgs id) [ none ↦ rest | some o ↦ o ∷ rest ]

unfoldable pub list_orgs_for_user : Store → Text → List Org
list_orgs_for_user s user_id =
    orgs_of s.orgs
      (map (λ m. m.org_id) (filterb (λ m. m.user_id == user_id) (values s.memberships)))

unfoldable pub update_member_role : Store → Text → Text → Role → Store
update_member_role s org_id user_id role = elim (get s.memberships (key org_id user_id)) [
  | none ↦ s
  | some existing ↦ record s {
    memberships = set s.memberships (key org_id user_id) (record existing { role = role });
  }
]

unfoldable pub remove_member : Store → Text → Text → Store
remove_member s org_id user_id = record s {
  memberships = delete s.memberships (key org_id user_id);
}

unfoldable pub add_workspace :
    Store → Text → Text → Text → Text → Text → Result DuplicateError (Workspace × Store)
add_workspace s now id org_id slug created_by =
    if is_some (get s.workspaces id)
    then err (duplicate_workspace id)
    else let ws : Workspace = record {
      id = id;
      org_id = org_id;
      slug = slug;
      created_by = created_by;
      created_at = now;
    } in
      ok (ws, record s { workspaces = set s.workspaces id ws })

unfoldable pub find_workspace : Store → Text → Option Workspace
find_workspace s id = get s.workspaces id

unfoldable pub list_workspaces_for_org : Store → Text → List Workspace
list_workspaces_for_org s org_id = filterb (λ w. w.org_id == org_id) (values s.workspaces)

unfoldable pub create_session : Store → Text → Text → Text → ℕ → Store
create_session s now token_hash user_id expires_at = record s {
  sessions = set s.sessions token_hash (record {
    token_hash = token_hash;
    user_id = user_id;
    created_at = now;
    expires_at = expires_at;
  });
}

unfoldable pub find_session : Store → Text → Option Session
find_session s token_hash = get s.sessions token_hash

unfoldable pub delete_session : Store → Text → Store
delete_session s token_hash = record s { sessions = delete s.sessions token_hash }

unfoldable pub upsert_provenance : Store → ProvenanceRow → Store
upsert_provenance s row = record s {
  provenance = set s.provenance (key row.workspace_id row.id) row;
}

unfoldable pub list_provenance_for_workspace : Store → Text → List ProvenanceRow
list_provenance_for_workspace s workspace_id =
    filterb (λ r. r.workspace_id == workspace_id) (values s.provenance)

abbrev pub without_workspace : Text → Map Text ProvenanceRow → Map Text ProvenanceRow
without_workspace workspace_id [] = []
without_workspace workspace_id ((k, row) ∷ rows) =
    let rest = without_workspace workspace_id rows in
    if row.workspace_id == workspace_id then rest else (k, row) ∷ rest

unfoldable pub delete_provenance_for_workspace : Store → Text → Store
delete_provenance_for_workspace s workspace_id = record s {
  provenance = without_workspace workspace_id s.provenance;
}
