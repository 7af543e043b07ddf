-- ===== src/Tenancy/Service.antt =====
-- apps/server/src/tenancy/service.ts: TenancyService over the store. scrypt, the token hash and the
-- platform's `toLowerCase` are arguments, and so are the ids, tokens and times that it draws.
pub mod Reached
pub mod Access
pub mod SignIn
mod Tests
use makedown.Base.{
  ℕ, zero, suc, ◌+◌, ◌*◌, Text, text_eq, nat_eq, lit, Bool, true, false, not, ◌&&◌, ◌||◌, ◌==◌,
  Option, none, some, List, [], ◌∷◌, ◌++◌, map, length, take, has, ltb, leb, index_of, is_some,
  if◌then◌else◌, Result, ok, err,
}
use makedown.Base.Map.{Map, get}
use makedown.Tenancy.Rbac.{Role, owner, Action, workspace_create, can}
use makedown.Tenancy.Users.{User, StoreError, find_user_by_email, find_user_by_id, create_user}
use makedown.Tenancy.Store.{
  Org, Membership, Workspace, Session, ProvenanceRow, Store, DuplicateError, create_org, add_member,
  find_membership, list_orgs_for_user, add_workspace, find_workspace, list_workspaces_for_org,
  create_session, find_session, delete_session, upsert_provenance,
}

abbrev pub min_password_length : ℕ
min_password_length = 8

-- 30 days
abbrev pub session_ttl_ms : ℕ
session_ttl_ms = 30 * 24 * 60 * 60 * 1000

abbrev pub org_slug_retries : ℕ
org_slug_retries = 5

pub data ServiceError : Type 0 where
  password_too_short : ServiceError
  user_exists : StoreError → ServiceError
  no_slug : ServiceError
  not_authorized : ServiceError
  workspace_exists : DuplicateError → ServiceError
  no_such_user : Text → ServiceError

pub record Principal : Type 0 where
  pub user_id : Text
  pub email : Text

pub record AuthResult : Type 0 where
  pub user : Principal
  pub org : Org
  pub token : Text
  pub expires_at : ℕ

-- The platform and the cryptography that the service calls.
pub record Crypto : Type 0 where
  pub to_lower_case : Text → Text
  pub hash_password : Text → Text
  pub verify_password : Text → Text → Bool
  pub hash_token : Text → Text

-- What one call draws: fresh ids, session tokens and the time, as a number and as text.
pub record Drawn : Type 0 where
  pub user_id : Text
  pub org_id : Text
  pub slug_token : ℕ → Text
  pub token : Text
  pub now : ℕ
  pub timestamp : Text

abbrev pub is_slug_char : ℕ → Bool
is_slug_char c = leb 97 c && leb c 122 || leb 48 c && leb c 57

-- `replace(/[^a-z0-9]+/g, "-")`; the flag tells whether the last code unit was replaced.
abbrev pub dash_runs : Bool → Text → Text
dash_runs dashed [] = []
dash_runs dashed (c ∷ s) =
    let kept = dash_runs false s in
    let more = dash_runs true s in
    if is_slug_char c then c ∷ kept else if dashed then more else b'-' ∷ more

abbrev pub strip_leading : Text → Text
strip_leading [] = []
strip_leading (c ∷ s) = let rest = strip_leading s in if c == b'-' then rest else c ∷ s

abbrev pub strip_trailing : Text → Text
strip_trailing [] = []
strip_trailing (c ∷ s) =
    let rest = strip_trailing s in
    elim rest [ [] ↦ if c == b'-' then [] else c ∷ [] | d ∷ more ↦ c ∷ d ∷ more ]

abbrev or_org : Text → Text
or_org [] = lit "org"
or_org (c ∷ s) = c ∷ s

abbrev slug_chars : Text → Text
slug_chars [] = []
slug_chars (c ∷ s) = let rest = slug_chars s in if is_slug_char c then c ∷ rest else rest

-- `email.split("@")[0]`
abbrev pub local_part : Text → Text
local_part email = elim (index_of b'@' email) [ none ↦ email | some at ↦ take at email ]

module _ (crypto : Crypto) where
  unfoldable pub slugify : Text → Text
  slugify value =
      or_org
        (take 32 (strip_trailing (strip_leading (dash_runs false (crypto.to_lower_case value)))))

  -- `left` attempts may follow; a slug that is taken is drawn again.
  unfoldable pub create_personal_org :
      ℕ → ℕ → Drawn → Text → Store → Result ServiceError (Org × Store)
  create_personal_org zero attempt d email s = err no_slug
  create_personal_org (suc left) attempt d email s =
      let base = slugify (local_part email) in
      let suffix = slug_chars (crypto.to_lower_case (take 6 (d.slug_token attempt))) in
      let retry = create_personal_org left (suc attempt) d email s in
      elim (create_org s d.org_id d.timestamp (local_part email ++ lit "'s workspace")
        (base ++ b'-' ∷ suffix)) [ ok created ↦ ok created | err _ ↦ retry ]

  unfoldable pub open_session : Drawn → Text → Store → Store
  open_session d user_id s =
      create_session s d.timestamp (crypto.hash_token d.token) user_id (d.now + session_ttl_ms)

  abbrev pub auth_result : Drawn → User → Org → AuthResult
  auth_result d user org = record {
    user = record { user_id = user.id; email = user.email };
    org = org;
    token = d.token;
    expires_at = d.now + session_ttl_ms;
  }

  -- The last part of `signup`, from the store with the new user.
  unfoldable pub sign_in_new : Drawn → Text → User → Store → Result ServiceError AuthResult × Store
  sign_in_new d email user s = elim (create_personal_org org_slug_retries 0 d email s) [
    | err e ↦ (err e, s)
    | ok (org, s') ↦ (
      ok (auth_result d user org),
      open_session d user.id (add_member s' d.timestamp org.id user.id owner),
    )
  ]

  unfoldable pub signup : Drawn → Text → Text → Store → Result ServiceError AuthResult × Store
  signup d email password s =
      if ltb (length password) min_password_length
      then (err password_too_short, s)
      else elim (create_user crypto.to_lower_case s.users d.user_id d.timestamp email
          (crypto.hash_password password)) [
            | err e ↦ (err (user_exists e), s)
            | ok (user, users) ↦ sign_in_new d email user (record s { users = users })
          ]

  -- A user's first org, and a session for the user.
  unfoldable pub login : Drawn → Text → Text → Store → Option AuthResult × Store
  login d email password s = elim (find_user_by_email crypto.to_lower_case s.users email) [
    | none ↦ (none, s)
    | some user ↦
        if crypto.verify_password password user.password_hash
        then elim (list_orgs_for_user s user.id) [
          | [] ↦ (none, s)
          | org ∷ _ ↦ (some (auth_result d user org), open_session d user.id s)
        ]
        else (none, s)
  ]

  unfoldable pub logout : Text → Store → Store
  logout token s = delete_session s (crypto.hash_token token)

  -- The principal of a session that is live; one that has expired is deleted.
  abbrev pub principal_of : Store → Session → ℕ → Option Principal × Store
  principal_of s session now =
      if leb session.expires_at now
      then (none, delete_session s session.token_hash)
      else elim (find_user_by_id s.users session.user_id) [
        | none ↦ (none, s)
        | some user ↦ (some (record { user_id = user.id; email = user.email }), s)
      ]

  unfoldable pub authenticate : Text → ℕ → Store → Option Principal × Store
  authenticate [] now s = (none, s)
  authenticate (c ∷ token) now s = elim (find_session s (crypto.hash_token (c ∷ token))) [
    | none ↦ (none, s)
    | some session ↦ principal_of s session now
  ]

unfoldable pub role_for : Store → Text → Text → Option Role
role_for s user_id workspace_id = elim (find_workspace s workspace_id) [
  | none ↦ none
  | some ws ↦ elim (find_membership s ws.org_id user_id) [ none ↦ none | some m ↦ some m.role ]
]

abbrev pub role_can : Option Role → Action → Bool
role_can none action = false
role_can (some role) action = can role action

unfoldable pub authorize : Store → Text → Text → Action → Bool
authorize s user_id workspace_id action = role_can (role_for s user_id workspace_id) action

unfoldable pub authorize_org : Store → Text → Text → Action → Bool
authorize_org s user_id org_id action = elim (find_membership s org_id user_id) [
  | none ↦ false
  | some m ↦ can m.role action
]

abbrev pub add_ids : List Text → List Workspace → List Text
add_ids ids [] = ids
add_ids ids (ws ∷ rest) = add_ids (if has ids ws.id then ids else ids ++ ws.id ∷ []) rest

abbrev pub ids_of_orgs : Store → List Text → List Org → List Text
ids_of_orgs s ids [] = ids
ids_of_orgs s ids (org ∷ orgs) = ids_of_orgs s (add_ids ids (list_workspaces_for_org s org.id)) orgs

unfoldable pub accessible_workspace_ids : Store → Text → List Text
accessible_workspace_ids s user_id = ids_of_orgs s [] (list_orgs_for_user s user_id)

unfoldable pub unregistered_workspace_ids : Store → List Text → List Text
unregistered_workspace_ids s [] = []
unregistered_workspace_ids s (id ∷ ids) =
    let rest = unregistered_workspace_ids s ids in
    if is_some (find_workspace s id) then rest else id ∷ rest

-- The creator is authorized first.
unfoldable pub create_workspace :
    Store → Text → Text → Text → Text → Text → Result ServiceError (Workspace × Store)
create_workspace s now id org_id slug user_id =
    if authorize_org s user_id org_id workspace_create
    then elim (add_workspace s now id org_id slug user_id) [
      | err e ↦ err (workspace_exists e)
      | ok created ↦ ok created
    ]
    else err not_authorized

unfoldable pub register_workspace : Store → Text → Text → Text → Text → Result ServiceError Store
register_workspace s now user_id org_id workspace_id =
    elim (create_workspace s now workspace_id org_id workspace_id user_id) [
      | err e ↦ err e
      | ok (_, s') ↦ ok s'
    ]

unfoldable pub add_member_by_email :
    (Text → Text) → Store → Text → Text → Text → Role → Result ServiceError Store
add_member_by_email to_lower_case s now org_id email role =
    elim (find_user_by_email to_lower_case s.users email) [
      | none ↦ err (no_such_user email)
      | some user ↦ ok (add_member s now org_id user.id role)
    ]

-- Rows are indexed under the workspace that is named and the org that owns it.
abbrev pub upsert_rows : Store → Text → Text → List ProvenanceRow → Store
upsert_rows s workspace_id org_id [] = s
upsert_rows s workspace_id org_id (row ∷ rows) =
    upsert_rows (upsert_provenance s (record row { workspace_id = workspace_id; org_id = org_id }))
      workspace_id org_id rows

unfoldable pub record_provenance_rows : Store → Text → List ProvenanceRow → Store
record_provenance_rows s workspace_id rows = elim (find_workspace s workspace_id) [
  | none ↦ s
  | some ws ↦ upsert_rows s workspace_id ws.org_id rows
]
