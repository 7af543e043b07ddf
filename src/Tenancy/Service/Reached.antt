-- ===== src/Tenancy/Service/Reached.antt =====
-- The stores that the operations of TenancyService lead to: every entity in them stands under its own key,
-- and its org exists.
use makedown.Base.{
  ◌&&◌, Text, text_eq, nat_eq, Bool, true, [], ◌∷◌, All, All-of, ◌==◌, ◌≡◌, refl, is_some, arith,
  Bool-cases, Option-cases, Result, ok, err, inl, inr, ap, sym, subst, ok-injective, if-ok, any,
  ◌∙◌,
}
use makedown.Base.Map.{
  Map, get, set, delete, get-set, get-delete, set-DistinctKeys, DistinctKeys, All-set, All-get,
  values,
}
use makedown.Tenancy.Rbac.{Role, Action, workspace_create}
use makedown.Tenancy.Store.{
  Org, Membership, Workspace, Store, DuplicateError, duplicate_slug, duplicate_workspace, key,
  create_org, add_member, add_workspace, update_member_role, remove_member, find_membership,
}
use makedown.Tenancy.Store.Filed.{no_nul, OrgExists, IsFiled, key-injective, OrgExists-no_nul}
use makedown.Tenancy.Service.{workspace_exists, authorize_org, create_workspace}

abbrev pub no_store : Store
no_store = record {
  users = [];
  orgs = [];
  memberships = [];
  workspaces = [];
  sessions = [];
  provenance = [];
}

-- One call. An org has an id without a zero, as `randomUUID` gives; a member joins an org that exists, as in
-- `signup`, the one caller outside the tests; a workspace is created for a user who may, in an org whose id
-- has no zero either.
pub data Step (s : Store) : Store → Type 0 where
  org_created :
      (id now name slug : Text) (org : Org) (s' : Store)
      → no_nul id ≡ true
      → create_org s id now name slug ≡ ok (org, s')
      → Step s s'
  joined :
      (now org_id user_id : Text) (role : Role)
      → OrgExists s.orgs org_id
      → Step s (add_member s now org_id user_id role)
  role_changed :
      (org_id user_id : Text) (role : Role) → Step s (update_member_role s org_id user_id role)
  removed : (org_id user_id : Text) → Step s (remove_member s org_id user_id)
  workspace_created :
      (now id org_id slug user_id : Text) (ws : Workspace) (s' : Store)
      → no_nul org_id ≡ true
      → create_workspace s now id org_id slug user_id ≡ ok (ws, s')
      → Step s s'
  -- users, sessions and the provenance index
  elsewhere :
      (s' : Store)
      → s'.orgs ≡ s.orgs
      → s'.memberships ≡ s.memberships
      → s'.workspaces ≡ s.workspaces
      → Step s s'

pub data Reached : Store → Type 0 where
  start : Reached no_store
  next : (s s' : Store) → Reached s → Step s s' → Reached s'

module _ {V : Type 0} (P : Text → V → Type 0) where
  All-delete :
      (m : Map Text V) (k : Text) → All (λ (j, v). P j v) m → All (λ (j, v). P j v) (delete m k)
  unfolding delete
  All-delete [] k h = tt
  All-delete ((j, v) ∷ m) k h = elim (Bool-cases (j == k)) [
    | inl same ↦ rw same (All-delete m k h.1)
    | inr other ↦ rw other (h.0, All-delete m k h.1)
  ]

delete-DistinctKeys :
    {V : Type 0} (m : Map Text V) (k : Text) → DistinctKeys m → DistinctKeys (delete m k)
unfolding delete
delete-DistinctKeys [] k d = tt
delete-DistinctKeys ((j, v) ∷ m) k d = elim (Bool-cases (j == k)) [
  | inl same ↦ rw same (delete-DistinctKeys m k d.1)
  | inr other ↦ rw other (ground (arith, get-delete m k j, d.0), delete-DistinctKeys m k d.1)
]

OrgExists-set :
    (orgs : Map Text Org) (id x : Text) (org : Org)
    → OrgExists orgs x
    → OrgExists (set orgs id org) x
OrgExists-set orgs id x org h = elim (Bool-cases (id == x)) [
  | inl same ↦ rw (get-set orgs id x org, same) refl
  | inr other ↦ rw (get-set orgs id x org, other) h
]

and-true : (a b : Bool) → (a && b) ≡ true → a ≡ true
and-true a b h = ground arith

module _ (s : Store) (f : IsFiled s) where
  create_org-IsFiled :
      (id now name slug : Text) (org : Org) (s' : Store)
      → no_nul id ≡ true
      → create_org s id now name slug ≡ ok (org, s')
      → IsFiled s'
  unfolding create_org
  create_org-IsFiled id now name slug org s' clean h =
      let (_, made) = if-ok (any (λ o. o.slug == slug) (values s.orgs)) (duplicate_slug slug) _ h in
      let new : Org = record { id = id; name = name; slug = slug; created_at = now } in
      subst IsFiled (ap (λ q. q.1) (ok-injective made)) (record {
        orgs =
            All-set (λ k o. (k ≡ o.id) × (no_nul o.id ≡ true)) s.orgs id new f.orgs (refl, clean);
        memberships =
            All-of (λ (k, m). (k ≡ key m.org_id m.user_id) × OrgExists (set s.orgs id new) m.org_id)
              (λ (k, m). (k ≡ key m.org_id m.user_id) × OrgExists s.orgs m.org_id)
              (λ (k, m) h. (h.0, OrgExists-set s.orgs id m.org_id new h.1)) s.memberships
              f.memberships;
        workspaces =
            All-of (λ (k, w). (k ≡ w.id) × OrgExists (set s.orgs id new) w.org_id)
              (λ (k, w). (k ≡ w.id) × OrgExists s.orgs w.org_id)
              (λ (k, w) h. (h.0, OrgExists-set s.orgs id w.org_id new h.1)) s.workspaces
              f.workspaces;
        distinct_memberships = f.distinct_memberships;
        distinct_workspaces = f.distinct_workspaces;
      })

  -- Memberships that are changed without harm.
  with_memberships :
      (ms : Map Text Membership)
      → All (λ (k, m). (k ≡ key m.org_id m.user_id) × OrgExists s.orgs m.org_id) ms
      → DistinctKeys ms
      → IsFiled (record s { memberships = ms })
  with_memberships ms all distinct = record {
    orgs = f.orgs;
    memberships = all;
    workspaces = f.workspaces;
    distinct_memberships = distinct;
    distinct_workspaces = f.distinct_workspaces;
  }

  set_membership :
      (k : Text) (m : Membership)
      → k ≡ key m.org_id m.user_id
      → OrgExists s.orgs m.org_id
      → IsFiled (record s { memberships = set s.memberships k m })
  set_membership k m own exists =
      with_memberships (set s.memberships k m)
        (All-set (λ k m. (k ≡ key m.org_id m.user_id) × OrgExists s.orgs m.org_id) s.memberships k m
          f.memberships (own, exists))
        (set-DistinctKeys s.memberships k m f.distinct_memberships)

  update_member_role-IsFiled :
      (org_id user_id : Text) (role : Role) → IsFiled (update_member_role s org_id user_id role)
  unfolding update_member_role
  update_member_role-IsFiled org_id user_id role =
      elim (Option-cases (get s.memberships (key org_id user_id))) [
        | inl absent ↦ rw (update_member_role, absent) f
        | inr (m, found) ↦
            let (own, exists) =
              All-get (λ k m. (k ≡ key m.org_id m.user_id) × OrgExists s.orgs m.org_id)
                s.memberships (key org_id user_id) m f.memberships found in
            rw (update_member_role, found)
              (set_membership (key org_id user_id) (record m { role = role }) own exists)
      ]

  -- Who is authorized in an org is a member of it, so it exists.
  authorize_org-OrgExists :
      (user_id org_id : Text) (a : Action)
      → no_nul org_id ≡ true
      → authorize_org s user_id org_id a ≡ true
      → OrgExists s.orgs org_id
  unfolding authorize_org find_membership
  authorize_org-OrgExists user_id org_id a clean h =
      elim (Option-cases (get s.memberships (key org_id user_id))) [
        | inl absent ↦ absurd (cc (rw (authorize_org, find_membership, absent) at h))
        | inr (m, found) ↦
            let (own, exists) =
              All-get (λ k m. (k ≡ key m.org_id m.user_id) × OrgExists s.orgs m.org_id)
                s.memberships (key org_id user_id) m f.memberships found in
            let same =
              key-injective org_id user_id m.org_id m.user_id clean
                (OrgExists-no_nul s.orgs m.org_id f.orgs exists) in
            let at : org_id ≡ m.org_id = (text_eq.beq_iff org_id m.org_id).0 (
              and-true (org_id == m.org_id) (user_id == m.user_id) (
                sym same
                ∙ (text_eq.beq_iff (key org_id user_id) (key m.org_id m.user_id)).1 own)) in
            subst (OrgExists s.orgs) (sym at) exists
      ]

  add_workspace-IsFiled :
      (now id org_id slug user_id : Text) (ws : Workspace) (s' : Store)
      → OrgExists s.orgs org_id
      → add_workspace s now id org_id slug user_id ≡ ok (ws, s')
      → IsFiled s'
  unfolding add_workspace
  add_workspace-IsFiled now id org_id slug user_id ws s' exists h =
      let (_, made) = if-ok (is_some (get s.workspaces id)) (duplicate_workspace id) _ h in
      let new : Workspace = record {
        id = id;
        org_id = org_id;
        slug = slug;
        created_by = user_id;
        created_at = now;
      } in
      subst IsFiled (ap (λ q. q.1) (ok-injective made)) (record {
        orgs = f.orgs;
        memberships = f.memberships;
        workspaces =
            All-set (λ k w. (k ≡ w.id) × OrgExists s.orgs w.org_id) s.workspaces id new f.workspaces
              (refl, exists);
        distinct_memberships = f.distinct_memberships;
        distinct_workspaces = set-DistinctKeys s.workspaces id new f.distinct_workspaces;
      })

  added :
      (r : Result DuplicateError (Workspace × Store)) (ws : Workspace) (s' : Store)
      → (elim r [ err e ↦ err (workspace_exists e) | ok created ↦ ok created ]) ≡ ok (ws, s')
      → r ≡ ok (ws, s')
  added (ok created) ws s' h = cc
  added (err e) ws s' h = cc

  create_workspace-IsFiled :
      (now id org_id slug user_id : Text) (ws : Workspace) (s' : Store)
      → no_nul org_id ≡ true
      → create_workspace s now id org_id slug user_id ≡ ok (ws, s')
      → IsFiled s'
  unfolding create_workspace
  create_workspace-IsFiled now id org_id slug user_id ws s' clean h =
      elim (Bool-cases (authorize_org s user_id org_id workspace_create)) [
        | inr refused ↦ absurd (cc (rw (create_workspace, refused) at h))
        | inl allowed ↦
            add_workspace-IsFiled now id org_id slug user_id ws s'
              (authorize_org-OrgExists user_id org_id workspace_create clean allowed)
              (added (add_workspace s now id org_id slug user_id) ws s'
                (rw (create_workspace, allowed) at h))
      ]

  Step-IsFiled : (s' : Store) → Step s s' → IsFiled s'
  unfolding add_member remove_member
  Step-IsFiled s' (org_created id now name slug org s'' clean h) =
      create_org-IsFiled id now name slug org s' clean h
  Step-IsFiled _ (joined now org_id user_id role exists) =
      set_membership (key org_id user_id)
        (record { org_id = org_id; user_id = user_id; role = role; created_at = now }) refl exists
  Step-IsFiled _ (role_changed org_id user_id role) = update_member_role-IsFiled org_id user_id role
  Step-IsFiled _ (removed org_id user_id) =
      with_memberships (delete s.memberships (key org_id user_id))
        (All-delete (λ k m. (k ≡ key m.org_id m.user_id) × OrgExists s.orgs m.org_id) s.memberships
          (key org_id user_id) f.memberships)
        (delete-DistinctKeys s.memberships (key org_id user_id) f.distinct_memberships)
  Step-IsFiled s' (workspace_created now id org_id slug user_id ws s'' clean h) =
      create_workspace-IsFiled now id org_id slug user_id ws s' clean h
  Step-IsFiled s' (elsewhere s'' orgs memberships workspaces) = record {
    orgs = subst (All (λ (k, o). (k ≡ o.id) × (no_nul o.id ≡ true))) (sym orgs) f.orgs;
    memberships = rw (orgs, memberships) f.memberships;
    workspaces = rw (orgs, workspaces) f.workspaces;
    distinct_memberships = subst DistinctKeys (sym memberships) f.distinct_memberships;
    distinct_workspaces = subst DistinctKeys (sym workspaces) f.distinct_workspaces;
  }

-- In every store that calls on the store and the service lead to from the empty one, where ids of orgs have
-- no zero and members join orgs that exist, each org, membership and workspace stands under its own key,
-- memberships and workspaces once each, and their orgs exist.
pub Reached-IsFiled : (s : Store) → Reached s → IsFiled s
Reached-IsFiled _ start = record {
  orgs = tt;
  memberships = tt;
  workspaces = tt;
  distinct_memberships = tt;
  distinct_workspaces = tt;
}
Reached-IsFiled s (next before s' r step) = Step-IsFiled before (Reached-IsFiled before r) s step
