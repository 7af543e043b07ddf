-- ===== src/Tenancy/Service/Access.antt =====
-- The workspaces that TenancyService lists for a user, against the ones it authorizes.
use makedown.Base.{
  le→leb, Text, text_eq, nat_eq, Bool, true, false, ◌&&◌, ◌||◌, Option, none, some, List, [], ◌∷◌,
  ◌++◌, any, has, has-append, filterb, map, All, All-of, ◌==◌, ◌≡◌, refl, is_some, arith,
  Bool-cases, Option-cases, inl, inr, ap, ◌∙◌, sym, eq_refl,
}
use makedown.Base.Map.{Map, get, values, All-get}
use makedown.Tenancy.Rbac.{Role, workspace_read, rank, can}
use makedown.Tenancy.Store.{
  Org, Membership, Workspace, Store, key, orgs_of, list_orgs_for_user, list_workspaces_for_org,
  find_workspace, find_membership,
}
use makedown.Tenancy.Store.Filed.{
  OrgExists-no_nul, no_nul, OrgExists, IsFiled, any-values, key-injective,
}
use makedown.Tenancy.Service.Reached.{Reached, Reached-IsFiled}
use makedown.Tenancy.Service.{
  add_ids, ids_of_orgs, accessible_workspace_ids, role_for, role_can, authorize,
}

has-add_ids :
    (ids : List Text) (wss : List Workspace) (w : Text)
    → has (add_ids ids wss) w ≡ (has ids w || any (λ ws. ws.id == w) wss)
has-add_ids ids [] w = ground arith
has-add_ids ids (ws ∷ wss) w = elim (Bool-cases (has ids ws.id)) [
  | inl here ↦
      rw (here, has-add_ids ids wss w) ground
        (arith, text_eq.beq_iff ws.id w, λ (e : ws.id ≡ w). ap (has ids) e)
  | inr fresh ↦
      rw (fresh, has-add_ids (ids ++ ws.id ∷ []) wss w) ground
        (arith, has-append ids (ws.id ∷ []) w)
]

has-ids_of_orgs :
    (s : Store) (ids : List Text) (orgs : List Org) (w : Text)
    → has (ids_of_orgs s ids orgs) w
      ≡ (has ids w || any (λ o. any (λ ws. ws.id == w) (list_workspaces_for_org s o.id)) orgs)
has-ids_of_orgs s ids [] w = ground arith
has-ids_of_orgs s ids (o ∷ orgs) w = ground (
  arith,
  has-ids_of_orgs s (add_ids ids (list_workspaces_for_org s o.id)) orgs w,
  has-add_ids ids (list_workspaces_for_org s o.id) w,
)

module _ {A : Type 0} where
  any-filterb : (f p : A → Bool) (xs : List A) → any f (filterb p xs) ≡ any (λ x. p x && f x) xs
  any-filterb f p [] = refl
  any-filterb f p (x ∷ xs) = ground (arith, any-filterb f p xs)

  any-map :
      {B : Type 0} (f : B → Bool) (g : A → B) (xs : List A)
      → any f (map g xs) ≡ any (λ x. f (g x)) xs
  any-map f g [] = refl
  any-map f g (x ∷ xs) = ap (λ b. f (g x) || b) (any-map f g xs)

  any-ext : (f g : A → Bool) (xs : List A) → ((x : A) → f x ≡ g x) → any f xs ≡ any g xs
  any-ext f g [] h = refl
  any-ext f g (x ∷ xs) h = ground (arith, h x, any-ext f g xs h)

  any-ext-All :
      (P : A → Type 0) (f g : A → Bool) (xs : List A)
      → ((x : A) → P x → f x ≡ g x)
      → All P xs
      → any f xs ≡ any g xs
  any-ext-All P f g [] h all = refl
  any-ext-All P f g (x ∷ xs) h all = ground (arith, h x all.0, any-ext-All P f g xs h all.1)

  All-filterb : (P : A → Type 0) (p : A → Bool) (xs : List A) → All P xs → All P (filterb p xs)
  All-filterb P p [] h = tt
  All-filterb P p (x ∷ xs) h = elim (Bool-cases (p x)) [
    | inl take ↦ rw take (h.0, All-filterb P p xs h.1)
    | inr skip ↦ rw skip (All-filterb P p xs h.1)
  ]

  any-false : (xs : List A) → any (λ _. false) xs ≡ false
  any-false [] = refl
  any-false (x ∷ xs) = any-false xs

  any-and : (b : Bool) (f : A → Bool) (xs : List A) → any (λ x. b && f x) xs ≡ (b && any f xs)
  any-and true f xs = refl
  any-and false f xs = any-false xs

All-values :
    {K V : Type 0} (P : V → Type 0) (m : Map K V) → All (λ (_, v). P v) m → All P (values m)
All-values P [] h = tt
All-values P ((k, v) ∷ m) h = (h.0, All-values P m h.1)

members_exist :
    (s : Store) → IsFiled s → All (λ m. OrgExists s.orgs m.org_id) (values s.memberships)
members_exist s filed =
    All-values (λ m. OrgExists s.orgs m.org_id) s.memberships
      (All-of (λ (_, m). OrgExists s.orgs m.org_id)
        (λ (k, m). (k ≡ key m.org_id m.user_id) × OrgExists s.orgs m.org_id) (λ _ h. h.1)
        s.memberships filed.memberships)

-- Every id of the list is that of an org, so looking the orgs up keeps them all.
any-orgs_of :
    (g : Text → Bool) (orgs : Map Text Org) (ms : List Membership)
    → All (λ (k, o). (k ≡ o.id) × (no_nul o.id ≡ true)) orgs
    → All (λ m. OrgExists orgs m.org_id) ms
    → any (λ o. g o.id) (orgs_of orgs (map (λ m. m.org_id) ms)) ≡ any (λ m. g m.org_id) ms
any-orgs_of g orgs [] filed exist = refl
any-orgs_of g orgs (m ∷ ms) filed (here, exist) =
    let rest = any-orgs_of g orgs ms filed exist in
    elim (Option-cases (get orgs m.org_id)) [
      | inl missing ↦ absurd (ground arith)
      | inr (o, found) ↦
          let same =
            (All-get (λ k o. (k ≡ o.id) × (no_nul o.id ≡ true)) orgs m.org_id o filed found).0 in
          let tail = orgs_of orgs (map (λ m. m.org_id) ms) in
          ap (λ r. any (λ o. g o.id) (elim r [ none ↦ tail | some o ↦ o ∷ tail ])) found
          ∙ ground (arith, rest, ap g same)
    ]

-- The workspace `w` is listed for an org exactly when it is that org's.
listed :
    (s : Store) (org_id w : Text)
    → IsFiled s
    → any (λ ws. ws.id == w) (list_workspaces_for_org s org_id)
      ≡ elim (get s.workspaces w) [ none ↦ false | some ws ↦ ws.org_id == org_id ]
unfolding list_workspaces_for_org
listed s org_id w filed =
    any-filterb (λ ws. ws.id == w) (λ ws. ws.org_id == org_id) (values s.workspaces)
    ∙ any-ext (λ ws. ws.org_id == org_id && ws.id == w) (λ ws. ws.id == w && ws.org_id == org_id)
        (values s.workspaces) (λ ws. ground arith)
    ∙ any-values (λ ws. ws.id) (λ ws. ws.org_id == org_id) s.workspaces w
        (All-of (λ (k, ws). k ≡ ws.id) (λ (k, ws). (k ≡ ws.id) × OrgExists s.orgs ws.org_id)
          (λ _ h. h.0) s.workspaces filed.workspaces)
        filed.distinct_workspaces

-- A user is a member of an org exactly when one of the memberships says so.
is_member :
    (s : Store) (org_id u : Text)
    → IsFiled s
    → OrgExists s.orgs org_id
    → any (λ m. m.user_id == u && org_id == m.org_id) (values s.memberships)
      ≡ is_some (get s.memberships (key org_id u))
is_member s org_id u filed exists =
    let ids = OrgExists-no_nul s.orgs org_id filed.orgs exists in
    any-ext-All (λ m. no_nul m.org_id ≡ true) (λ m. m.user_id == u && org_id == m.org_id)
      (λ m. key m.org_id m.user_id == key org_id u && true) (values s.memberships)
      (λ m h. ground (
        arith,
        key-injective m.org_id m.user_id org_id u h ids,
        eq_refl u,
        text_eq.beq_iff org_id m.org_id,
        text_eq.beq_iff m.org_id org_id,
      ))
      (All-of (λ m. no_nul m.org_id ≡ true) (λ m. OrgExists s.orgs m.org_id)
        (λ m. OrgExists-no_nul s.orgs m.org_id filed.orgs) (values s.memberships)
        (members_exist s filed))
    ∙ any-values (λ m. key m.org_id m.user_id) (λ _. true) s.memberships (key org_id u)
        (All-of (λ (k, m). k ≡ key m.org_id m.user_id)
          (λ (k, m). (k ≡ key m.org_id m.user_id) × OrgExists s.orgs m.org_id) (λ _ h. h.0)
          s.memberships filed.memberships)
        filed.distinct_memberships
    ∙ ground (arith, Option-cases (get s.memberships (key org_id u)))

-- Where the workspace exists, both say whether the user is a member of its org.
owned :
    (s : Store) (u : Text) (ws : Workspace)
    → IsFiled s
    → OrgExists s.orgs ws.org_id
    → any (λ o. ws.org_id == o.id) (list_orgs_for_user s u)
      ≡ is_some (get s.memberships (key ws.org_id u))
unfolding list_orgs_for_user
owned s u ws filed exists =
    let mine = filterb (λ m. m.user_id == u) (values s.memberships) in
    any-orgs_of (λ id. ws.org_id == id) s.orgs mine filed.orgs
      (All-filterb (λ m. OrgExists s.orgs m.org_id) (λ m. m.user_id == u) (values s.memberships)
        (members_exist s filed))
    ∙ any-filterb (λ m. ws.org_id == m.org_id) (λ m. m.user_id == u) (values s.memberships)
    ∙ is_member s ws.org_id u filed exists

-- Every role may read.
role_can-workspace_read :
    (m : Option Membership)
    → role_can (elim m [ none ↦ none | some m ↦ some m.role ]) workspace_read ≡ is_some m
unfolding can
role_can-workspace_read none = refl
role_can-workspace_read (some m) = le→leb 0 (rank m.role) (omega arith)

abbrev role_in : Store → Text → Option Workspace → Option Role
role_in s u none = none
role_in s u (some ws) = elim (get s.memberships (key ws.org_id u)) [
  | none ↦ none
  | some m ↦ some m.role
]

-- The same for a store that is filed.
listed_and_authorized :
    (s : Store) (u w : Text)
    → IsFiled s
    → has (accessible_workspace_ids s u) w ≡ authorize s u w workspace_read
unfolding accessible_workspace_ids authorize role_for find_workspace find_membership can
listed_and_authorized s u w filed =
    has-ids_of_orgs s [] (list_orgs_for_user s u) w
    ∙ any-ext (λ o. any (λ ws. ws.id == w) (list_workspaces_for_org s o.id))
        (λ o. elim (get s.workspaces w) [ none ↦ false | some ws ↦ ws.org_id == o.id ])
        (list_orgs_for_user s u) (λ o. listed s o.id w filed)
    ∙ elim (Option-cases (get s.workspaces w)) [
      | inl missing ↦
          ap
            (λ r.
              any (λ o. elim r [ none ↦ false | some ws ↦ ws.org_id == o.id ])
                (list_orgs_for_user s u))
            missing
          ∙ any-false (list_orgs_for_user s u)
          ∙ ap (λ r. role_can (role_in s u r) workspace_read) (sym missing)
      | inr (ws, found) ↦
          let exists =
            (All-get (λ k ws. (k ≡ ws.id) × OrgExists s.orgs ws.org_id) s.workspaces w ws
              filed.workspaces found).1 in
          ap
            (λ r.
              any (λ o. elim r [ none ↦ false | some ws ↦ ws.org_id == o.id ])
                (list_orgs_for_user s u))
            found
          ∙ owned s u ws filed exists
          ∙ sym (role_can-workspace_read (get s.memberships (key ws.org_id u)))
          ∙ ap (λ r. role_can (role_in s u r) workspace_read) (sym found)
    ]

-- In every store that calls on the store and the service lead to from the empty one, where ids of orgs have
-- no zero and members join orgs that exist, a workspace is listed for a user exactly when the user may read
-- it.
pub accessible_workspace_ids-authorize :
    (s : Store) (u w : Text)
    → Reached s
    → has (accessible_workspace_ids s u) w ≡ authorize s u w workspace_read
accessible_workspace_ids-authorize s u w reached =
    listed_and_authorized s u w (Reached-IsFiled s reached)
