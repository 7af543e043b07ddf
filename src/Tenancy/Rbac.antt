-- ===== src/Tenancy/Rbac.antt =====
-- apps/server/src/tenancy/rbac.ts: roles and the actions they may perform.
use makedown.Base.{ℕ, ◌≤◌, ◌≡◌, Bool, true, false, ◌↔◌, ◌⊎◌, leb, leb→le, arith}

pub data Role : Type 0 where
  viewer member admin owner : Role

pub data Action : Type 0 where
  workspace_read workspace_build workspace_snapshot workspace_branch workspace_create : Action
  workspace_import approval_resolve share_create analytics_read member_manage org_delete : Action

abbrev pub rank : Role → ℕ
rank viewer = 0
rank member = 1
rank admin = 2
rank owner = 3

abbrev pub min_role : Action → Role
min_role workspace_read = viewer
min_role workspace_build = member
min_role workspace_snapshot = member
min_role workspace_branch = member
min_role workspace_create = member
min_role workspace_import = member
min_role approval_resolve = member
min_role share_create = member
min_role analytics_read = viewer
min_role member_manage = admin
min_role org_delete = owner

-- The type has no unrecognised role, so the test for one is left out.
unfoldable pub can : Role → Action → Bool
can role action = leb (rank (min_role action)) (rank role)

-- A role of higher rank may do all that one of lower rank may.
pub can_mono : (r s : Role) (a : Action) → rank r ≤ rank s → can r a ≡ true → can s a ≡ true
unfolding can
can_mono r s a h c = ground (arith, leb→le (rank (min_role a)) (rank r) c)

abbrev pub IsRead : Action → Type 0
IsRead a = (a ≡ workspace_read) ⊎ (a ≡ analytics_read)

-- Just who may do what: a viewer may only read; a member also works on workspaces but neither
-- manages members nor deletes the org; an admin does not delete the org; an owner does everything.
pub can_lem :
    (a : Action)
    → ((can viewer a ≡ true) ↔ IsRead a)
      × ((can member a ≡ false) ↔ ((a ≡ member_manage) ⊎ (a ≡ org_delete)))
      × ((can admin a ≡ false) ↔ (a ≡ org_delete))
      × (can owner a ≡ true)
unfolding can
can_lem workspace_read = ground arith
can_lem _ = ground arith
