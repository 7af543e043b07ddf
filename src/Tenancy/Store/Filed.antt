-- ===== src/Tenancy/Store/Filed.antt =====
-- Each entity stands under its own key, and refers to orgs that exist.
use makedown.Base.{
  Option-cases, ap, Text, text_eq, nat_eq, Bool, true, false, not, ◌&&◌, none, some, [], ◌∷◌, any,
  has, All, ◌==◌, ◌≡◌, refl, is_some, arith, Bool-cases, inl, inr, subst, list_eqb, ◌∙◌, sym,
}
use makedown.Base.Map.{All-get, Map, get, values, DistinctKeys}
use makedown.Tenancy.Store.{Org, Store, key}

-- No code unit is zero, as in a UUID.
abbrev pub no_nul : Text → Bool
no_nul t = not (has t 0)

abbrev pub OrgExists : Map Text Org → Text → Type 0
OrgExists orgs id = is_some (get orgs id) ≡ true

pub record IsFiled (s : Store) : Type 0 where
  pub orgs : All (λ (k, o). (k ≡ o.id) × (no_nul o.id ≡ true)) s.orgs
  pub memberships :
      All (λ (k, m). (k ≡ key m.org_id m.user_id) × OrgExists s.orgs m.org_id) s.memberships
  pub workspaces : All (λ (k, w). (k ≡ w.id) × OrgExists s.orgs w.org_id) s.workspaces
  pub distinct_memberships : DistinctKeys s.memberships
  pub distinct_workspaces : DistinctKeys s.workspaces

-- No entry is under `k`, so no value has that key.
any-absent :
    {V : Type 0} (f : V → Text) (q : V → Bool) (m : Map Text V) (k : Text)
    → All (λ (j, v). j ≡ f v) m
    → get m k ≡ none
    → any (λ v. f v == k && q v) (values m) ≡ false
unfolding get
any-absent f q [] k filed g = refl
any-absent f q ((j, v) ∷ m) k (here, filed) g =
    ground (arith, any-absent f q m k filed, here, text_eq.beq_iff (f v) k, text_eq.beq_iff j k)

-- Where values stand under their own keys, once each, a search through them is a lookup.
pub any-values :
    {V : Type 0} (f : V → Text) (q : V → Bool) (m : Map Text V) (k : Text)
    → All (λ (j, v). j ≡ f v) m
    → DistinctKeys m
    → any (λ v. f v == k && q v) (values m) ≡ elim (get m k) [ none ↦ false | some v ↦ q v ]
unfolding get
any-values f q [] k filed d = refl
any-values f q ((j, v) ∷ m) k (here, filed) (once, d) =
    let rest = any-values f q m k filed d in
    elim (Bool-cases (j == k)) [
      | inl same ↦
          let j≡k = (text_eq.beq_iff j k).0 same in
          let absent = any-absent f q m k filed (subst (λ i. get m i ≡ none) j≡k once) in
          let found = (text_eq.beq_iff (f v) k).1 (sym here ∙ j≡k) in
          rw (same, found, absent) ground arith
      | inr other ↦ ground (arith, rest, other, here, text_eq.beq_iff (f v) k, text_eq.beq_iff j k)
    ]

-- The key is injective on ids without a zero.
pub key-injective :
    (a b c d : Text) → no_nul a ≡ true → no_nul c ≡ true → (key a b == key c d) ≡ (a == c && b == d)
unfolding list_eqb
key-injective [] b [] d ha hc = ground arith
key-injective [] b (y ∷ c) d ha hc = ground (arith, nat_eq.beq_iff 0 y, nat_eq.beq_iff y 0)
key-injective (x ∷ a) b [] d ha hc = ground (arith, nat_eq.beq_iff x 0)
key-injective (x ∷ a) b (y ∷ c) d ha hc = ground (arith, key-injective a b c d)

pub OrgExists-no_nul :
    (orgs : Map Text Org) (id : Text)
    → All (λ (k, o). (k ≡ o.id) × (no_nul o.id ≡ true)) orgs
    → OrgExists orgs id
    → no_nul id ≡ true
OrgExists-no_nul orgs id filed exists = elim (Option-cases (get orgs id)) [
  | inl missing ↦ absurd (ground arith)
  | inr (o, found) ↦
      let h = All-get (λ k o. (k ≡ o.id) × (no_nul o.id ≡ true)) orgs id o filed found in
      ap no_nul h.0 ∙ h.1
]
