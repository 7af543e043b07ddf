-- ===== src/Sharing/Laws.antt =====
-- What a link is worth over its life: creation, lookup, expiry and revocation.
use makedown.Base.{
  ℕ, ◌+◌, ◌*◌, ◌≡◌, refl, subst, ◌⊎◌, inl, inr, min, Text, text_eq, Bool, true, false, Option, none,
  some, [], ◌∷◌, find, ◌==◌, ltb, is_some, if◌then◌else◌, All, Bool-cases, Option-cases, eq_refl,
  arith,
}
use makedown.Base.Map.{get, set, values, DistinctKeys, set-DistinctKeys, All-set, All-get}
use makedown.Sharing.{Share, Shares, create, find_by_token_hash, revoke}
use makedown.Sharing.Service.{
  Days, no_expiry, positive, CreateShareArgs, ms_per_day, resolve_expiry, is_dead, create_share,
  resolve_share,
}

-- Each share is filed under its own id.
pub record IsFiled (shares : Shares) : Type 0 where
  pub keyed : All (λ (k, s). s.id ≡ k) shares
  pub distinct : DistinctKeys shares

-- The share that a creation files.
abbrev pub new_share : (Text → Text) → CreateShareArgs → Text → Text → ℕ → Share
new_share hash_token args token id now = record {
  id = id;
  token_hash = hash_token token;
  workspace_id = args.workspace_id;
  target = args.target;
  include_provenance = args.include_provenance;
  created_at = now;
  expires_at = elim args.expires_in_days [
    | no_expiry ↦ none
    | positive days ↦ some (now + min days 365 * ms_per_day)
  ];
  revoked_at = none;
}

-- What a revocation does to a share.
abbrev pub revoked : Text → ℕ → Share → Share
revoked id at s =
    if s.id == id
    then (if is_some s.revoked_at then s else record s { revoked_at = some at })
    else s

abbrev pub map_option : (Share → Share) → Option Share → Option Share
map_option f none = none
map_option f (some s) = some (f s)

absent :
    (id : Text) (at : ℕ) (h : Text) (shares : Shares)
    → All (λ (k, s). s.id ≡ k) shares
    → get shares id ≡ none
    → map_option (revoked id at) (find (λ s. s.token_hash == h) (values shares))
      ≡ find (λ s. s.token_hash == h) (values shares)
unfolding get
absent id at h [] keyed e = refl
absent id at h ((k, s) ∷ shares) keyed e =
    ground (arith, absent id at h shares keyed.1, text_eq.beq_iff k id, text_eq.beq_iff s.id id)

revoke-tail :
    (id : Text) (at : ℕ) (k : Text) (s : Share) (shares : Shares)
    → (k == id) ≡ false
    → revoke ((k, s) ∷ shares) id at ≡ (k, s) ∷ revoke shares id at
unfolding get set revoke
revoke-tail id at k s shares other = ground arith

revoke-head :
    (id : Text) (at : ℕ) (k : Text) (s : Share) (shares : Shares)
    → s.id ≡ k
    → (k == id) ≡ true
    → revoke ((k, s) ∷ shares) id at ≡ (k, revoked id at s) ∷ shares
unfolding get set revoke
revoke-head id at k s shares filed same =
    ground (arith, text_eq.beq_iff s.id id, text_eq.beq_iff k id)

pub find-revoke :
    (id : Text) (at : ℕ) (h : Text) (shares : Shares)
    → All (λ (k, s). s.id ≡ k) shares
    → DistinctKeys shares
    → find (λ s. s.token_hash == h) (values (revoke shares id at))
      ≡ map_option (revoked id at) (find (λ s. s.token_hash == h) (values shares))
find-revoke id at h [] keyed d = unfold get revoke in refl
find-revoke id at h ((k, s) ∷ shares) keyed d = elim (Bool-cases (k == id)) [
  | inl same ↦
      let e = (text_eq.beq_iff k id).0 same in
      rw (revoke-head id at k s shares keyed.0 same) (elim (Bool-cases (s.token_hash == h)) [
        | inl found ↦ ground arith
        | inr other ↦
            ground (arith, absent id at h shares keyed.1 (subst (λ j. get shares j ≡ none) e d.0))
      ])
  | inr other ↦ rw (revoke-tail id at k s shares other) (
      ground (
        arith,
        find-revoke id at h shares keyed.1 d.1,
        text_eq.beq_iff s.id id,
        text_eq.beq_iff k id,
      ))
]

pub revoke-IsFiled :
    (shares : Shares) (id : Text) (at : ℕ) → IsFiled shares → IsFiled (revoke shares id at)
unfolding revoke
revoke-IsFiled shares id at f = elim (Option-cases (get shares id)) [
  | inl e ↦ rw (e, revoke) f
  | inr (s, e) ↦ elim (Bool-cases (is_some s.revoked_at)) [
    | inl dead ↦ rw (e, dead, revoke) f
    | inr live ↦
        rw (e, live, revoke)
          (record {
            keyed =
                All-set (λ k s. s.id ≡ k) shares id _ f.keyed
                  (All-get (λ k s. s.id ≡ k) shares id s f.keyed e);
            distinct = set-DistinctKeys shares id (record s { revoked_at = some at }) f.distinct;
          })
  ]
]

find-set_new :
    (p : Share → Bool) (shares : Shares) (id : Text) (s : Share)
    → get shares id ≡ none
    → find p (values shares) ≡ none
    → p s ≡ true
    → find p (values (set shares id s)) ≡ some s
unfolding get set
find-set_new p [] id s e h q = ground arith
find-set_new p ((k, t) ∷ shares) id s e h q = ground (arith, find-set_new p shares id s)

Days-cases : (d : Days) → (d ≡ no_expiry) ⊎ ((n : ℕ) × (d ≡ positive n))
Days-cases no_expiry = inl refl
Days-cases (positive n) = inr (n, refl)

-- A link that is created under a new id, with a token that is not empty and whose hash no share
-- has, resolves to its share until it expires, and no longer; so a link given a positive lifetime
-- of less than a day never resolves, and one given none always does.
pub resolve-create_share :
    (hash_token : Text → Text) (args : CreateShareArgs) (c : ℕ) (token id : Text) (now : ℕ)
    (shares : Shares) (t : ℕ)
    → get shares id ≡ none
    → find_by_token_hash shares (hash_token (c ∷ token)) ≡ none
    → resolve_share hash_token
        (create_share hash_token args (c ∷ token) id now shares).1
        (c ∷ token)
        t
      ≡ elim args.expires_in_days [
        | no_expiry ↦ some (new_share hash_token args (c ∷ token) id now)
        | positive days ↦
            if ltb t (now + min days 365 * ms_per_day)
            then some (new_share hash_token args (c ∷ token) id now)
            else none
      ]
unfolding resolve_share create_share resolve_expiry is_dead create find_by_token_hash
resolve-create_share hash_token args c token id now shares t fresh unused =
    let found =
      find-set_new (λ s. s.token_hash == hash_token (c ∷ token)) shares id
        (new_share hash_token args (c ∷ token) id now) fresh unused
        (eq_refl (hash_token (c ∷ token))) in
    elim (Days-cases args.expires_in_days) [ inl e ↦ ground arith | inr (days, e) ↦ ground arith ]
