-- ===== src/Sharing/Revocation.antt =====
-- Revocation: it is final, and touches one link only.
use makedown.Base.{ℕ, ◌≤◌, ◌≡◌, ◌≢◌, refl, Text, text_eq, false, none, some, [], ◌∷◌, arith}
use makedown.Sharing.{Share, Shares, find_by_token_hash, revoke}
use makedown.Sharing.Service.{is_dead, resolve_share, revoke_share}
use makedown.Sharing.Laws.{IsFiled, revoked, map_option, find-revoke}

module _ (hash_token : Text → Text) (shares : Shares) (filed : IsFiled shares) where
  resolve-find :
      (m : Shares) (token : Text) (t : ℕ) {s : Share}
      → resolve_share hash_token m token t ≡ some s
      → (find_by_token_hash m (hash_token token) ≡ some s) × (is_dead s t ≡ false)
  unfolding resolve_share
  resolve-find m [] t h = absurd (ground arith)
  resolve-find m (c ∷ token) t h = ground arith

  lookup-revoke :
      (id : Text) (at : ℕ) (h : Text)
      → find_by_token_hash (revoke shares id at) h
        ≡ map_option (revoked id at) (find_by_token_hash shares h)
  unfolding find_by_token_hash
  lookup-revoke id at h = find-revoke id at h shares filed.keyed filed.distinct

  -- Where each share is under its own id, a link that resolved resolves at no time once its share
  -- is revoked, and goes on resolving to the same share where another one is revoked.
  pub resolve-revoke_share :
      (id token : Text) (at t u : ℕ) (s : Share)
      → resolve_share hash_token shares token t ≡ some s
      → (s.id ≡ id → resolve_share hash_token (revoke_share shares id at) token u ≡ none)
        × (s.id ≢ id → resolve_share hash_token (revoke_share shares id at) token t ≡ some s)
  unfolding resolve_share revoke_share is_dead
  resolve-revoke_share id [] at t u s h = absurd (ground arith)
  resolve-revoke_share id (c ∷ token) at t u s h =
      let (found, live) = resolve-find shares (c ∷ token) t h in
      let after = lookup-revoke id at (hash_token (c ∷ token)) in
      (
        λ same. ground (arith, text_eq.beq_iff s.id id),
        λ other. ground (arith, text_eq.beq_iff s.id id),
      )

-- A link that does not resolve never does again by the mere passage of time.
resolve_share_mono :
    (hash_token : Text → Text) (shares : Shares) (token : Text) (t u : ℕ)
    → t ≤ u
    → resolve_share hash_token shares token t ≡ none
    → resolve_share hash_token shares token u ≡ none
unfolding resolve_share is_dead
resolve_share_mono hash_token shares [] t u le h = refl
resolve_share_mono hash_token shares (c ∷ token) t u le h = ground arith
