-- ===== src/Sharing/Tests.antt =====
-- One link that is created, resolved and revoked, each theorem at it.
use makedown.Base.{
  ◌+◌, ◌*◌, min, ltb, Text, text_eq, list_eqb, lit, true, none, some, [], ◌∷◌, ◌≡◌, ◌≢◌, refl,
  if◌then◌else◌,
}
use makedown.Base.Map.{get}
use makedown.Sharing.{Share, Shares, find_by_token_hash}
use makedown.Sharing.Service.{
  ms_per_day, positive, CreateShareArgs, is_dead, resolve_expiry, create_share, resolve_share,
  revoke_share,
}
use makedown.Sharing.Laws.{IsFiled, new_share, resolve-create_share}
use makedown.Sharing.Revocation.{resolve-revoke_share}

abbrev hash_token : Text → Text
hash_token token = 0 ∷ token

abbrev args : CreateShareArgs
args = record {
  workspace_id = lit "w";
  target = lit "t";
  include_provenance = true;
  expires_in_days = positive 1;
}

abbrev share : Share
share = new_share hash_token args (lit "tok") (lit "i") 10

abbrev shares : Shares
shares = (lit "i", share) ∷ []

shares-IsFiled : IsFiled shares
unfolding get
shares-IsFiled = record { keyed = (refl, tt); distinct = (refl, tt) }

resolve-create_share_example :
    resolve_share hash_token
      (create_share hash_token args (lit "u") (lit "j") 20 shares).1
      (lit "u")
      30
    ≡ (if ltb 30 (20 + min 1 365 * ms_per_day)
        then some (new_share hash_token args (lit "u") (lit "j") 20)
        else none)
unfolding get find_by_token_hash list_eqb
resolve-create_share_example =
    resolve-create_share hash_token args 117 [] (lit "j") 20 shares 30 refl refl

resolve-revoke_share_example :
    (share.id ≡ lit "i"
      → resolve_share hash_token (revoke_share shares (lit "i") 40) (lit "tok") 50 ≡ none)
    × (share.id ≢ lit "i"
        → resolve_share hash_token (revoke_share shares (lit "i") 40) (lit "tok") 30 ≡ some share)
unfolding resolve_share find_by_token_hash is_dead list_eqb resolve_expiry
resolve-revoke_share_example =
    resolve-revoke_share hash_token shares shares-IsFiled (lit "i") (lit "tok") 40 30 50 share refl
