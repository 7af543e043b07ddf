-- ===== src/Tenancy/Service/SignIn.antt =====
-- The session that TenancyService opens when a user signs up, until it expires or is closed.
use makedown.Base.{
  ℕ, zero, suc, ◌+◌, Text, text_eq, leb, ltb, length, Option, none, some, [], ◌∷◌, OnOk, OnOk-ok,
  OnOk-if, ◌≡◌, refl, if◌then◌else◌, arith, Bool-cases, Result-cases, ◌≢◌, inl, inr, ap, subst, any,
  ◌==◌, ◌∙◌, eq_refl, Result, ok, err,
}
use makedown.Base.Map.{get, set, values, get-set_self, get-delete}
use makedown.Tenancy.Rbac.{owner}
use makedown.Tenancy.Users.{
  User, Users, duplicate_user, find_user_by_id, find_user_by_email, normalize_email, create_user,
}
use makedown.Tenancy.Store.{
  Org, Session, Store, DuplicateError, duplicate_slug, create_org, add_member, create_session,
  find_session, delete_session,
}
use makedown.Tenancy.Service.{
  session_ttl_ms, min_password_length, ServiceError, Principal, AuthResult, Crypto, Drawn,
  org_slug_retries, create_personal_org, auth_result, open_session, sign_in_new, signup, logout,
  authenticate, principal_of,
}

abbrev Recorded : User × Users → Type 0
Recorded (user, users) = get users user.id ≡ some user

create_user-Recorded :
    (lower : Text → Text) (users : Users) (id now email hash : Text)
    → OnOk Recorded (create_user lower users id now email hash)
unfolding create_user
create_user-Recorded lower users id now email hash =
    let address = normalize_email lower email in
    let user : User = record { id = id; email = address; password_hash = hash; created_at = now } in
    elim (find_user_by_email lower users address)
      as (λ o.
        OnOk Recorded (elim o [
          | some _ ↦ err (duplicate_user address)
          | none ↦ ok (user, set users id user)
        ])) [ none ↦ get-set_self users id user | some _ ↦ tt ]

create_org-users :
    (s : Store) (id now name slug : Text)
    → OnOk (λ (_, s'). s'.users ≡ s.users) (create_org s id now name slug)
unfolding create_org
create_org-users s id now name slug =
    OnOk-if (λ (_, s'). s'.users ≡ s.users) (any (λ o. o.slug == slug) (values s.orgs))
      (err (duplicate_slug slug)) (ok _) tt refl

OnOk-retry :
    (P : Org × Store → Type 0) (r : Result DuplicateError (Org × Store))
    (q : Result ServiceError (Org × Store))
    → OnOk P r
    → OnOk P q
    → OnOk P (elim r [ ok created ↦ ok created | err _ ↦ q ])
OnOk-retry P (ok a) q p _ = p
OnOk-retry P (err e) q _ p = p

-- What holds of the value and the store of a call that did not throw.
abbrev OnReturn : (AuthResult → Store → Type 0) → Result ServiceError AuthResult × Store → Type 0
OnReturn P (ok r, s) = P r s
OnReturn P (err e, s) = Unit

module _ (crypto : Crypto) where
  create_personal_org-users :
      (left attempt : ℕ) (d : Drawn) (email : Text) (s : Store)
      → OnOk (λ (_, s'). s'.users ≡ s.users) (create_personal_org crypto left attempt d email s)
  unfolding create_personal_org
  create_personal_org-users zero attempt d email s = tt
  create_personal_org-users (suc left) attempt d email s =
      OnOk-retry (λ (_, s'). s'.users ≡ s.users) (create_org s d.org_id d.timestamp _ _) _
        (create_org-users s d.org_id d.timestamp _ _)
        (create_personal_org-users left (suc attempt) d email s)

  -- What a token does at a time, with its session open and after a logout.
  abbrev pub SessionLasts : AuthResult → Store → ℕ → Type 0
  SessionLasts r s t =
      ((authenticate crypto r.token t s).0 ≡ (if leb r.expires_at t then none else some r.user))
      × ((authenticate crypto r.token t (logout crypto r.token s)).0 ≡ none)

  -- A session was opened for a user of the store.
  abbrev Opened : Drawn → AuthResult → Store → Type 0
  Opened d r s =
      (user : User) × (org : Org) × (before : Store) × (get before.users user.id ≡ some user)
      × (r ≡ auth_result crypto d user org)
      × (s ≡ open_session crypto d user.id before)

  with_org-Opened :
      (d : Drawn) (user : User) (s : Store) (r : Result ServiceError (Org × Store))
      → get s.users user.id ≡ some user
      → OnOk (λ (_, s'). s'.users ≡ s.users) r
      → OnReturn (Opened d) (elim r [
        | err e ↦ (err e, s)
        | ok (org, s') ↦ (
          ok (auth_result crypto d user org),
          open_session crypto d user.id (add_member s' d.timestamp org.id user.id owner),
        )
      ])
  unfolding add_member
  with_org-Opened d user s (err e) known kept = tt
  with_org-Opened d user s (ok (org, s')) known kept = (
    user,
    org,
    add_member s' d.timestamp org.id user.id owner,
    ap (λ us. get us user.id) kept ∙ known,
    refl,
    refl,
  )

  sign_in_new-Opened :
      (d : Drawn) (email : Text) (user : User) (s : Store)
      → get s.users user.id ≡ some user
      → OnReturn (Opened d) (sign_in_new crypto d email user s)
  unfolding sign_in_new
  sign_in_new-Opened d email user s known =
      with_org-Opened d user s (create_personal_org crypto org_slug_retries 0 d email s) known
        (create_personal_org-users org_slug_retries 0 d email s)

  signup-Opened :
      (d : Drawn) (email password : Text) (s : Store)
      → OnReturn (Opened d) (signup crypto d email password s)
  unfolding signup
  signup-Opened d email password s = elim (Bool-cases (ltb (length password) min_password_length)) [
    | inl short ↦ rw short tt
    | inr long ↦
        elim (Result-cases (
          create_user crypto.to_lower_case s.users d.user_id d.timestamp email
            (crypto.hash_password password))) [
              | inl ((user, users), created) ↦
                  rw (long, created)
                    (sign_in_new-Opened d email user (record s { users = users })
                      (OnOk-ok Recorded _ (user, users)
                        (create_user-Recorded crypto.to_lower_case s.users d.user_id d.timestamp
                          email (crypto.hash_password password))
                        created))
              | inr (e, failed) ↦ rw (long, failed) tt
            ]
  ]

  -- A token with a session, and one without.
  authenticate-found :
      (token : Text) (t : ℕ) (s : Store) (session : Session)
      → token ≢ []
      → get s.sessions (crypto.hash_token token) ≡ some session
      → authenticate crypto token t s ≡ principal_of crypto s session t
  unfolding authenticate find_session
  authenticate-found [] t s session nonempty found = absurd (nonempty refl)
  authenticate-found (c ∷ token) t s session nonempty found =
      ap (λ o. elim o [ none ↦ (none, s) | some session ↦ principal_of crypto s session t ]) found

  authenticate-missing :
      (token : Text) (t : ℕ) (s : Store)
      → get s.sessions (crypto.hash_token token) ≡ none
      → (authenticate crypto token t s).0 ≡ none
  unfolding authenticate find_session
  authenticate-missing [] t s missing = refl
  authenticate-missing (c ∷ token) t s missing =
      ap
        (λ o.
          (elim o as (λ _. Option Principal × Store) [
            | none ↦ (none, s)
            | some session ↦ principal_of crypto s session t
          ]).0)
        missing

  Opened-lasts :
      (d : Drawn) (user : User) (org : Org) (s : Store) (t : ℕ)
      → d.token ≢ []
      → get s.users user.id ≡ some user
      → SessionLasts (auth_result crypto d user org) (open_session crypto d user.id s) t
  unfolding open_session create_session logout delete_session find_user_by_id
  Opened-lasts d user org s t nonempty known =
      let at = crypto.hash_token d.token in
      let session : Session = record {
        token_hash = at;
        user_id = user.id;
        created_at = d.timestamp;
        expires_at = d.now + session_ttl_ms;
      } in
      let found = get-set_self s.sessions at session in
      let opened = record s { sessions = set s.sessions at session } in
      (
        ap (λ p. p.0) (authenticate-found d.token t opened session nonempty found)
            ∙ ground (arith, known),
        authenticate-missing d.token t _ (get-delete _ at at ∙ ground (arith, eq_refl at)),
      )

  -- Where a sign-up with a token that is not empty returns, the token authenticates the new user in the
  -- store that is left at every time before `expires_at`, and nobody from that time on or after a logout.
  pub signup-SessionLasts :
      (d : Drawn) (email password : Text) (s s' : Store) (r : AuthResult) (t : ℕ)
      → d.token ≢ []
      → signup crypto d email password s ≡ (ok r, s')
      → SessionLasts r s' t
  signup-SessionLasts d email password s s' r t nonempty e =
      let (user, org, before, known, made, after) =
        subst (OnReturn (Opened d)) e (signup-Opened d email password s) in
      rw (made, after) (Opened-lasts d user org before t nonempty known)
