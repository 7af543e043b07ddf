-- ===== src/Tenancy/Users/Emails.antt =====
-- No two users share an address.
use makedown.Base.{
  Text, text_eq, true, Bool, none, some, [], ◌∷◌, find, ◌==◌, ◌≡◌, ◌⊎◌, refl, ok, err, arith,
  Option-cases, inl, inr, eq_refl, Bool-cases, if◌then◌else◌, is_some, ap, ◌∙◌,
}
use makedown.Base.Map.{get, set, values}
use makedown.Tenancy.Users.{
  User, Users, duplicate_user, normalize_email, find_user_by_email, create_user,
}

abbrev at_email : Text → User → Bool
at_email email u = u.email == email

abbrev pub UniqueEmails : Users → Type 0
UniqueEmails [] = Unit
UniqueEmails ((id, u) ∷ users) =
    (find (λ v. v.email == u.email) (values users) ≡ none) × UniqueEmails users

find-set_new :
    (p : User → Bool) (users : Users) (id : Text) (u : User)
    → get users id ≡ none
    → find p (values users) ≡ none
    → find p (values (set users id u)) ≡ (if p u then some u else none)
unfolding get set
find-set_new p [] id u g f = refl
find-set_new p ((j, v) ∷ users) id u g f = ground (arith, find-set_new p users id u)

set-UniqueEmails :
    (users : Users) (id : Text) (u : User)
    → get users id ≡ none
    → find (λ v. v.email == u.email) (values users) ≡ none
    → UniqueEmails users
    → UniqueEmails (set users id u)
unfolding get set
set-UniqueEmails [] id u g f d = (refl, tt)
set-UniqueEmails ((j, v) ∷ users) id u g f (once, d) = elim (Bool-cases (j == id)) [
  | inl same ↦ absurd (ground arith)
  | inr other ↦ rw other (
    ground (
      arith,
      find-set_new (λ x. x.email == v.email) users id u,
      text_eq.beq_iff u.email v.email,
      text_eq.beq_iff v.email u.email,
    ),
    set-UniqueEmails users id u (rw other at g) (ground arith) d,
  )
]

abbrev new_user : (Text → Text) → Text → Text → Text → Text → User
new_user to_lower_case id now email password_hash = record {
  id = id;
  email = normalize_email to_lower_case email;
  password_hash = password_hash;
  created_at = now;
}

module _ (to_lower_case : Text → Text) (users : Users) where
  lookup_again :
      (email : Text)
      → normalize_email to_lower_case (normalize_email to_lower_case email)
        ≡ normalize_email to_lower_case email
      → find_user_by_email to_lower_case users (normalize_email to_lower_case email)
        ≡ find_user_by_email to_lower_case users email
  unfolding find_user_by_email
  lookup_again email twice = ap (λ a. find (λ u. u.email == a) (values users)) twice

  create_user_taken :
      (id now email password_hash : Text) (u : User)
      → find_user_by_email to_lower_case users (normalize_email to_lower_case email) ≡ some u
      → create_user to_lower_case users id now email password_hash
        ≡ err (duplicate_user (normalize_email to_lower_case email))
  unfolding create_user
  create_user_taken id now email password_hash u h = rw (create_user, h) refl

  create_user_free :
      (id now email password_hash : Text)
      → find_user_by_email to_lower_case users (normalize_email to_lower_case email) ≡ none
      → create_user to_lower_case users id now email password_hash
        ≡ ok (
          new_user to_lower_case id now email password_hash,
          set users id (new_user to_lower_case id now email password_hash),
        )
  unfolding create_user
  create_user_free id now email password_hash h = rw (create_user, h) refl

-- Where normalizing an address twice is normalizing it once: registering a user under a new id fails
-- just if the address, normalized, is taken. If it is not, the user is found by it afterwards, and no
-- two users share an address if none did before.
pub create_user_lem :
    (to_lower_case : Text → Text) (users : Users) (id now email password_hash : Text)
    → normalize_email to_lower_case (normalize_email to_lower_case email)
      ≡ normalize_email to_lower_case email
    → get users id ≡ none
    → UniqueEmails users
    → ((is_some (find_user_by_email to_lower_case users email) ≡ true)
        × (create_user to_lower_case users id now email password_hash
            ≡ err (duplicate_user (normalize_email to_lower_case email))))
      ⊎ ((find_user_by_email to_lower_case users email ≡ none)
          × (u : User) × (after : Users) × (create_user to_lower_case users id now email
                password_hash
              ≡ ok (u, after))
          × (find_user_by_email to_lower_case after email ≡ some u)
          × UniqueEmails after)
unfolding find_user_by_email
create_user_lem to_lower_case users id now email password_hash twice fresh unique =
    let user = new_user to_lower_case id now email password_hash in
    let again = lookup_again to_lower_case users email twice in
    elim (Option-cases (find_user_by_email to_lower_case users email)) [
      | inr (taken, found) ↦ inl (
        rw found refl,
        create_user_taken to_lower_case users id now email password_hash taken (again ∙ found),
      )
      | inl free ↦ inr (
        free,
        user,
        set users id user,
        create_user_free to_lower_case users id now email password_hash (again ∙ free),
        ground (
          arith,
          find-set_new (λ u. u.email == user.email) users id user fresh free,
          eq_refl user.email,
        ),
        set-UniqueEmails users id user fresh free unique,
      )
    ]
