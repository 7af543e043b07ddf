-- ===== src/Tenancy/Users.antt =====
-- apps/server/src/tenancy/memory-store.ts: the users of the store. The id, the clock's value and the
-- platform's `toLowerCase` are arguments.
pub mod Emails
use makedown.Base.{
  Text, text_eq, trim, ◌==◌, Option, none, some, List, [], ◌∷◌, find, Result, ok, err,
}
use makedown.Base.Map.{Map, get, set, values}

pub record User : Type 0 where
  pub id : Text
  pub email : Text
  pub password_hash : Text
  pub created_at : Text

abbrev pub Users : Type 0
Users = Map Text User

pub data StoreError : Type 0 where
  duplicate_user : Text → StoreError

module _ (to_lower_case : Text → Text) where
  unfoldable pub normalize_email : Text → Text
  normalize_email email = to_lower_case (trim email)

  unfoldable pub find_user_by_email : Users → Text → Option User
  find_user_by_email users email =
      let wanted = normalize_email email in find (λ u. u.email == wanted) (values users)

  -- The lookup normalizes the address a second time.
  unfoldable pub create_user : Users → Text → Text → Text → Text → Result StoreError (User × Users)
  create_user users id now email password_hash =
      let address = normalize_email email in
      elim (find_user_by_email users address) [
        | some _ ↦ err (duplicate_user address)
        | none ↦
            let user : User = record {
              id = id;
              email = address;
              password_hash = password_hash;
              created_at = now;
            } in
            ok (user, set users id user)
      ]

unfoldable pub find_user_by_id : Users → Text → Option User
find_user_by_id users id = get users id
