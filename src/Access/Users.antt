-- ===== src/Access/Users.antt =====
-- backend/app/crud/user.py. Hashing and its check (bcrypt) are parameters. A field of an update
-- that is not set is `none`; names of persons and dates are left out, as nothing tests them.
use shift_wise.Prelude.{
  ◌==◌, if◌then◌else◌, or_else, is_some, map_option, ◌>>=◌, length, ℕ, Bool, false, not, Option,
  none, some, List, [], ◌∷◌, ◌++◌,
}
use shift_wise.Text.{Text, text_eq, lower}
use shift_wise.Access.Roles.{Role, User, with_ids, has_id}

pub record UserDb : Type 0 where
  pub users : List User
  pub roles : List Role

pub record UserCreate : Type 0 where
  pub email : Text
  pub username : Text
  pub password : Text
  pub tenant_id : Text
  pub is_active : Bool
  pub role_ids : List ℕ

pub record UserUpdate : Type 0 where
  pub email : Option Text
  pub username : Option Text
  pub password : Option Text
  pub is_active : Option Bool
  pub role_ids : Option (List ℕ)

-- The first row that passes a test.
unfoldable pub find_user : (User → Bool) → List User → Option User
find_user p [] = none
find_user p (user ∷ users) = if p user then some user else find_user p users

abbrev pub get_user : ℕ → List User → Option User
get_user user_id users = find_user (λ (u : User). u.id == user_id) users

unfoldable pub get_user_by_email : Text → List User → Option User
get_user_by_email email users = find_user (λ (u : User). text_eq u.email (lower email)) users

unfoldable pub get_user_by_username : Text → List User → Option User
get_user_by_username username users =
    find_user (λ (u : User). text_eq u.username (lower username)) users

-- The row of the user's id is written.
unfoldable pub write_user : User → List User → List User
write_user user [] = []
write_user user (u ∷ users) = if u.id == user.id then user ∷ users else u ∷ write_user user users

unfoldable pub drop_user : ℕ → List User → List User
drop_user user_id [] = []
drop_user user_id (u ∷ users) =
    let rest = drop_user user_id users in if u.id == user_id then rest else u ∷ rest

-- `len(roles) == len(role_ids)`
abbrev pub roles_exist : List ℕ → List Role → Bool
roles_exist ids roles = length (with_ids ids roles) == length ids

-- `_handle_email_update` and `_handle_username_update`: the value to store; `none` is the
-- `ValueError` on one in use.
unfoldable pub email_update : List User → User → Text → Option Text
email_update users user email =
    if text_eq (lower email) user.email
    then some email
    else if is_some (get_user_by_email (lower email) users)
    then none
    else some (lower email)

unfoldable pub username_update : List User → User → Text → Option Text
username_update users user username =
    if text_eq (lower username) user.username
    then some username
    else if is_some (get_user_by_username (lower username) users)
    then none
    else some (lower username)

-- A field that is given goes through `check`.
abbrev pub given {ℓ} : {A : Type ℓ} → (A → Option A) → A → Option A → Option A
given check stored none = some stored
given check stored (some new) = check new

module _ (get_password_hash : Text → Text) where
  abbrev pub new_user : ℕ → UserCreate → User
  new_user user_id user = record {
    id = user_id;
    email = lower user.email;
    username = lower user.username;
    hashed_password = get_password_hash user.password;
    tenant_id = lower user.tenant_id;
    is_active = user.is_active;
    is_superuser = false;
    role_ids = user.role_ids;
  }

  -- `user_id` is the key that the table draws; `none` is the `ValueError`.
  unfoldable pub create_user : ℕ → UserCreate → UserDb → Option UserDb
  create_user user_id user db =
      if is_some (get_user_by_email user.email db.users)
      then none
      else if is_some (get_user_by_username user.username db.users)
      then none
      else if not (roles_exist user.role_ids db.roles)
      then none
      else some (record db { users = db.users ++ new_user user_id user ∷ [] })

  -- The row that `update_user` stores, or `none` for its `ValueError`.
  unfoldable pub updated_user : UserUpdate → User → UserDb → Option User
  updated_user change user db = do
    email ← given (email_update db.users user) user.email change.email
    username ← given (username_update db.users user) user.username change.username
    role_ids ←
        given (λ ids. if roles_exist ids db.roles then some ids else none) user.role_ids
          change.role_ids
    some (record user {
      email = email;
      username = username;
      hashed_password = or_else (map_option get_password_hash change.password) user.hashed_password;
      is_active = or_else change.is_active user.is_active;
      role_ids = role_ids;
    })

-- `delete_user`
unfoldable pub delete_user : ℕ → UserDb → UserDb
delete_user user_id db = record db { users = drop_user user_id db.users }

-- `add_role_to_user` on a user and a role that exist.
abbrev pub add_role_to_user : ℕ → User → User
add_role_to_user role_id user = record user {
  role_ids = if has_id role_id user.role_ids then user.role_ids else user.role_ids ++ role_id ∷ [];
}

unfoldable pub without_id : ℕ → List ℕ → List ℕ
without_id n [] = []
without_id n (m ∷ ids) = let rest = without_id n ids in if m == n then rest else m ∷ rest

-- `remove_role_from_user`
abbrev pub remove_role_from_user : ℕ → User → User
remove_role_from_user role_id user = record user { role_ids = without_id role_id user.role_ids }
