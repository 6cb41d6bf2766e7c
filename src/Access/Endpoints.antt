-- ===== src/Access/Endpoints.antt =====
-- backend/app/api/v1/users.py, with the permission that each route requires: `check_permission` of
-- backend/app/api/deps.py.
use shift_wise.Prelude.{
  ltb, ◌==◌, if◌then◌else◌, or_else, is_some, length, any, all, is_empty, ℕ, Bool, ◌&&◌, ◌||◌, not,
  Option, none, some, List, [], ◌∷◌,
}
use shift_wise.Text.{Text, codes, text_eq}
use shift_wise.Access.Roles.{Role, User, with_ids, has_role, has_permission}
use shift_wise.Access.Users.{
  UserDb, UserCreate, UserUpdate, get_user, write_user, create_user, updated_user, delete_user,
  add_role_to_user, remove_role_from_user,
}

pub data Status : Type 0 where
  ok forbidden not_found bad_request unprocessable : Status

pub data Call : Type 0 where
  create : ℕ → UserCreate → Call
  update : ℕ → UserUpdate → Call
  delete : ℕ → Call
  add_role : ℕ → ℕ → Call
  remove_role : ℕ → ℕ → Call

abbrev pub super_admin_role : Text
super_admin_role = codes "super_admin"

-- Whether the role passes the loop of `_check_privilege_escalation`.
abbrev pub assignable : List Role → User → Role → Bool
assignable roles current_user role =
    not (text_eq role.name super_admin_role)
    && all (λ (item : Text × List Text). all (has_permission roles current_user (item.0)) (item.1))
        role.permissions

-- `_check_privilege_escalation`
unfoldable pub check_privilege_escalation : List Role → User → List ℕ → Bool
check_privilege_escalation roles current_user role_ids =
    all (assignable roles current_user) (with_ids role_ids roles)

-- `_is_super_admin`
abbrev pub is_super_admin : List Role → User → Bool
is_super_admin roles user = user.is_superuser || has_role roles user super_admin_role

-- The multi-tenancy check.
abbrev pub outside : User → User → Bool
outside current_user user =
    not current_user.is_superuser && not (text_eq user.tenant_id current_user.tenant_id)

-- `len({role.id for role in user.roles})`, of which the ids are a key of the table.
abbrev pub role_count : List Role → User → ℕ
role_count roles user = length (with_ids user.role_ids roles)

-- What `update_user` tests before it writes, on the row that it read.
unfoldable pub update_refused : User → User → UserUpdate → List Role → Option Status
update_refused current_user user change roles =
    let own = user.id == current_user.id in
    if not own && outside current_user user
    then some forbidden
    else if not own && not current_user.is_superuser && is_super_admin roles user
    then some forbidden
    else if own && not current_user.is_superuser && is_some change.role_ids
    then some forbidden
    else if is_some change.password && own
    then some bad_request
    else if not current_user.is_superuser
        && not (check_privilege_escalation roles current_user (or_else change.role_ids []))
    then some forbidden
    else none

unfoldable pub delete_endpoint : User → ℕ → UserDb → UserDb × Status
delete_endpoint current_user user_id db =
    if user_id == current_user.id then (db, forbidden) else elim (get_user user_id db.users) [
      | none ↦ (db, not_found)
      | some user ↦
          if outside current_user user
          then (db, forbidden)
          else if not current_user.is_superuser && is_super_admin db.roles user
          then (db, forbidden)
          else (delete_user user_id db, ok)
    ]

unfoldable pub add_role_endpoint : User → ℕ → ℕ → UserDb → UserDb × Status
add_role_endpoint current_user user_id role_id db = elim (get_user user_id db.users) [
  | none ↦ (db, not_found)
  | some user ↦
      if outside current_user user
      then (db, forbidden)
      else if is_empty (with_ids (role_id ∷ []) db.roles)
      then (db, not_found)
      else if user_id == current_user.id && not current_user.is_superuser
      then (db, forbidden)
      else if not current_user.is_superuser
          && not (check_privilege_escalation db.roles current_user (role_id ∷ []))
      then (db, forbidden)
      else (record db { users = write_user (add_role_to_user role_id user) db.users }, ok)
]

unfoldable pub remove_role_endpoint : User → ℕ → ℕ → UserDb → UserDb × Status
remove_role_endpoint current_user user_id role_id db = elim (get_user user_id db.users) [
  | none ↦ (db, not_found)
  | some user ↦
      if outside current_user user
      then (db, forbidden)
      else if any (λ (role : Role). role.id == role_id) (with_ids user.role_ids db.roles)
          && ltb (role_count db.roles user) 2
      then (db, bad_request)
      else (record db { users = write_user (remove_role_from_user role_id user) db.users }, ok)
]

abbrev pub required : Call → Text
required (create user_id data_in) = codes "create"
required (update user_id change) = codes "update"
required (delete user_id) = codes "delete"
required (add_role user_id role_id) = codes "update"
required (remove_role user_id role_id) = codes "update"

module _ (get_password_hash : Text → Text) where
  unfoldable pub create_endpoint : User → ℕ → UserCreate → UserDb → UserDb × Status
  create_endpoint current_user user_id data_in db =
      if not current_user.is_superuser && not (text_eq data_in.tenant_id current_user.tenant_id)
      then (db, forbidden)
      else if not current_user.is_superuser
          && not (check_privilege_escalation db.roles current_user data_in.role_ids)
      then (db, forbidden)
      else elim (create_user get_password_hash user_id data_in db) [
        | none ↦ (db, bad_request)
        | some after ↦ (after, ok)
      ]

  unfoldable pub update_endpoint : User → ℕ → UserUpdate → UserDb → UserDb × Status
  update_endpoint current_user user_id change db = elim (get_user user_id db.users) [
    | none ↦ (db, not_found)
    | some user ↦ elim (update_refused current_user user change db.roles) [
      | some status ↦ (db, status)
      | none ↦ elim (updated_user get_password_hash change user db) [
        | none ↦ (db, bad_request)
        | some row ↦ (record db { users = write_user row db.users }, ok)
      ]
    ]
  ]

  unfoldable pub dispatch : User → Call → UserDb → UserDb × Status
  dispatch current_user (create user_id data_in) db =
      create_endpoint current_user user_id data_in db
  dispatch current_user (update user_id change) db = update_endpoint current_user user_id change db
  dispatch current_user (delete user_id) db = delete_endpoint current_user user_id db
  dispatch current_user (add_role user_id role_id) db =
      add_role_endpoint current_user user_id role_id db
  dispatch current_user (remove_role user_id role_id) db =
      remove_role_endpoint current_user user_id role_id db

  -- A route behind `check_permission("users", …)`.
  unfoldable pub call_route : User → Call → UserDb → UserDb × Status
  call_route current_user call db =
      if has_permission db.roles current_user (codes "users") (required call)
      then dispatch current_user call db
      else (db, forbidden)
