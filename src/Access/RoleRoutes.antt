-- ===== src/Access/RoleRoutes.antt =====
-- backend/app/crud/role.py and the routes of backend/app/api/v1/roles.py that change a role, with the
-- checks of backend/app/schemas/role.py. Descriptions, and lengths of names, are left out.
use shift_wise.Prelude.{
  ◌==◌, if◌then◌else◌, or_else, is_some, map_option, any, all, ℕ, Bool, true, false, ◌&&◌, not,
  Option, none, some, List, [], ◌∷◌, ◌++◌,
}
use shift_wise.Text.{Text, codes, text_eq, lower, one_of}
use shift_wise.Access.Roles.{Role, User, Permissions, has_id, has_permission}
use shift_wise.Access.Users.{UserDb}
use shift_wise.Access.Endpoints.{unprocessable, Status, ok, forbidden, not_found, bad_request}

pub record RoleCreate : Type 0 where
  pub name : Text
  pub permissions : Permissions
  pub is_active : Bool

pub record RoleUpdate : Type 0 where
  pub name : Option Text
  pub permissions : Option Permissions
  pub is_active : Option Bool

abbrev pub valid_actions : List Text
valid_actions = codes "create" ∷ codes "read" ∷ codes "update" ∷ codes "delete" ∷ codes "*" ∷ []

abbrev pub valid_resources : List Text
valid_resources =
    codes "users"
    ∷ codes "roles"
    ∷ codes "hypervisors"
    ∷ codes "vms"
    ∷ codes "migrations"
    ∷ codes "conversions"
    ∷ codes "kubevirt"
    ∷ codes "reports"
    ∷ codes "settings"
    ∷ []

-- `_validate_permissions_map`
unfoldable pub validate_permissions_map : Permissions → Bool
validate_permissions_map permissions =
    all
      (λ (item : Text × List Text).
        one_of (item.0) valid_resources && all (λ action. one_of action valid_actions) (item.1))
      permissions

unfoldable pub find_role : (Role → Bool) → List Role → Option Role
find_role p [] = none
find_role p (role ∷ roles) = if p role then some role else find_role p roles

abbrev pub get_role : ℕ → List Role → Option Role
get_role role_id roles = find_role (λ (role : Role). role.id == role_id) roles

unfoldable pub get_role_by_name : Text → List Role → Option Role
get_role_by_name name roles = find_role (λ (role : Role). text_eq role.name (lower name)) roles

unfoldable pub write_role : Role → List Role → List Role
write_role role [] = []
write_role role (r ∷ roles) = if r.id == role.id then role ∷ roles else r ∷ write_role role roles

unfoldable pub drop_role : ℕ → List Role → List Role
drop_role role_id [] = []
drop_role role_id (r ∷ roles) =
    let rest = drop_role role_id roles in if r.id == role_id then rest else r ∷ rest

abbrev pub new_role : ℕ → RoleCreate → Role
new_role role_id role = record {
  id = role_id;
  name = lower role.name;
  is_active = role.is_active;
  permissions = role.permissions;
  is_system_role = false;
}

-- `create_role`; `role_id` is the key that the table draws, and `none` the `ValueError`.
unfoldable pub create_role : ℕ → RoleCreate → List Role → Option (List Role)
create_role role_id role roles =
    if is_some (get_role_by_name role.name roles)
    then none
    else some (roles ++ new_role role_id role ∷ [])

-- Whether another role has the new name; the schema has put it in lower case.
abbrev pub name_taken : Option Text → Role → List Role → Bool
name_taken none role roles = false
name_taken (some name) role roles =
    not (text_eq (lower name) role.name) && is_some (get_role_by_name (lower name) roles)

abbrev pub updated_role : RoleUpdate → Role → Role
updated_role change role = record role {
  name = or_else (map_option lower change.name) role.name;
  permissions = or_else change.permissions role.permissions;
  is_active = or_else change.is_active role.is_active;
}

-- `update_role` on a role that was read.
unfoldable pub update_role : RoleUpdate → Role → List Role → Option (List Role)
update_role change role roles =
    if role.is_system_role
    then none
    else if name_taken change.name role roles
    then none
    else some (write_role (updated_role change role) roles)

-- `delete_role` on a role that was read.
unfoldable pub delete_role : Role → UserDb → Option (List Role)
delete_role role db =
    if role.is_system_role
    then none
    else if any (λ (user : User). has_id role.id user.role_ids) db.users
    then none
    else some (drop_role role.id db.roles)

pub data RoleCall : Type 0 where
  create : ℕ → RoleCreate → RoleCall
  update : ℕ → RoleUpdate → RoleCall
  delete : ℕ → RoleCall

abbrev pub stored : Option (List Role) → UserDb → UserDb × Status
stored none db = (db, bad_request)
stored (some roles) db = (record db { roles = roles }, ok)

unfoldable pub update_role_route : ℕ → RoleUpdate → UserDb → UserDb × Status
update_role_route role_id change db = elim (get_role role_id db.roles) [
  | none ↦ (db, not_found)
  | some role ↦
      if role.is_system_role then (db, forbidden) else stored (update_role change role db.roles) db
]

unfoldable pub delete_role_route : ℕ → UserDb → UserDb × Status
delete_role_route role_id db = elim (get_role role_id db.roles) [
  | none ↦ (db, not_found)
  | some role ↦ if role.is_system_role then (db, forbidden) else stored (delete_role role db) db
]

abbrev pub required_action : RoleCall → Text
required_action (create role_id role) = codes "create"
required_action (update role_id change) = codes "update"
required_action (delete role_id) = codes "delete"

-- Whether the schema of the request accepts its permissions.
abbrev pub well_formed : RoleCall → Bool
well_formed (create role_id role) = validate_permissions_map role.permissions
well_formed (update role_id change) = validate_permissions_map (or_else change.permissions [])
well_formed (delete role_id) = true

abbrev pub run_call : RoleCall → UserDb → UserDb × Status
run_call (create role_id role) db = stored (create_role role_id role db.roles) db
run_call (update role_id change) db = update_role_route role_id change db
run_call (delete role_id) db = delete_role_route role_id db

-- A route of roles behind `check_permission("roles", …)`, which is asked before the schema of the
-- request; the tests of the schema on the name are left out.
unfoldable pub call_role_route : User → RoleCall → UserDb → UserDb × Status
call_role_route current_user call db =
    if not (has_permission db.roles current_user (codes "roles") (required_action call))
    then (db, forbidden)
    else if not (well_formed call)
    then (db, unprocessable)
    else run_call call db
