-- ===== src/Examples/Accounts.antt =====
-- Two tenants: `acme` with an administrator, an operator and a super administrator by role, and
-- `other` with one account.
use shift_wise.Prelude.{ℕ, ◌≡◌, refl, ◌≢◌, ◌⊎◌, true, false, none, some, List, [], ◌∷◌}
use shift_wise.Text.{Text, codes, text_eq, lower, one_of}
use shift_wise.Access.Roles.{
  Role, User, actions_of, allows, get_all_permissions, has_permission, with_ids,
}
use shift_wise.Access.Users.{
  UserDb, UserUpdate, find_user, get_user, get_user_by_email, updated_user, write_user,
  get_user_by_username, email_update, username_update,
}
use shift_wise.Access.Endpoints.{
  Call, remove_role, remove_role, add_role, delete, call_route, update_endpoint, update_refused,
  forbidden, ok, dispatch, add_role_endpoint, check_privilege_escalation,
}
use shift_wise.Access.Escalation.{call_route-no_escalation, call_route-other_tenant}
use shift_wise.Access.Accounts.{update_endpoint-lost_email, call_route-unguarded, call_twice}
use shift_wise.Access.RoleRoutes.{
  RoleUpdate, update, get_role, find_role, call_role_route, validate_permissions_map,
}
use shift_wise.Access.SystemRoles.{call_role_route-system, update_role-escalates}
use shift_wise.Access.Union.{get_all_permissions-has_permission}

abbrev hash : Text → Text
hash password = 0 ∷ password

abbrev account : ℕ → Text → Text → List ℕ → User
account id email tenant_id role_ids = record {
  id = id;
  email = email;
  username = email;
  hashed_password = hash email;
  tenant_id = tenant_id;
  is_active = true;
  is_superuser = false;
  role_ids = role_ids;
}

abbrev all_users : List (Text × List Text)
all_users = (codes "users", codes "*" ∷ []) ∷ (codes "vms", codes "read" ∷ []) ∷ []

abbrev admin_role : Role
admin_role = record {
  id = 1;
  name = codes "admin";
  is_active = true;
  permissions = all_users;
  is_system_role = true;
}

abbrev reader_role : Role
reader_role = record {
  id = 2;
  name = codes "reader";
  is_active = true;
  permissions = (codes "vms", codes "read" ∷ []) ∷ [];
  is_system_role = false;
}

abbrev super_role : Role
super_role = record {
  id = 3;
  name = codes "super_admin";
  is_active = true;
  permissions = (codes "vms", codes "*" ∷ []) ∷ [];
  is_system_role = true;
}

abbrev admin : User
admin = account 1 (codes "boss@a") (codes "acme") (1 ∷ [])

abbrev worker : User
worker = account 2 (codes "x@a") (codes "acme") []

abbrev chief : User
chief = account 3 (codes "chief@a") (codes "acme") (2 ∷ 3 ∷ [])

abbrev stranger : User
stranger = account 4 (codes "y@b") (codes "other") (2 ∷ [])

abbrev tables : UserDb
tables = record {
  users = admin ∷ worker ∷ chief ∷ stranger ∷ [];
  roles = admin_role ∷ reader_role ∷ super_role ∷ [];
}

-- The administrator makes the operator a reader, who may then read VMs.
call_route-no_escalation_example :
    (has_permission tables.roles admin (codes "vms") (codes "read") ≡ true)
    ⊎ ((old : User) × (get_user 2 tables.users ≡ some old)
        × (has_permission tables.roles old (codes "vms") (codes "read") ≡ true))
unfolding has_permission call_route dispatch add_role_endpoint check_privilege_escalation with_ids
    find_user write_user actions_of one_of text_eq
call_route-no_escalation_example =
    call_route-no_escalation hash admin refl (add_role 2 2) tables 2
      (account 2 (codes "x@a") (codes "acme") (2 ∷ [])) (codes "vms") (codes "read") refl refl

call_route-other_tenant_example :
    get_user 4 ((call_route hash admin (delete 4) tables).0.users) ≡ some stranger
unfolding find_user text_eq
call_route-other_tenant_example =
    call_route-other_tenant hash admin refl (delete 4) tables 4 stranger refl refl refl

get_all_permissions-has_permission_example :
    allows (actions_of (codes "users") (get_all_permissions tables.roles admin)) (codes "delete")
    ≡ has_permission tables.roles admin (codes "users") (codes "delete")
unfolding text_eq
get_all_permissions-has_permission_example =
    get_all_permissions-has_permission tables.roles admin (codes "users") (codes "delete") refl refl

abbrev capital : UserUpdate
capital = record {
  email = some (codes "X@a");
  username = none;
  password = none;
  is_active = none;
  role_ids = none;
}

abbrev renamed : User
renamed = record worker { email = codes "X@a" }

update_endpoint-lost_email_example :
    get_user_by_email (codes "x@a") ((update_endpoint hash admin 2 capital tables).0.users)
    ≢ some renamed
unfolding find_user lower text_eq update_endpoint update_refused updated_user email_update
    username_update get_user_by_email get_user_by_username write_user check_privilege_escalation
    with_ids
update_endpoint-lost_email_example =
    update_endpoint-lost_email hash admin 2 capital tables worker renamed (codes "X@a")
      (codes "x@a") refl refl refl refl refl refl

call_route-unguarded_example :
    ((call_route hash admin (Call.update 3 capital) tables).1 ≡ forbidden)
    × ((call_route hash admin (delete 3) tables).1 ≡ forbidden)
    × ((call_twice hash admin (remove_role 3 3) (delete 3) tables).1 ≡ ok)
    × (get_user 3 ((call_twice hash admin (remove_role 3 3) (delete 3) tables).0.users) ≡ none)
unfolding has_permission actions_of one_of find_user text_eq with_ids
call_route-unguarded_example =
    call_route-unguarded hash admin chief 3 3 capital tables refl refl refl refl refl refl refl refl
      refl refl

-- A role of the tenant's own making that may update roles, and the account that holds it.
abbrev lead_role : Role
lead_role = record {
  id = 9;
  name = codes "lead";
  is_active = true;
  permissions = (codes "roles", codes "update" ∷ []) ∷ [];
  is_system_role = false;
}

abbrev lead : User
lead = account 5 (codes "lead@a") (codes "acme") (9 ∷ [])

abbrev with_lead : UserDb
with_lead = record { users = lead ∷ tables.users; roles = admin_role ∷ lead_role ∷ [] }

abbrev all_vms : RoleUpdate
all_vms = record {
  name = none;
  permissions = some ((codes "users", codes "*" ∷ []) ∷ []);
  is_active = none;
}

call_role_route-system_example :
    get_role 1 ((call_role_route lead (update 1 all_vms) with_lead).0.roles) ≡ some admin_role
unfolding find_role
call_role_route-system_example =
    call_role_route-system lead (update 1 all_vms) with_lead 1 admin_role refl refl

update_role-escalates_example :
    has_permission
      ((call_role_route lead (update 9 all_vms) with_lead).0.roles)
      lead
      (codes "users")
      (codes "delete")
    ≡ true
unfolding find_role has_permission with_ids actions_of one_of text_eq validate_permissions_map
update_role-escalates_example =
    update_role-escalates lead 9 lead_role ((codes "users", codes "*" ∷ []) ∷ []) with_lead
      (codes "users") (codes "delete") refl refl refl refl refl refl refl
