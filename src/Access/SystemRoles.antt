-- ===== src/Access/SystemRoles.antt =====
-- What the routes of backend/app/api/v1/roles.py keep, and what they let through.
use shift_wise.Prelude.{
  ◌==◌, Bool-cases, Option-cases, any, ℕ, ◌≡◌, refl, sym, subst, ◌⊎◌, inl, inr, Bool, true, false,
  none, some, List, [], ◌∷◌, ◌++◌, arith,
}
use shift_wise.Text.{Text, codes}
use shift_wise.Access.Roles.{
  Role, User, Permissions, actions_of, allows, with_ids, has_id, has_permission, grants,
}
use shift_wise.Access.Users.{UserDb}
use shift_wise.Access.RoleRoutes.{
  new_role, updated_role, required_action, RoleCall, RoleUpdate, create, update, delete, find_role,
  get_role, write_role, drop_role, create_role, update_role, delete_role, update_role_route,
  delete_role_route, call_role_route, validate_permissions_map, well_formed, run_call,
}

get_role-id :
    (id : ℕ) (roles : List Role) (role : Role) → get_role id roles ≡ some role → role.id ≡ id
unfolding find_role
get_role-id id [] role h = cc h
get_role-id id (r ∷ roles) role h = ground (arith, get_role-id id roles role)

get_role-write_role :
    (id : ℕ) (row : Role) (roles : List Role)
    → (row.id == id) ≡ false
    → get_role id (write_role row roles) ≡ get_role id roles
unfolding find_role write_role
get_role-write_role id row [] other = refl
get_role-write_role id row (r ∷ roles) other = ground (arith, get_role-write_role id row roles)

get_role-drop_role :
    (id n : ℕ) (roles : List Role)
    → (n == id) ≡ false
    → get_role id (drop_role n roles) ≡ get_role id roles
unfolding find_role drop_role
get_role-drop_role id n [] other = refl
get_role-drop_role id n (r ∷ roles) other = ground (arith, get_role-drop_role id n roles)

get_role-append :
    (id : ℕ) (row role : Role) (roles : List Role)
    → get_role id roles ≡ some role
    → get_role id (roles ++ row ∷ []) ≡ some role
unfolding find_role
get_role-append id row role [] h = cc h
get_role-append id row role (r ∷ roles) h = ground (arith, get_role-append id row role roles)

run_call-system :
    (call : RoleCall) (db : UserDb) (id : ℕ) (role : Role)
    → get_role id db.roles ≡ some role
    → role.is_system_role ≡ true
    → get_role id ((run_call call db).0.roles) ≡ some role
unfolding create_role update_role_route update_role delete_role_route delete_role
run_call-system (create role_id new) db id role there system =
    ground (arith, get_role-append id (new_role role_id new) role db.roles there)
run_call-system (update role_id change) db id role there system =
    elim (Option-cases (get_role role_id db.roles)) [
      | inl missing ↦ ground (arith, missing)
      | inr (old, found) ↦ ground (
        arith,
        found,
        get_role-id role_id db.roles old found,
        get_role-write_role id (updated_role change old) db.roles,
      )
    ]
run_call-system (delete role_id) db id role there system =
    elim (Option-cases (get_role role_id db.roles)) [
      | inl missing ↦ ground (arith, missing)
      | inr (old, found) ↦ ground (
        arith,
        found,
        get_role-id role_id db.roles old found,
        get_role-drop_role id old.id db.roles,
      )
    ]

call_role_route-cases :
    (caller : User) (call : RoleCall) (db : UserDb)
    → ((call_role_route caller call db).0 ≡ db)
      ⊎ ((call_role_route caller call db).0 ≡ (run_call call db).0)
unfolding call_role_route
call_role_route-cases caller call db = elim (Bool-cases (well_formed call)) [
  | inr refused ↦ inl (ground arith)
  | inl fine ↦
      elim (Bool-cases (has_permission db.roles caller (codes "roles") (required_action call))) [
        | inr refused ↦ inl (ground arith)
        | inl may ↦ inr (ground arith)
      ]
]

-- No call of the routes of roles, whoever makes it, changes or removes a role of the system.
pub call_role_route-system :
    (caller : User) (call : RoleCall) (db : UserDb) (id : ℕ) (role : Role)
    → get_role id db.roles ≡ some role
    → role.is_system_role ≡ true
    → get_role id ((call_role_route caller call db).0.roles) ≡ some role
call_role_route-system caller call db id role there system =
    elim (call_role_route-cases caller call db) [
      | inl same ↦ subst (λ (d : UserDb). get_role id d.roles ≡ some role) (sym same) there
      | inr ran ↦
          subst (λ (d : UserDb). get_role id d.roles ≡ some role) (sym ran)
            (run_call-system call db id role there system)
    ]

has_permission-any :
    (roles : List Role) (user : User) (resource action : Text)
    → any (grants resource action) (with_ids user.role_ids roles) ≡ true
    → has_permission roles user resource action ≡ true
unfolding has_permission
has_permission-any roles user resource action h = ground arith

any-write_role :
    (p : Role → Bool) (ids : List ℕ) (old row : Role) (roles : List Role)
    → get_role row.id roles ≡ some old
    → has_id row.id ids ≡ true
    → p row ≡ true
    → any p (with_ids ids (write_role row roles)) ≡ true
unfolding find_role write_role with_ids
any-write_role p ids old row [] there held holds = cc there
any-write_role p ids old row (r ∷ roles) there held holds =
    ground (arith, any-write_role p ids old row roles)

-- A user who may update roles and holds one that is not of the system can write into it any
-- permissions that the schema knows, also those that the user lacks, and has them from then on: the
-- check of `_check_privilege_escalation` is not made on this route.
pub update_role-escalates :
    (caller : User) (id : ℕ) (role : Role) (permissions : Permissions) (db : UserDb)
    (resource action : Text)
    → has_permission db.roles caller (codes "roles") (codes "update") ≡ true
    → get_role id db.roles ≡ some role
    → role.is_system_role ≡ false
    → role.is_active ≡ true
    → has_id id caller.role_ids ≡ true
    → validate_permissions_map permissions ≡ true
    → allows (actions_of resource permissions) action ≡ true
    → let change : RoleUpdate = record {
      name = none;
      permissions = some permissions;
      is_active = none;
    } in
      has_permission ((call_role_route caller (update id change) db).0.roles) caller resource action
      ≡ true
unfolding call_role_route update_role_route update_role
update_role-escalates caller id role permissions db resource action may there custom active held
      valid granted =
    let change : RoleUpdate = record {
      name = none;
      permissions = some permissions;
      is_active = none;
    } in
    let row = updated_role change role in
    let same = get_role-id id db.roles role there in
    let written : (call_role_route caller (update id change) db).0.roles ≡ write_role row db.roles =
      ground arith in
    subst (λ rs. has_permission rs caller resource action ≡ true) (sym written)
      (has_permission-any (write_role row db.roles) caller resource action (
        any-write_role (grants resource action) caller.role_ids role row db.roles (ground arith)
          (ground arith) (ground arith)))
