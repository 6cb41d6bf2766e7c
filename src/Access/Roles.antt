-- ===== src/Access/Roles.antt =====
-- backend/app/models/role.py and backend/app/models/user.py. A `dict` is the list of its items, and
-- a user's `roles` are the rows of the table of roles whose ids the association table gives it.
use shift_wise.Prelude.{◌==◌, if◌then◌else◌, any, ℕ, Bool, ◌&&◌, ◌||◌, List, [], ◌∷◌}
use shift_wise.Text.{Text, codes, text_eq, one_of}

abbrev pub Permissions : Type 0
Permissions = List (Text × List Text)

pub record Role : Type 0 where
  pub id : ℕ
  pub name : Text
  pub is_active : Bool
  pub permissions : Permissions
  pub is_system_role : Bool

pub record User : Type 0 where
  pub id : ℕ
  pub email : Text
  pub username : Text
  pub hashed_password : Text
  pub tenant_id : Text
  pub is_active : Bool
  pub is_superuser : Bool
  pub role_ids : List ℕ

-- `permissions.get(resource, [])`
unfoldable pub actions_of : Text → Permissions → List Text
actions_of resource [] = []
actions_of resource ((key, actions) ∷ items) =
    if text_eq resource key then actions else actions_of resource items

abbrev pub allows : List Text → Text → Bool
allows actions action = one_of action actions || one_of (codes "*") actions

-- `Role.has_permission`
abbrev pub role_has_permission : Role → Text → Text → Bool
role_has_permission role resource action = allows (actions_of resource role.permissions) action

abbrev pub has_id : ℕ → List ℕ → Bool
has_id n ids = any (λ m. m == n) ids

-- `Role.id.in_(ids)`
unfoldable pub with_ids : List ℕ → List Role → List Role
with_ids ids [] = []
with_ids ids (role ∷ roles) =
    let rest = with_ids ids roles in if has_id role.id ids then role ∷ rest else rest

-- `User.has_role`
abbrev pub has_role : List Role → User → Text → Bool
has_role roles user name =
    any (λ (role : Role). text_eq role.name name) (with_ids user.role_ids roles)

abbrev pub grants : Text → Text → Role → Bool
grants resource action role = role.is_active && role_has_permission role resource action

-- `User.has_permission`
unfoldable pub has_permission : List Role → User → Text → Text → Bool
has_permission roles user resource action =
    user.is_superuser || any (grants resource action) (with_ids user.role_ids roles)

-- `User.can_access_tenant`
abbrev pub can_access_tenant : User → Text → Bool
can_access_tenant user tenant_id = user.is_superuser || text_eq user.tenant_id tenant_id

-- `s.update(actions)`; the order of a set is not modelled by anything.
unfoldable pub add_actions : List Text → List Text → List Text
add_actions held [] = held
add_actions held (action ∷ actions) =
    let rest = add_actions held actions in if one_of action rest then rest else action ∷ rest

-- One turn of the inner loop of `get_all_permissions`.
unfoldable pub merge_item : Text → List Text → Permissions → Permissions
merge_item resource actions [] = (resource, add_actions [] actions) ∷ []
merge_item resource actions ((key, held) ∷ items) =
    if text_eq resource key
    then (key, add_actions held actions) ∷ items
    else (key, held) ∷ merge_item resource actions items

unfoldable pub merge_items : Permissions → Permissions → Permissions
merge_items [] all_permissions = all_permissions
merge_items ((resource, actions) ∷ items) all_permissions =
    merge_items items (merge_item resource actions all_permissions)

unfoldable pub merge_roles : List Role → Permissions → Permissions
merge_roles [] all_permissions = all_permissions
merge_roles (role ∷ roles) all_permissions =
    merge_roles roles
      (if role.is_active then merge_items role.permissions all_permissions else all_permissions)

abbrev everything : Permissions
everything = (codes "*", codes "*" ∷ []) ∷ []

-- `User.get_all_permissions`
unfoldable pub get_all_permissions : List Role → User → Permissions
get_all_permissions roles user =
    if user.is_superuser then everything else merge_roles (with_ids user.role_ids roles) []
