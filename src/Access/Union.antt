-- ===== src/Access/Union.antt =====
-- `get_all_permissions` of backend/app/models/user.py against `has_permission`.
use shift_wise.Prelude.{
  if◌then◌else◌, any, all, ℕ, ◌≡◌, refl, Bool, true, false, ◌&&◌, ◌||◌, not, List, [], ◌∷◌, arith,
}
use shift_wise.Text.{Text, codes, text_eq, one_of, text_eq→eq, text_eq_refl}
use shift_wise.Access.Roles.{
  Role, User, Permissions, actions_of, allows, with_ids, grants, has_permission, add_actions,
  merge_item, merge_items, merge_roles, get_all_permissions,
}

abbrev has_key : Text → Permissions → Bool
has_key resource items = any (λ (item : Text × List Text). text_eq resource (item.0)) items

-- A dict has no key twice.
abbrev pub distinct_keys : Permissions → Bool
distinct_keys [] = true
distinct_keys ((key, actions) ∷ items) = not (has_key key items) && distinct_keys items

one_of-add_actions :
    (a : Text) (held actions : List Text)
    → one_of a (add_actions held actions) ≡ (one_of a held || one_of a actions)
unfolding add_actions one_of
one_of-add_actions a held [] = ground arith
one_of-add_actions a held (x ∷ actions) =
    ground
      (arith, one_of-add_actions a held actions, one_of-add_actions x held actions, text_eq→eq a x)

module _ (resource action : Text) where
  abbrev listed : Permissions → Bool
  listed items = one_of action (actions_of resource items)

  listed-merge_item :
      (key : Text) (actions : List Text) (items : Permissions)
      → listed (merge_item key actions items)
        ≡ (listed items || (text_eq resource key && one_of action actions))
  unfolding merge_item actions_of
  listed-merge_item key actions [] = ground (arith, one_of-add_actions action [] actions)
  listed-merge_item key actions ((k, held) ∷ items) = ground (
    arith,
    listed-merge_item key actions items,
    one_of-add_actions action held actions,
    text_eq→eq key k,
    text_eq→eq resource k,
    text_eq→eq resource key,
    text_eq_refl resource,
  )

  actions_of-absent :
      (items : Permissions) → has_key resource items ≡ false → actions_of resource items ≡ []
  unfolding actions_of
  actions_of-absent [] absent = refl
  actions_of-absent ((key, actions) ∷ items) absent = ground (arith, actions_of-absent items)

  listed-merge_items :
      (items all_permissions : Permissions)
      → distinct_keys items ≡ true
      → listed (merge_items items all_permissions) ≡ (listed all_permissions || listed items)
  unfolding merge_items actions_of one_of
  listed-merge_items [] all_permissions distinct = ground arith
  listed-merge_items ((key, actions) ∷ items) all_permissions distinct = ground (
    arith,
    listed-merge_items items (merge_item key actions all_permissions),
    listed-merge_item key actions all_permissions,
    actions_of-absent items,
    text_eq→eq resource key,
  )

  abbrev lists : Role → Bool
  lists role = role.is_active && listed role.permissions

  listed-merge_roles :
      (rs : List Role) (all_permissions : Permissions)
      → all (λ (role : Role). distinct_keys role.permissions) rs ≡ true
      → listed (merge_roles rs all_permissions) ≡ (listed all_permissions || any lists rs)
  unfolding merge_roles
  listed-merge_roles [] all_permissions distinct = ground arith
  listed-merge_roles (role ∷ rs) all_permissions distinct = ground (
    arith,
    listed-merge_roles rs
        (if role.is_active then merge_items role.permissions all_permissions else all_permissions),
    listed-merge_items role.permissions all_permissions,
  )

listed-empty : (resource action : Text) → listed resource action [] ≡ false
unfolding actions_of one_of
listed-empty resource action = refl

any-lists :
    (resource action : Text) (rs : List Role)
    → any (grants resource action) rs
      ≡ (any (lists resource action) rs || any (lists resource (codes "*")) rs)
any-lists resource action [] = refl
any-lists resource action (role ∷ rs) = ground (arith, any-lists resource action rs)

all-with_ids :
    (p : Role → Bool) (ids : List ℕ) (roles : List Role)
    → all p roles ≡ true
    → all p (with_ids ids roles) ≡ true
unfolding with_ids
all-with_ids p ids [] h = h
all-with_ids p ids (role ∷ roles) h = ground (arith, all-with_ids p ids roles)

-- For an account without the superuser flag, the permissions that `get_all_permissions` lists give
-- an action on a resource, by name or by the star, exactly when `has_permission` does.
pub get_all_permissions-has_permission :
    (roles : List Role) (user : User) (resource action : Text)
    → all (λ (role : Role). distinct_keys role.permissions) roles ≡ true
    → user.is_superuser ≡ false
    → allows (actions_of resource (get_all_permissions roles user)) action
      ≡ has_permission roles user resource action
unfolding get_all_permissions has_permission
get_all_permissions-has_permission roles user resource action distinct plain =
    let rs = with_ids user.role_ids roles in
    let fine =
      all-with_ids (λ (role : Role). distinct_keys role.permissions) user.role_ids roles distinct in
    ground (
      arith,
      listed-merge_roles resource action rs [] fine,
      listed-merge_roles resource (codes "*") rs [] fine,
      any-lists resource action rs,
      listed-empty resource action,
      listed-empty resource (codes "*"),
    )
