-- ===== src/Access/Grants.antt =====
-- What the roles that an assignment adds or removes allow.
use shift_wise.Prelude.{
  any, all, ℕ, ◌≡◌, refl, ◌⊎◌, inl, Bool, true, ◌||◌, List, [], ◌∷◌, ◌++◌, arith,
}
use shift_wise.Text.{Text, codes, one_of, text_eq→eq}
use shift_wise.Access.Roles.{
  Role, User, Permissions, actions_of, with_ids, has_id, has_permission, grants,
}
use shift_wise.Access.Users.{without_id}
use shift_wise.Access.Endpoints.{assignable, check_privilege_escalation}

all-one_of :
    (p : Text → Bool) (xs : List Text) (a : Text)
    → all p xs ≡ true
    → one_of a xs ≡ true
    → p a ≡ true
unfolding one_of
all-one_of p [] a holds found = cc found
all-one_of p (x ∷ xs) a holds found = ground (arith, all-one_of p xs a, text_eq→eq a x)

module _ (roles : List Role) (caller : User) (resource : Text) where
  all-actions_of :
      (perms : Permissions)
      → all (λ (item : Text × List Text). all (has_permission roles caller (item.0)) (item.1)) perms
        ≡ true
      → all (has_permission roles caller resource) (actions_of resource perms) ≡ true
  unfolding actions_of
  all-actions_of [] holds = refl
  all-actions_of ((key, actions) ∷ items) holds =
      ground (arith, all-actions_of items, text_eq→eq resource key)

  any-grants_star :
      (action : Text) (rs : List Role)
      → any (grants resource (codes "*")) rs ≡ true
      → any (grants resource action) rs ≡ true
  any-grants_star action [] h = h
  any-grants_star action (role ∷ rs) h = ground (arith, any-grants_star action rs)

  has_permission-star :
      (action : Text)
      → has_permission roles caller resource (codes "*") ≡ true
      → has_permission roles caller resource action ≡ true
  unfolding has_permission
  has_permission-star action h =
      ground (arith, any-grants_star action (with_ids caller.role_ids roles))

  any-assignable :
      (action : Text) (rs : List Role)
      → all (assignable roles caller) rs ≡ true
      → any (grants resource action) rs ≡ true
      → has_permission roles caller resource action ≡ true
  any-assignable action [] safe h = cc h
  any-assignable action (role ∷ rs) safe h =
      let acts = actions_of resource role.permissions in
      ground (
        arith,
        any-assignable action rs,
        all-actions_of role.permissions,
        all-one_of (has_permission roles caller resource) acts action,
        all-one_of (has_permission roles caller resource) acts (codes "*"),
        has_permission-star action,
      )

  -- Roles that pass the check allow nothing that the caller may not do.
  pub check_privilege_escalation-bounds :
      (action : Text) (ids : List ℕ)
      → check_privilege_escalation roles caller ids ≡ true
      → any (grants resource action) (with_ids ids roles) ≡ true
      → has_permission roles caller resource action ≡ true
  unfolding check_privilege_escalation
  check_privilege_escalation-bounds action ids safe h =
      any-assignable action (with_ids ids roles) safe h

has_id-append : (n : ℕ) (xs ys : List ℕ) → has_id n (xs ++ ys) ≡ (has_id n xs || has_id n ys)
has_id-append n [] ys = refl
has_id-append n (x ∷ xs) ys = ground (arith, has_id-append n xs ys)

has_id-without_id : (n m : ℕ) (xs : List ℕ) → has_id n (without_id m xs) ≡ true → has_id n xs ≡ true
unfolding without_id
has_id-without_id n m [] h = h
has_id-without_id n m (x ∷ xs) h = ground (arith, has_id-without_id n m xs)

pub any-with_ids-append :
    (p : Role → Bool) (xs ys : List ℕ) (roles : List Role)
    → any p (with_ids (xs ++ ys) roles) ≡ true
    → (any p (with_ids xs roles) ≡ true) ⊎ (any p (with_ids ys roles) ≡ true)
unfolding with_ids
any-with_ids-append p xs ys [] h = inl h
any-with_ids-append p xs ys (role ∷ roles) h =
    ground (arith, any-with_ids-append p xs ys roles, has_id-append role.id xs ys)

pub any-with_ids-without :
    (p : Role → Bool) (n : ℕ) (ids : List ℕ) (roles : List Role)
    → any p (with_ids (without_id n ids) roles) ≡ true
    → any p (with_ids ids roles) ≡ true
unfolding with_ids
any-with_ids-without p n ids [] h = h
any-with_ids-without p n ids (role ∷ roles) h =
    ground (arith, any-with_ids-without p n ids roles, has_id-without_id role.id n ids)
