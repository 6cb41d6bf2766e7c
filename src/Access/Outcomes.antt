-- ===== src/Access/Outcomes.antt =====
-- What a call of a user without the superuser flag can make of the tables of users and roles.
use shift_wise.Prelude.{
  ◌==◌, if◌then◌else◌, Bool-cases, or_else, ℕ, ◌≡◌, refl, ◌⊎◌, inl, inr, true, none, some, List, [],
  ◌∷◌, ◌++◌, arith,
}
use shift_wise.Text.{Text, text_eq}
use shift_wise.Access.Roles.{Role, User, has_id, has_permission, grants}
use shift_wise.Access.Users.{
  UserDb, UserUpdate, find_user, get_user, write_user, drop_user, delete_user, updated_user,
  add_role_to_user, remove_role_from_user,
}
use shift_wise.Access.Endpoints.{check_privilege_escalation}
use shift_wise.Access.Grants.{
  check_privilege_escalation-bounds, any-with_ids-append, any-with_ids-without,
}

pub get_user-write_user :
    (id : ℕ) (row : User) (users : List User)
    → (get_user id (write_user row users) ≡ get_user id users)
      ⊎ ((row.id ≡ id) × (get_user id (write_user row users) ≡ some row))
unfolding find_user write_user
get_user-write_user id row [] = inl refl
get_user-write_user id row (u ∷ users) = elim (Bool-cases (u.id == id)) [
  | inl here ↦ elim (Bool-cases (u.id == row.id)) [
    | inl same ↦ inr (ground arith, ground arith)
    | inr other ↦ inl (ground arith)
  ]
  | inr there ↦ elim (Bool-cases (u.id == row.id)) [
    | inl same ↦ inl (ground arith)
    | inr other ↦ elim (get_user-write_user id row users) [
      | inl kept ↦ inl (ground arith)
      | inr (same, written) ↦ inr (same, ground arith)
    ]
  ]
]

pub get_user-drop_user :
    (id n : ℕ) (users : List User)
    → get_user id (drop_user n users) ≡ (if n == id then none else get_user id users)
unfolding find_user drop_user
get_user-drop_user id n [] = ground arith
get_user-drop_user id n (u ∷ users) = ground (arith, get_user-drop_user id n users)

pub get_user-append :
    (id : ℕ) (row : User) (users : List User)
    → get_user id (users ++ row ∷ []) ≡ (elim (get_user id users) [
      | none ↦ if row.id == id then some row else none
      | some u ↦ some u
    ])
unfolding find_user
get_user-append id row [] = ground arith
get_user-append id row (u ∷ users) = ground (arith, get_user-append id row users)

-- Everything that the user may do in its new row, the caller or the user in its old row may do.
abbrev pub Within : List Role → User → User → User → Type 0
Within roles caller old row =
    (resource action : Text)
    → has_permission roles row resource action ≡ true
    → (has_permission roles caller resource action ≡ true)
      ⊎ (has_permission roles old resource action ≡ true)

-- What a call makes of the tables.
pub data Outcome (caller : User) (db after : UserDb) : Type 0 where
  unchanged : after ≡ db → Outcome caller db after
  wrote :
      (row old : User)
      → after ≡ record db { users = write_user row db.users }
      → get_user row.id db.users ≡ some old
      → (text_eq old.tenant_id caller.tenant_id ≡ true) ⊎ (row.id ≡ caller.id)
      → Within db.roles caller old row
      → Outcome caller db after
  dropped :
      (n : ℕ) (old : User)
      → after ≡ delete_user n db
      → get_user n db.users ≡ some old
      → text_eq old.tenant_id caller.tenant_id ≡ true
      → Outcome caller db after
  added :
      (row : User)
      → after ≡ record db { users = db.users ++ row ∷ [] }
      → ((resource action : Text)
          → has_permission db.roles row resource action ≡ true
          → has_permission db.roles caller resource action ≡ true)
      → Outcome caller db after

pub get_user-id : (id : ℕ) (users : List User) (u : User) → get_user id users ≡ some u → u.id ≡ id
unfolding find_user
get_user-id id [] u h = cc h
get_user-id id (v ∷ users) u h = ground (arith, get_user-id id users u)

pub add_role_to_user-Within :
    (roles : List Role) (caller user : User) (role_id : ℕ)
    → check_privilege_escalation roles caller (role_id ∷ []) ≡ true
    → Within roles caller user (add_role_to_user role_id user)
unfolding has_permission
add_role_to_user-Within roles caller user role_id safe resource action h =
    elim (Bool-cases (has_id role_id user.role_ids)) [
      | inl held ↦ inr (ground arith)
      | inr new ↦ ground (
        arith,
        any-with_ids-append (grants resource action) user.role_ids (role_id ∷ []) roles,
        check_privilege_escalation-bounds roles caller resource action (role_id ∷ []) safe,
      )
    ]

pub remove_role_from_user-Within :
    (roles : List Role) (caller user : User) (role_id : ℕ)
    → Within roles caller user (remove_role_from_user role_id user)
unfolding has_permission
remove_role_from_user-Within roles caller user role_id resource action h =
    inr (ground (arith, any-with_ids-without (grants resource action) role_id user.role_ids roles))

module _ (get_password_hash : Text → Text) where
  pub updated_user-keeps :
      (change : UserUpdate) (user row : User) (db : UserDb)
      → updated_user get_password_hash change user db ≡ some row
      → (row.id ≡ user.id)
        × (row.is_superuser ≡ user.is_superuser)
        × (row.role_ids ≡ or_else change.role_ids user.role_ids)
  unfolding updated_user
  updated_user-keeps change user row db h = (ground arith, ground arith, ground arith)
