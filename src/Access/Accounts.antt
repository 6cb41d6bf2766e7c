-- ===== src/Access/Accounts.antt =====
-- Two calls of backend/app/api/v1/users.py that change more than they should.
use shift_wise.Prelude.{
  ltb, ◌==◌, ==_self, Option-cases, any, all, ℕ, ◌≡◌, refl, ap, ◌∙◌, ◌≢◌, inl, inr, Bool, true,
  false, ◌||◌, not, none, some, List, [], ◌∷◌, arith,
}
use shift_wise.Text.{Text, codes, text_eq, lower, text_eq→eq, text_eq_refl}
use shift_wise.Access.Roles.{Role, User, has_id, with_ids, has_permission}
use shift_wise.Access.Users.{
  UserDb, UserUpdate, find_user, get_user, get_user_by_email, write_user, updated_user,
  email_update, remove_role_from_user, without_id, delete_user,
}
use shift_wise.Access.Outcomes.{get_user-id, updated_user-keeps, get_user-drop_user}
use shift_wise.Access.Endpoints.{
  Call, Status, ok, forbidden, update, delete, remove_role, super_admin_role, is_super_admin,
  role_count, update_endpoint, update_refused, delete_endpoint, remove_role_endpoint, dispatch,
  call_route,
}

lower_idem : (s : Text) → lower (lower s) ≡ lower s
unfolding lower
lower_idem [] = refl
lower_idem (c ∷ s) = ground (arith, lower_idem s)

-- An account whose stored e-mail is not in lower case is not found by any e-mail.
get_user_by_email-lower :
    (q : Text) (users : List User) (user : User)
    → get_user_by_email q users ≡ some user
    → lower user.email ≡ user.email
unfolding get_user_by_email find_user
get_user_by_email-lower q [] user h = cc h
get_user_by_email-lower q (u ∷ users) user h =
    ground (arith, get_user_by_email-lower q users user, text_eq→eq u.email (lower q), lower_idem q)

get_user-write_user_self :
    (id : ℕ) (row old : User) (users : List User)
    → get_user id users ≡ some old
    → row.id ≡ id
    → get_user id (write_user row users) ≡ some row
unfolding find_user write_user
get_user-write_user_self id row old [] found same = cc found
get_user-write_user_self id row old (u ∷ users) found same =
    ground (arith, get_user-write_user_self id row old users)

-- Only the role of that id carries the name of the super administrator's.
abbrev pub is_named : ℕ → Role → Bool
is_named role_id role = not (text_eq role.name super_admin_role) || role.id == role_id

has_id-same : (m n : ℕ) (ids : List ℕ) → (m == n) ≡ true → has_id m (without_id n ids) ≡ false
unfolding without_id
has_id-same m n [] same = refl
has_id-same m n (k ∷ ids) same = ground (arith, has_id-same m n ids)

update_refused-ok :
    (caller user : User) (change : UserUpdate) (roles : List Role)
    → update_refused caller user change roles ≢ some ok
unfolding update_refused
update_refused-ok caller user change roles h = ground arith

module _ (get_password_hash : Text → Text) where
  updated_user-email :
      (change : UserUpdate) (user row : User) (db : UserDb) (email : Text)
      → updated_user get_password_hash change user db ≡ some row
      → change.email ≡ some email
      → lower email ≡ user.email
      → row.email ≡ email
  unfolding updated_user email_update
  updated_user-email change user row db email made asked same =
      ground (arith, text_eq_refl user.email)

  update_endpoint-ok :
      (caller : User) (id : ℕ) (change : UserUpdate) (db : UserDb) (user : User)
      → get_user id db.users ≡ some user
      → (update_endpoint get_password_hash caller id change db).1 ≡ ok
      → (row : User) × (updated_user get_password_hash change user db ≡ some row)
        × ((update_endpoint get_password_hash caller id change db).0.users
            ≡ write_user row db.users)
  unfolding update_endpoint
  update_endpoint-ok caller id change db user found done =
      elim (Option-cases (updated_user get_password_hash change user db)) [
        | inl refused ↦ absurd (ground (arith, update_refused-ok caller user change db.roles))
        | inr (row, made) ↦
            (row, made, ground (arith, update_refused-ok caller user change db.roles))
      ]

  -- An update that succeeds with an e-mail equal to the stored one but for its case, and not itself
  -- in lower case, stores it as given: the account is found under no e-mail from then on, so nobody
  -- can log in to it.
  pub update_endpoint-lost_email :
      (caller : User) (id : ℕ) (change : UserUpdate) (db : UserDb) (user row : User)
      (email query : Text)
      → get_user id db.users ≡ some user
      → change.email ≡ some email
      → lower email ≡ user.email
      → text_eq (lower email) email ≡ false
      → (update_endpoint get_password_hash caller id change db).1 ≡ ok
      → get_user id ((update_endpoint get_password_hash caller id change db).0.users) ≡ some row
      → get_user_by_email query ((update_endpoint get_password_hash caller id change db).0.users)
        ≢ some row
  update_endpoint-lost_email caller id change db user row email query found asked same mixed done
        there reached =
      let (new, made, becomes) = update_endpoint-ok caller id change db user found done in
      let stored : new.email ≡ email =
        updated_user-email change user new db email made asked same in
      let mine : some new ≡ some row = ground (
        arith,
        get_user-write_user_self id new user db.users found,
        get_user-id id db.users user,
        updated_user-keeps get_password_hash change user new db made,
      ) in
      ground (
        arith,
        mine,
        get_user_by_email-lower query
            ((update_endpoint get_password_hash caller id change db).0.users) row reached,
        text_eq_refl email,
      )

super_admin_free :
    (user : User) (role_id : ℕ) (roles : List Role)
    → all (is_named role_id) roles ≡ true
    → any
        (λ (role : Role). text_eq role.name super_admin_role)
        (with_ids (remove_role_from_user role_id user).role_ids roles)
      ≡ false
unfolding with_ids
super_admin_free user role_id [] only = refl
super_admin_free user role_id (role ∷ roles) only =
    ground (arith, super_admin_free user role_id roles, has_id-same role.id role_id user.role_ids)

get_user-delete_user : (id : ℕ) (db : UserDb) → get_user id (delete_user id db).users ≡ none
unfolding delete_user
get_user-delete_user id db = ground (arith, get_user-drop_user id id db.users, ==_self id)

-- Two requests for one, in the order in which they are given.
abbrev pub call_twice : (Text → Text) → User → Call → Call → UserDb → UserDb × Status
call_twice get_password_hash caller first second db =
    call_route get_password_hash caller second ((call_route get_password_hash caller first db).0)

module _ (get_password_hash : Text → Text) (caller user : User) (id : ℕ) (db : UserDb) where
  call_route-protected :
      (change : UserUpdate)
      → caller.is_superuser ≡ false
      → get_user id db.users ≡ some user
      → (id == caller.id) ≡ false
      → is_super_admin db.roles user ≡ true
      → ((call_route get_password_hash caller (update id change) db).1 ≡ forbidden)
        × ((call_route get_password_hash caller (delete id) db).1 ≡ forbidden)
  unfolding call_route dispatch update_endpoint update_refused delete_endpoint
  call_route-protected change plain found other high =
      (ground (arith, get_user-id id db.users user), ground (arith, get_user-id id db.users user))

  call_route-remove_role :
      (role_id : ℕ)
      → has_permission db.roles caller (codes "users") (codes "update") ≡ true
      → get_user id db.users ≡ some user
      → text_eq user.tenant_id caller.tenant_id ≡ true
      → ltb (role_count db.roles user) 2 ≡ false
      → (call_route get_password_hash caller (remove_role id role_id) db).0
        ≡ record db { users = write_user (remove_role_from_user role_id user) db.users }
  unfolding call_route dispatch remove_role_endpoint
  call_route-remove_role role_id may found same many = ground arith

  call_route-delete :
      has_permission db.roles caller (codes "users") (codes "delete") ≡ true
      → get_user id db.users ≡ some user
      → (id == caller.id) ≡ false
      → text_eq user.tenant_id caller.tenant_id ≡ true
      → is_super_admin db.roles user ≡ false
      → call_route get_password_hash caller (delete id) db ≡ (delete_user id db, ok)
  unfolding call_route dispatch delete_endpoint
  call_route-delete may found other same low = ground arith

-- A user without the superuser flag who may update and delete users gets another account of its
-- tenant deleted that is a super administrator by the role of that name, the only one of the name,
-- and that has another role: the calls that change or delete the account are refused, but after
-- the call that takes the role from it, which does not test whose account it is, the same deletion
-- succeeds and the account is gone.
pub call_route-unguarded :
    (get_password_hash : Text → Text) (caller user : User) (id role_id : ℕ) (change : UserUpdate)
    (db : UserDb)
    → caller.is_superuser ≡ false
    → has_permission db.roles caller (codes "users") (codes "update") ≡ true
    → has_permission db.roles caller (codes "users") (codes "delete") ≡ true
    → get_user id db.users ≡ some user
    → (id == caller.id) ≡ false
    → text_eq user.tenant_id caller.tenant_id ≡ true
    → user.is_superuser ≡ false
    → is_super_admin db.roles user ≡ true
    → all (is_named role_id) db.roles ≡ true
    → ltb (role_count db.roles user) 2 ≡ false
    → ((call_route get_password_hash caller (update id change) db).1 ≡ forbidden)
      × ((call_route get_password_hash caller (delete id) db).1 ≡ forbidden)
      × ((call_twice get_password_hash caller (remove_role id role_id) (delete id) db).1 ≡ ok)
      × (get_user id
            ((call_twice get_password_hash caller (remove_role id role_id) (delete id) db).0.users)
          ≡ none)
call_route-unguarded get_password_hash caller user id role_id change db plain may_update may_delete
      found other same unflagged high only many =
    let hash = get_password_hash in
    let (unchanged, kept) =
      call_route-protected hash caller user id db change plain found other high in
    let bare = remove_role_from_user role_id user in
    let after : UserDb = record db { users = write_user bare db.users } in
    let removed =
      call_route-remove_role hash caller user id db role_id may_update found same many in
    let deleted =
      call_route-delete hash caller bare id after may_delete
        (get_user-write_user_self id bare user db.users found (get_user-id id db.users user found))
        other same (ground (arith, super_admin_free user role_id db.roles)) in
    let both = ap (call_route hash caller (delete id)) removed ∙ deleted in
    (
      unchanged,
      kept,
      ap (λ (r : UserDb × Status). r.1) both,
      ap (λ (r : UserDb × Status). get_user id r.0.users) both ∙ get_user-delete_user id after,
    )
