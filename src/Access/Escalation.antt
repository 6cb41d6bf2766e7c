-- ===== src/Access/Escalation.antt =====
-- The routes of backend/app/api/v1/users.py, called without the superuser flag.
use shift_wise.Prelude.{
  ltb, ◌==◌, Bool-cases, Option-cases, or_else, any, is_empty, ℕ, ◌≡◌, subst, ◌⊎◌, inl, inr, true,
  false, ◌&&◌, none, some, List, [], ◌∷◌, ◌++◌, arith,
}
use shift_wise.Text.{Text, text_eq, codes}
use shift_wise.Access.Roles.{Role, User, with_ids, has_permission}
use shift_wise.Access.Users.{
  UserDb, UserCreate, UserUpdate, get_user, delete_user, create_user, new_user, updated_user,
  add_role_to_user, remove_role_from_user,
}
use shift_wise.Access.Endpoints.{
  required, Call, create, update, delete, add_role, remove_role, check_privilege_escalation,
  update_refused, create_endpoint, update_endpoint, delete_endpoint, add_role_endpoint,
  remove_role_endpoint, dispatch, call_route, role_count, is_super_admin,
}
use shift_wise.Access.Grants.{check_privilege_escalation-bounds}
use shift_wise.Access.Outcomes.{
  Outcome, unchanged, wrote, dropped, added, Within, get_user-write_user, get_user-drop_user,
  get_user-append, get_user-id, add_role_to_user-Within, remove_role_from_user-Within,
  updated_user-keeps,
}

module _ (get_password_hash : Text → Text) (caller : User)
    (plain : caller.is_superuser ≡ false) where
  create_user-cases :
      (user_id : ℕ) (data_in : UserCreate) (db : UserDb)
      → (create_user get_password_hash user_id data_in db ≡ none)
        ⊎ (create_user get_password_hash user_id data_in db
            ≡ some
                (record db { users = db.users ++ new_user get_password_hash user_id data_in ∷ [] }))
  unfolding create_user
  create_user-cases user_id data_in db = ground arith

  create_endpoint-Outcome :
      (user_id : ℕ) (data_in : UserCreate) (db : UserDb)
      → Outcome caller db ((create_endpoint get_password_hash caller user_id data_in db).0)
  unfolding create_endpoint has_permission
  create_endpoint-Outcome user_id data_in db =
      elim (Bool-cases (text_eq data_in.tenant_id caller.tenant_id)) [
        | inr foreign ↦ unchanged (ground arith)
        | inl same ↦
            elim (Bool-cases (check_privilege_escalation db.roles caller data_in.role_ids)) [
              | inr refused ↦ unchanged (ground arith)
              | inl safe ↦ elim (create_user-cases user_id data_in db) [
                | inl taken ↦ unchanged (ground arith)
                | inr made ↦
                    added (new_user get_password_hash user_id data_in) (ground arith)
                      (λ resource action h.
                        check_privilege_escalation-bounds db.roles caller resource action
                          data_in.role_ids safe h)
              ]
            ]
      ]

  update_refused-none :
      (user : User) (change : UserUpdate) (roles : List Role)
      → update_refused caller user change roles ≡ none
      → ((text_eq user.tenant_id caller.tenant_id ≡ true) ⊎ (user.id ≡ caller.id))
        × (check_privilege_escalation roles caller (or_else change.role_ids []) ≡ true)
  unfolding update_refused
  update_refused-none user change roles h = (ground arith, ground arith)

  updated_user-Within :
      (change : UserUpdate) (user row : User) (db : UserDb)
      → updated_user get_password_hash change user db ≡ some row
      → check_privilege_escalation db.roles caller (or_else change.role_ids []) ≡ true
      → Within db.roles caller user row
  unfolding has_permission
  updated_user-Within change user row db made safe resource action h =
      let (same, flag, ids) = updated_user-keeps get_password_hash change user row db made in
      elim (Option-cases change.role_ids) [
        | inl kept ↦ inr (ground arith)
        | inr (new, asked) ↦
            ground (arith, check_privilege_escalation-bounds db.roles caller resource action new)
      ]

  update_endpoint-Outcome :
      (user_id : ℕ) (change : UserUpdate) (db : UserDb)
      → Outcome caller db ((update_endpoint get_password_hash caller user_id change db).0)
  unfolding update_endpoint has_permission
  update_endpoint-Outcome user_id change db = elim (Option-cases (get_user user_id db.users)) [
    | inl missing ↦ unchanged (ground arith)
    | inr (user, found) ↦ elim (Option-cases (update_refused caller user change db.roles)) [
      | inr (status, refused) ↦ unchanged (ground arith)
      | inl allowed ↦ elim (Option-cases (updated_user get_password_hash change user db)) [
        | inl invalid ↦ unchanged (ground arith)
        | inr (row, made) ↦
            let (same, flag, ids) = updated_user-keeps get_password_hash change user row db made in
            let (tenant, safe) = update_refused-none user change db.roles allowed in
            wrote row user (ground arith) (ground (arith, get_user-id user_id db.users user))
              (ground arith) (updated_user-Within change user row db made safe)
      ]
    ]
  ]

  delete_endpoint-Outcome :
      (user_id : ℕ) (db : UserDb) → Outcome caller db ((delete_endpoint caller user_id db).0)
  unfolding delete_endpoint
  delete_endpoint-Outcome user_id db = elim (Bool-cases (user_id == caller.id)) [
    | inl own ↦ unchanged (ground arith)
    | inr other ↦ elim (Option-cases (get_user user_id db.users)) [
      | inl missing ↦ unchanged (ground arith)
      | inr (user, found) ↦ elim (Bool-cases (text_eq user.tenant_id caller.tenant_id)) [
        | inr foreign ↦ unchanged (ground arith)
        | inl same ↦ elim (Bool-cases (is_super_admin db.roles user)) [
          | inl high ↦ unchanged (ground arith)
          | inr low ↦ dropped user_id user (ground arith) found same
        ]
      ]
    ]
  ]

  add_role_endpoint-Outcome :
      (user_id role_id : ℕ) (db : UserDb)
      → Outcome caller db ((add_role_endpoint caller user_id role_id db).0)
  unfolding add_role_endpoint
  add_role_endpoint-Outcome user_id role_id db = elim (Option-cases (get_user user_id db.users)) [
    | inl missing ↦ unchanged (ground arith)
    | inr (user, found) ↦ elim (Bool-cases (text_eq user.tenant_id caller.tenant_id)) [
      | inr foreign ↦ unchanged (ground arith)
      | inl same ↦ elim (Bool-cases (is_empty (with_ids (role_id ∷ []) db.roles))) [
        | inl missing ↦ unchanged (ground arith)
        | inr there ↦ elim (Bool-cases (user_id == caller.id)) [
          | inl own ↦ unchanged (ground arith)
          | inr other ↦
              elim (Bool-cases (check_privilege_escalation db.roles caller (role_id ∷ []))) [
                | inr refused ↦ unchanged (ground arith)
                | inl safe ↦
                    wrote (add_role_to_user role_id user) user (ground arith)
                      (ground (arith, get_user-id user_id db.users user)) (inl same)
                      (add_role_to_user-Within db.roles caller user role_id safe)
              ]
        ]
      ]
    ]
  ]

  remove_role_endpoint-Outcome :
      (user_id role_id : ℕ) (db : UserDb)
      → Outcome caller db ((remove_role_endpoint caller user_id role_id db).0)
  unfolding remove_role_endpoint
  remove_role_endpoint-Outcome user_id role_id db =
      elim (Option-cases (get_user user_id db.users)) [
        | inl missing ↦ unchanged (ground arith)
        | inr (user, found) ↦ elim (Bool-cases (text_eq user.tenant_id caller.tenant_id)) [
          | inr foreign ↦ unchanged (ground arith)
          | inl same ↦
              elim (Bool-cases (
                any (λ (role : Role). role.id == role_id) (with_ids user.role_ids db.roles)
                && ltb (role_count db.roles user) 2)) [
                  | inl last ↦ unchanged (ground arith)
                  | inr kept ↦
                      wrote (remove_role_from_user role_id user) user (ground arith)
                        (ground (arith, get_user-id user_id db.users user)) (inl same)
                        (remove_role_from_user-Within db.roles caller user role_id)
                ]
        ]
      ]

  dispatch-Outcome :
      (call : Call) (db : UserDb)
      → Outcome caller db ((dispatch get_password_hash caller call db).0)
  unfolding dispatch
  dispatch-Outcome (create user_id data_in) db = create_endpoint-Outcome user_id data_in db
  dispatch-Outcome (update user_id change) db = update_endpoint-Outcome user_id change db
  dispatch-Outcome (delete user_id) db = delete_endpoint-Outcome user_id db
  dispatch-Outcome (add_role user_id role_id) db = add_role_endpoint-Outcome user_id role_id db
  dispatch-Outcome (remove_role user_id role_id) db =
      remove_role_endpoint-Outcome user_id role_id db

  call_route-Outcome :
      (call : Call) (db : UserDb)
      → Outcome caller db ((call_route get_password_hash caller call db).0)
  unfolding call_route
  call_route-Outcome call db =
      elim (Bool-cases (has_permission db.roles caller (codes "users") (required call))) [
        | inl may ↦ subst (Outcome caller db) (ground arith) (dispatch-Outcome call db)
        | inr refused ↦ unchanged (ground arith)
      ]

  -- Whatever route of the users' API a user without the superuser flag calls, with whatever data,
  -- what an account may do afterwards the caller could do before, or that account could do before:
  -- no call gives anyone a permission that the caller lacks.
  pub call_route-no_escalation :
      (call : Call) (db : UserDb) (id : ℕ) (user : User) (resource action : Text)
      → get_user id ((call_route get_password_hash caller call db).0.users) ≡ some user
      → has_permission db.roles user resource action ≡ true
      → (has_permission db.roles caller resource action ≡ true)
        ⊎ ((old : User) × (get_user id db.users ≡ some old)
            × (has_permission db.roles old resource action ≡ true))
  unfolding delete_user
  call_route-no_escalation call db id user resource action there may =
      elim (call_route-Outcome call db) [
        | unchanged same ↦ inr (user, ground arith, may)
        | wrote row old becomes found near within ↦ elim (get_user-write_user id row db.users) [
          | inl kept ↦ inr (user, ground arith, may)
          | inr (here, written) ↦ elim (within resource action (ground arith)) [
            | inl held ↦ inl held
            | inr held ↦ inr (old, ground arith, held)
          ]
        ]
        | dropped n old becomes found near ↦
            inr (user, ground (arith, get_user-drop_user id n db.users), may)
        | added row becomes bounded ↦ elim (Option-cases (get_user id db.users)) [
          | inl new ↦ inl (ground (arith, get_user-append id row db.users, bounded resource action))
          | inr (old, found) ↦ inr (user, ground (arith, get_user-append id row db.users), may)
        ]
      ]

  -- No such call changes or removes the account of another user in another tenant.
  pub call_route-other_tenant :
      (call : Call) (db : UserDb) (id : ℕ) (user : User)
      → get_user id db.users ≡ some user
      → text_eq user.tenant_id caller.tenant_id ≡ false
      → (id == caller.id) ≡ false
      → get_user id ((call_route get_password_hash caller call db).0.users) ≡ some user
  unfolding delete_user
  call_route-other_tenant call db id user there foreign another =
      elim (call_route-Outcome call db) [
        | unchanged same ↦ ground arith
        | wrote row old becomes found near within ↦
            ground (arith, get_user-write_user id row db.users)
        | dropped n old becomes found near ↦ ground (arith, get_user-drop_user id n db.users)
        | added row becomes bounded ↦ ground (arith, get_user-append id row db.users)
      ]
