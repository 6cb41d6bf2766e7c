-- ===== src/Auth/Login.antt =====
-- The routes of sign-in, `/login`, `/refresh` and `/logout`, of backend/app/api/v1/auth.py, over the
-- throttle and the store of refresh tokens, which share one Redis server. The check of a password and the
-- signing of tokens are parameters; the stamps of the last sign-in are left out.
use shift_wise.Prelude.{
  ltb, ◌==◌, if◌then◌else◌, ◌>>=◌, ℕ, ◌+◌, ◌≡◌, Bool, false, Option, none, some, List,
}
use shift_wise.Text.{Text}
use shift_wise.Access.Roles.{User}
use shift_wise.Access.Users.{get_user, get_user_by_email}
use shift_wise.Auth.Redis.{Redis}
use shift_wise.Auth.Throttle.{
  Settings, check_lockout, record_failure, reset, check_ip_lockout, record_ip_failure, reset_ip,
}
use shift_wise.Auth.Tokens.{
  RotateResult, rotate_ok, reuse_detected, rotate_unknown, create_family, revoke_family,
  family_user_id, rotate,
}

pub data TokenType : Type 0 where
  access refresh : TokenType

-- The text of `sub`: what `str` makes of a number, another text of which `int` makes a number, one
-- of which it makes a negative number, or one that it refuses.
pub data Subject : Type 0 where
  canonical other_number : ℕ → Subject
  negative not_a_number : Subject

-- A claim that is missing or empty is `none`.
pub record Payload : Type 0 where
  pub token_type : TokenType
  pub sub : Option Subject
  pub fam : Option Text
  pub jti : Option Text

-- Signed tokens: `decode` gives the payload of a token until the time it was signed for.
pub record Jwt : Type 1 where
  pub Token : Type 0
  pub encode : ℕ → Payload → Token
  pub decode : ℕ → Token → Option Payload
  pub decode_encode :
      (now expires : ℕ) (p : Payload)
      → decode now (encode expires p) ≡ (if ltb now expires then some p else none)

pub data Answer (j : Jwt) : Type 0 where
  too_many_requests : ℕ → Answer j
  unauthorized forbidden : Answer j
  signed_in : ℕ → Jwt.Token j → Answer j

-- The user to whom `sub` belongs, where it is a number.
abbrev pub user_of : Subject → List User → Option (Option User)
user_of (canonical n) users = some (get_user n users)
user_of (other_number n) users = some (get_user n users)
user_of negative users = some none
user_of not_a_number users = none

abbrev pub is_owner : ℕ → Subject → Bool
is_owner owner (canonical n) = owner == n
is_owner owner (other_number n) = false
is_owner owner negative = false
is_owner owner not_a_number = false

abbrev pub refresh_payload : Payload → Option Payload
refresh_payload p = elim p.token_type [ access ↦ none | refresh ↦ some p ]

-- The claims that `create_refresh_token` signs.
abbrev pub token_payload : ℕ → Text → Text → Payload
token_payload user_id family_id jti = record {
  token_type = refresh;
  sub = some (canonical user_id);
  fam = some family_id;
  jti = some jti;
}

-- `authenticate_user`
unfoldable pub authenticate_user : (Text → Text → Bool) → Text → Text → List User → Option User
authenticate_user verify email password users =
    get_user_by_email email users
    >>= (λ (user : User). if verify password user.hashed_password then some user else none)

module _ (r : Redis) (settings : Settings) (ttl : ℕ) (j : Jwt) where
  -- `create_refresh_token`, as `_mint_refresh` and `_rotate_refresh` call it.
  abbrev pub refresh_token : ℕ → ℕ → Text → Text → Jwt.Token j
  refresh_token now user_id family_id jti =
      Jwt.encode j (now + ttl) (token_payload user_id family_id jti)

  -- `family_id` and `jti` are the two UUIDs that a new family draws.
  unfoldable pub login :
      (Text → Text → Bool)
      → ℕ
      → Text
      → Text
      → Option Text
      → Text
      → Text
      → List User
      → Redis.Store r
      → Redis.Store r × Answer j
  login verify now email password ip family_id jti users s =
      let refused = record_failure r settings now email ip s in
      elim (check_lockout r settings now email ip s) [
        | some lock ↦ (s, too_many_requests lock.retry_after_seconds)
        | none ↦ elim (authenticate_user verify email password users) [
          | none ↦ (refused, unauthorized)
          | some user ↦
              if user.is_active
              then (
                create_family r ttl now family_id jti user.id (reset r settings now email ip s),
                signed_in user.id (refresh_token now user.id family_id jti),
              )
              else (refused, unauthorized)
        ]
      ]

  -- The end of `_rotate_refresh`.
  abbrev pub rotated : ℕ → Text → ℕ → Redis.Store r × RotateResult → Redis.Store r × Answer j
  rotated now family_id user_id (s, rotate_ok owner new_jti) =
      (s, signed_in user_id (refresh_token now user_id family_id new_jti))
  rotated now family_id user_id (s, reuse_detected owner) = (s, unauthorized)
  rotated now family_id user_id (s, rotate_unknown) = (s, unauthorized)

  -- `_do_refresh` from the lookup of the user; `new_jti` is the UUID that a rotation draws.
  unfoldable pub refresh_user :
      ℕ → Text → Text → Text → Option User → Redis.Store r → Redis.Store r × Answer j
  refresh_user now family_id jti new_jti found s = elim found [
    | none ↦ (revoke_family r ttl now family_id s, unauthorized)
    | some user ↦
        if user.is_active
        then rotated now family_id user.id (rotate r ttl now family_id jti user.id new_jti s)
        else (revoke_family r ttl now family_id s, forbidden)
  ]

  unfoldable pub do_refresh :
      ℕ → Option (Jwt.Token j) → Text → List User → Redis.Store r → Redis.Store r × Answer j
  do_refresh now cookie new_jti users s =
      let claims : Option (Text × Text × Option User) = do
        token ← cookie
        payload ← Jwt.decode j now token
        p ← refresh_payload payload
        sub ← p.sub
        family_id ← p.fam
        jti ← p.jti
        found ← user_of sub users
        some (family_id, jti, found)
      in elim claims [
        | none ↦ (s, unauthorized)
        | some (family_id, jti, found) ↦ refresh_user now family_id jti new_jti found s
      ]

  -- `refresh_token_endpoint`
  unfoldable pub refresh_route :
      ℕ
      → Option Text
      → Option (Jwt.Token j)
      → Text
      → List User
      → Redis.Store r
      → Redis.Store r × Answer j
  refresh_route now ip cookie new_jti users s =
      let (left, answer) = do_refresh now cookie new_jti users s in
      elim (check_ip_lockout r settings now ip s) [
        | some lock ↦ (s, too_many_requests lock.retry_after_seconds)
        | none ↦ elim answer [
          | too_many_requests seconds ↦ (left, too_many_requests seconds)
          | unauthorized ↦ (record_ip_failure r settings now ip left, unauthorized)
          | forbidden ↦ (record_ip_failure r settings now ip left, forbidden)
          | signed_in user_id token ↦ (reset_ip r settings now ip left, signed_in user_id token)
        ]
      ]

  -- The cookie is cleared and the answer is the same in every case.
  unfoldable pub logout : ℕ → Option (Jwt.Token j) → Redis.Store r → Redis.Store r
  logout now cookie s =
      let owned = do
        token ← cookie
        payload ← Jwt.decode j now token
        p ← refresh_payload payload
        sub ← p.sub
        family_id ← p.fam
        owner ← family_user_id r ttl now family_id s
        if is_owner owner sub then some family_id else none
      in elim owned [ none ↦ s | some family_id ↦ revoke_family r ttl now family_id s ]
