-- ===== src/Auth/Sessions.antt =====
-- The sessions that the routes of backend/app/api/v1/auth.py open and end.
use shift_wise.Prelude.{
  ltb, if◌then◌else◌, ==_self, ℕ, ◌+◌, ◌≤◌, ◌<◌, ◌≡◌, refl, Bool, true, false, Option, none, some,
  List, ◌++◌, arith,
}
use shift_wise.Text.{codes, text_eq_refl, Text}
use shift_wise.Access.Roles.{User}
use shift_wise.Access.Users.{get_user}
use shift_wise.Auth.Redis.{Redis}
use shift_wise.Auth.Throttle.{reset, Settings}
use shift_wise.Auth.Tokens.{
  family_prefix, create_family, revoke_family, family_user_id, rotate, jti_key, meta_key,
}
use shift_wise.Auth.Reuse.{revoke_family-empty, starts_with-append}
use shift_wise.Auth.Login.{
  token_payload, refresh_token, Jwt, Answer, too_many_requests, unauthorized, forbidden, signed_in,
  authenticate_user, login, refresh_user, do_refresh, refresh_route, logout,
}

-- The credentials of an active account.
abbrev pub is_accepted : (Text → Text → Bool) → Text → Text → List User → Bool
is_accepted verify email password users = elim (authenticate_user verify email password users) [
  | none ↦ false
  | some user ↦ user.is_active
]

abbrev pub is_signed_in : {j : Jwt} → Answer j → Bool
is_signed_in (too_many_requests seconds) = false
is_signed_in unauthorized = false
is_signed_in forbidden = false
is_signed_in (signed_in user_id token) = true

module _ (r : Redis) (settings : Settings) (ttl : ℕ) (j : Jwt) where
  -- A sign-in that is not accepted, whether the account is missing, is inactive or has another
  -- password, gives the same answer and leaves the same counters and tokens as any other one of that
  -- e-mail, address and time.
  pub login-uniform :
      (verify : Text → Text → Bool) (now : ℕ) (email : Text) (ip : Option Text)
      (family_id jti : Text) (s : Redis.Store r) (password other_password : Text)
      (users other_users : List User)
      → is_accepted verify email password users ≡ false
      → is_accepted verify email other_password other_users ≡ false
      → login r settings ttl j verify now email password ip family_id jti users s
        ≡ login r settings ttl j verify now email other_password ip family_id jti other_users s
  unfolding login
  login-uniform verify now email ip family_id jti s password other_password users other_users
        refused other =
      ground arith

  -- Right after the creation of a family its owner is on record, until it expires.
  family_user_id-create_family :
      (now t : ℕ) (family_id jti : Text) (user_id : ℕ) (s : Redis.Store r)
      → now ≤ t
      → t < now + ttl
      → family_user_id r ttl t family_id (create_family r ttl now family_id jti user_id s)
        ≡ some user_id
  unfolding family_user_id create_family
  family_user_id-create_family now t family_id jti user_id s after before =
      let m = meta_key family_id in
      let issued = Redis.set r now (jti_key family_id jti) user_id (some (now + ttl)) s in
      let owned = Redis.set r now m user_id none issued in
      ground (
        arith,
        Redis.entry_later r now t m (Redis.expire r now m ttl false owned) after,
        Redis.entry_expire r now m m ttl false owned,
        Redis.entry_set r now m m user_id none issued,
        text_eq_refl m,
      )

  -- A family without an owner on record refreshes nothing.
  pub refresh_user-unowned :
      (now : ℕ) (family_id jti new_jti : Text) (found : Option User) (s : Redis.Store r)
      → Redis.entry r now (meta_key family_id) s ≡ none
      → is_signed_in ((refresh_user r settings ttl j now family_id jti new_jti found s).1) ≡ false
  unfolding refresh_user rotate family_user_id
  refresh_user-unowned now family_id jti new_jti none s owner = refl
  refresh_user-unowned now family_id jti new_jti (some user) s owner =
      ground (arith, owner, Redis.entry_del r now (jti_key family_id jti) (meta_key family_id) s)

  -- What a refresh token of the application opens.
  pub do_refresh-refresh_token :
      (now t user_id : ℕ) (family_id jti new_jti : Text) (users : List User) (s : Redis.Store r)
      → do_refresh r settings ttl j t
          (some (refresh_token r settings ttl j now user_id family_id jti))
          new_jti
          users
          s
        ≡ (if ltb t (now + ttl)
            then refresh_user r settings ttl j t family_id jti new_jti (get_user user_id users) s
            else (s, unauthorized))
  unfolding do_refresh
  do_refresh-refresh_token now t user_id family_id jti new_jti users s =
      ground (arith, Jwt.decode_encode j t (now + ttl) (token_payload user_id family_id jti))

  -- The owner of a family ends it with its token.
  logout-refresh_token :
      (now t user_id : ℕ) (family_id jti : Text) (s : Redis.Store r)
      → t < now + ttl
      → family_user_id r ttl t family_id s ≡ some user_id
      → logout r settings ttl j t
          (some (refresh_token r settings ttl j now user_id family_id jti))
          s
        ≡ revoke_family r ttl t family_id s
  unfolding logout
  logout-refresh_token now t user_id family_id jti s before owner = ground (
    arith,
    Jwt.decode_encode j t (now + ttl) (token_payload user_id family_id jti),
    ==_self user_id,
    owner,
  )

  -- A refresh without a token signs nobody in.
  pub refresh_route-refused :
      (now : ℕ) (ip : Option Text) (cookie : Option (Jwt.Token j)) (new_jti : Text)
      (users : List User) (s : Redis.Store r)
      → is_signed_in ((do_refresh r settings ttl j now cookie new_jti users s).1) ≡ false
      → is_signed_in ((refresh_route r settings ttl j now ip cookie new_jti users s).1) ≡ false
  unfolding refresh_route
  refresh_route-refused now ip cookie new_jti users s refused = ground arith

  -- A key of a family that is revoked does not come back by itself.
  revoke_family-later :
      (t u : ℕ) (family_id name : Text) (s : Redis.Store r)
      → t ≤ u
      → Redis.entry r u (family_prefix family_id ++ name) (revoke_family r ttl t family_id s) ≡ none
  revoke_family-later t u family_id name s later = ground (
    arith,
    Redis.entry_later r t u (family_prefix family_id ++ name) (revoke_family r ttl t family_id s)
        later,
    revoke_family-empty r ttl t family_id (family_prefix family_id ++ name) s
        (starts_with-append (family_prefix family_id) name),
  )

  -- What a sign-in that succeeds opens.
  login-opens :
      (verify : Text → Text → Bool) (now : ℕ) (email password : Text) (ip : Option Text)
      (family_id jti : Text) (users : List User) (s opened : Redis.Store r) (user_id : ℕ)
      (cookie : Jwt.Token j)
      → login r settings ttl j verify now email password ip family_id jti users s
        ≡ (opened, signed_in user_id cookie)
      → (opened ≡ create_family r ttl now family_id jti user_id (reset r settings now email ip s))
        × (cookie ≡ refresh_token r settings ttl j now user_id family_id jti)
  unfolding login
  login-opens verify now email password ip family_id jti users s opened user_id cookie signed =
      (ground arith, ground arith)

  -- A token of a family that is revoked refreshes nothing.
  do_refresh-revoked :
      (now t u user_id : ℕ) (family_id jti new_jti : Text) (users : List User) (s : Redis.Store r)
      → t ≤ u
      → is_signed_in (
          (do_refresh r settings ttl j u
            (some (refresh_token r settings ttl j now user_id family_id jti))
            new_jti
            users
            (revoke_family r ttl t family_id s)).1)
        ≡ false
  do_refresh-revoked now t u user_id family_id jti new_jti users s later =
      let left = revoke_family r ttl t family_id s in
      let empty =
        refresh_user-unowned u family_id jti new_jti (get_user user_id users) left
          (revoke_family-later t u family_id (codes "meta") s later) in
      rw (do_refresh-refresh_token now u user_id family_id jti new_jti users left)
        (ground (arith, empty))

  -- A session that has been signed out of cannot be resumed: from the moment at which the cookie of
  -- a sign-in is given to a sign-out within its lifetime, no refresh with that cookie signs anybody
  -- in, whatever has become of the account.
  pub login-logout :
      (verify : Text → Text → Bool) (now : ℕ) (email password : Text) (ip : Option Text)
      (family_id jti : Text) (users : List User) (s opened : Redis.Store r) (user_id : ℕ)
      (cookie : Jwt.Token j) (t u : ℕ) (other_ip : Option Text) (new_jti : Text)
      (later_users : List User)
      → login r settings ttl j verify now email password ip family_id jti users s
        ≡ (opened, signed_in user_id cookie)
      → now ≤ t
      → t < now + ttl
      → t ≤ u
      → let left = logout r settings ttl j t (some cookie) opened in
        is_signed_in
          ((refresh_route r settings ttl j u other_ip (some cookie) new_jti later_users left).1)
        ≡ false
  login-logout verify now email password ip family_id jti users s opened user_id cookie t u other_ip
        new_jti later_users signed after before later =
      let token = refresh_token r settings ttl j now user_id family_id jti in
      let (family, own) =
        login-opens verify now email password ip family_id jti users s opened user_id cookie
          signed in
      let fresh = create_family r ttl now family_id jti user_id (reset r settings now email ip s) in
      let left = logout r settings ttl j t (some token) fresh in
      let revoked = logout-refresh_token now t user_id family_id jti fresh before (
        family_user_id-create_family now t family_id jti user_id (reset r settings now email ip s)
          after before) in
      rw (family, own)
        (refresh_route-refused u other_ip (some token) new_jti later_users left (
          rw revoked
            (do_refresh-revoked now t u user_id family_id jti new_jti later_users fresh later)))
