-- ===== src/Examples/Sessions.antt =====
-- A session that is opened and ended, with tokens that are a program.
use shift_wise.Prelude.{
  ltb, if◌then◌else◌, ℕ, ◌≡◌, refl, true, false, Option, none, some, [], ◌∷◌, arith,
}
use shift_wise.Text.{Text, codes, text_eq, lower, strip}
use shift_wise.Access.Roles.{User}
use shift_wise.Access.Users.{get_user_by_email, find_user}
use shift_wise.Auth.Throttle.{Settings, check_lockout, reset, email_key, ip_key}
use shift_wise.Auth.Tokens.{create_family, family_user_id, family_prefix}
use shift_wise.Auth.Login.{
  Jwt, Payload, authenticate_user, login, refresh_token, refresh_route, logout,
}
use shift_wise.Auth.Revocation.{revoke_all_refresh_families}
use shift_wise.Auth.Revoked.{revoke_all_refresh_families-ends}
use shift_wise.Auth.Sessions.{is_signed_in, login-uniform, login-logout}
use shift_wise.Examples.Server.{written, server, Writes}

abbrev strict : Settings
strict = record { max_attempts = 3; window_seconds = 900 }

abbrev tokens : Jwt
tokens = record {
  Token = ℕ × Payload;
  encode = λ expires p. (expires, p);
  decode = λ now token. if ltb now token.0 then some token.1 else none;
  decode_encode = λ now expires p. refl;
}

abbrev admin : User
admin = record {
  id = 7;
  email = codes "a@b";
  username = codes "a";
  hashed_password = codes "pw";
  tenant_id = codes "t";
  is_active = true;
  is_superuser = false;
  role_ids = [];
}

abbrev source : Option Text
source = some (codes "10.0.0.9")

abbrev opened : Writes
opened =
    create_family server 600 50 (codes "f") (codes "1") 7
      (reset server strict 50 (codes "A@b") source [])

login-uniform_example :
    login server strict 600 tokens text_eq 50
      (codes "A@b")
      (codes "no")
      source
      (codes "f")
      (codes "1")
      (admin ∷ [])
      []
    ≡ login server strict 600 tokens text_eq 50
        (codes "A@b")
        (codes "pw")
        source
        (codes "f")
        (codes "1")
        []
        []
unfolding authenticate_user get_user_by_email find_user text_eq lower
login-uniform_example =
    login-uniform server strict 600 tokens text_eq 50 (codes "A@b") source (codes "f") (codes "1")
      [] (codes "no") (codes "pw") (admin ∷ []) [] refl refl

login-logout_example :
    let cookie = refresh_token server strict 600 tokens 50 7 (codes "f") (codes "1") in
    let left = logout server strict 600 tokens 60 (some cookie) opened in
    is_signed_in (
      (refresh_route server strict 600 tokens 70 source
        (some cookie)
        (codes "2")
        (admin ∷ [])
        left).1)
    ≡ false
unfolding login check_lockout authenticate_user get_user_by_email find_user text_eq lower strip
    email_key ip_key written
login-logout_example =
    login-logout server strict 600 tokens text_eq 50 (codes "A@b") (codes "pw") source (codes "f")
      (codes "1") (admin ∷ []) [] opened 7
      (refresh_token server strict 600 tokens 50 7 (codes "f") (codes "1")) 60 70 source (codes "2")
      (admin ∷ []) refl (omega arith) (omega arith) (omega arith)

revoke_all_refresh_families-ends_example :
    let cookie = refresh_token server strict 600 tokens 50 7 (codes "f") (codes "1") in
    let left = revoke_all_refresh_families server 600 60 7 opened in
    is_signed_in (
      (refresh_route server strict 600 tokens 70 source
        (some cookie)
        (codes "2")
        (admin ∷ [])
        left).1)
    ≡ false
unfolding family_user_id create_family written text_eq family_prefix
revoke_all_refresh_families-ends_example =
    revoke_all_refresh_families-ends server strict 600 tokens 60 7 (codes "f") opened 50 70
      (codes "1") (codes "2") source (admin ∷ []) refl (omega arith)
