-- ===== src/Examples/Logins.antt =====
-- Three failures on one address, and a refresh token that is presented twice.
use shift_wise.Prelude.{is_some, ℕ, ◌<◌, ◌≡◌, refl, true, Option, none, some, List, [], ◌∷◌, arith}
use shift_wise.Text.{Text, codes, text_eq, starts_with}
use shift_wise.Auth.Throttle.{record_failure, check_ip_lockout, Settings, check_lockout}
use shift_wise.Auth.Attack.{attack-clears, attack, attack-locks}
use shift_wise.Auth.Tokens.{
  jti_key, reuse_detected, rotate_ok, family_prefix, family_user_id, create_family, rotate,
}
use shift_wise.Auth.Reuse.{rotate-replay}
use shift_wise.Examples.Server.{written, live, Writes, server}

abbrev strict : Settings
strict = record { max_attempts = 3; window_seconds = 900 }

abbrev victim : Text
victim = codes "a@b"

abbrev source : Option Text
source = some (codes "10.0.0.9")

abbrev gaps : List (ℕ × Option Text)
gaps = (10, source) ∷ (20, none) ∷ []

positive : 0 < 900
positive = omega arith

abbrev after_attack : Writes
after_attack =
    attack server strict refl positive 100 victim gaps
      (record_failure server strict 100 victim source [])

attack-locks_example : is_some (check_lockout server strict 130 victim none after_attack) ≡ true
unfolding written
attack-locks_example =
    attack-locks server strict refl positive 100 victim source gaps [] refl (omega arith) none
      (omega arith)

attack-clears_example : check_lockout server strict 1000 victim none after_attack ≡ none
unfolding check_ip_lockout written
attack-clears_example =
    attack-clears server strict refl positive 100 victim source gaps [] refl (omega arith) none 1000
      (omega arith) refl

abbrev signed_in : Writes
signed_in = create_family server 600 50 (codes "f") (codes "1") 7 []

rotate-replay_example :
    let once = rotate server 600 60 (codes "f") (codes "1") 7 (codes "2") signed_in in
    let twice = rotate server 600 70 (codes "f") (codes "1") 8 (codes "3") once.0 in
    (once.1 ≡ rotate_ok 7 (codes "2"))
    × (twice.1 ≡ reuse_detected 7)
    × (live 70 (jti_key (codes "f") (codes "2")) twice.0 ≡ none)
unfolding text_eq create_family family_user_id written starts_with family_prefix
rotate-replay_example =
    rotate-replay server 600 60 70 (codes "f") (codes "1") (codes "2") 7 signed_in refl refl refl
      (omega arith) refl refl 8 (codes "3") (jti_key (codes "f") (codes "2")) (omega arith)
      (omega arith) refl
