-- ===== src/Auth/Release.antt =====
-- What a success does to the counters of backend/app/core/login_throttle.py.
use shift_wise.Prelude.{Option-cases, ℕ, ◌≡◌, inl, inr, Option, none, arith}
use shift_wise.Text.{text_eq_refl, Text}
use shift_wise.Auth.Redis.{Redis}
use shift_wise.Auth.Attack.{ip_ne_email}
use shift_wise.Auth.Throttle.{
  ip_key, known_ip, email_key, reset_ip, reset, check_ip_lockout, Settings, check_lockout,
}

module _ (r : Redis) (settings : Settings) where
  -- A success unlocks the address and the source at once.
  pub reset-check_lockout :
      (now : ℕ) (email : Text) (ip : Option Text) (s : Redis.Store r)
      → (check_lockout r settings now email ip (reset r settings now email ip s) ≡ none)
        × (check_ip_lockout r settings now ip (reset r settings now email ip s) ≡ none)
  unfolding check_lockout check_ip_lockout reset reset_ip
  reset-check_lockout now email ip s =
      let e = email_key email in
      let left = Redis.del r now e s in
      elim (Option-cases (known_ip ip)) [
        | inl missing ↦ ground (arith, missing, Redis.entry_del r now e e s, text_eq_refl e)
        | inr (address, known) ↦ ground (
          arith,
          known,
          ip_ne_email address email,
          Redis.entry_del r now (ip_key address) e left,
          Redis.entry_del r now e e s,
          text_eq_refl e,
          Redis.entry_del r now (ip_key address) (ip_key address) left,
          text_eq_refl (ip_key address),
        )
      ]
