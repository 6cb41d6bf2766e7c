-- ===== src/Auth/Attack.antt =====
-- What the counters of backend/app/core/login_throttle.py do under a sequence of failures.
use shift_wise.Prelude.{
  Option-cases, is_some, length, ℕ, suc, ◌+◌, ◌≤◌, ◌<◌, ◌≡◌, refl, ◌∙◌, inl, inr, true, false,
  Option, none, some, List, [], ◌∷◌, arith,
}
use shift_wise.Text.{text_eq_refl, Text, text_eq}
use shift_wise.Auth.Redis.{incremented, rearmed, Entry, Redis}
use shift_wise.Auth.Throttle.{
  check_ip_lockout, known_ip, count_ip, record_failure, email_key, is_enabled, ip_key, Settings,
  check_lockout,
}

pub ip_ne_email : (ip email : Text) → text_eq (ip_key ip) (email_key email) ≡ false
unfolding text_eq ip_key email_key
ip_ne_email ip email = refl

-- The entry of an e-mail address after a failure at a time.
abbrev pub failed_once : Settings → ℕ → Option Entry → Entry
failed_once settings now before = rearmed true (now + settings.window_seconds) (incremented before)

abbrev pub last_time : ℕ → List (ℕ × Option Text) → ℕ
last_time now [] = now
last_time now ((gap, ip) ∷ gaps) = last_time (now + gap) gaps

last_time_lem : (now : ℕ) (gaps : List (ℕ × Option Text)) → now ≤ last_time now gaps
last_time_lem now [] = omega arith
last_time_lem now ((gap, ip) ∷ gaps) = omega (arith, last_time_lem (now + gap) gaps)

module _ (r : Redis) (settings : Settings) (on : is_enabled settings ≡ true)
    (positive : 0 < settings.window_seconds) where
  entry_email-count_ip :
      (now : ℕ) (email : Text) (ip : Option Text) (s : Redis.Store r)
      → Redis.entry r now (email_key email) (count_ip r settings now ip s)
        ≡ Redis.entry r now (email_key email) s
  unfolding count_ip
  entry_email-count_ip now email ip s = elim (Option-cases (known_ip ip)) [
    | inl none_known ↦ rw (none_known, count_ip) refl
    | inr (address, known) ↦
        rw (known, count_ip)
          (rw
            (
              Redis.entry_expire r now (ip_key address) (email_key email) settings.window_seconds
                  false (Redis.incr r now (ip_key address) s) positive,
              ip_ne_email address email,
              Redis.entry_incr r now (ip_key address) (email_key email) s,
              ip_ne_email address email,
            )
            refl)
  ]

  -- A failure adds one to the counter of its e-mail address, creating it with a deadline one
  -- window ahead, and never moves a deadline that is there.
  pub record_failure-email :
      (now : ℕ) (email : Text) (ip : Option Text) (s : Redis.Store r)
      → Redis.entry r now (email_key email) (record_failure r settings now email ip s)
        ≡ some (failed_once settings now (Redis.entry r now (email_key email) s))
  unfolding record_failure
  record_failure-email now email ip s =
      let k = email_key email in
      rw (on, record_failure)
        (rw
          (
            entry_email-count_ip now email ip
                (Redis.expire r now k settings.window_seconds true (Redis.incr r now k s)),
            Redis.entry_expire r now k k settings.window_seconds true (Redis.incr r now k s)
                positive,
            text_eq_refl k,
            Redis.entry_incr r now k k s,
            text_eq_refl k,
          )
          refl)

  -- Failures on one address, each with the seconds since the one before and its source.
  unfoldable pub attack : ℕ → Text → List (ℕ × Option Text) → Redis.Store r → Redis.Store r
  attack now email [] s = s
  attack now email ((gap, ip) ∷ gaps) s =
      attack (now + gap) email gaps (record_failure r settings (now + gap) email ip s)

  attack-entry :
      (now : ℕ) (email : Text) (gaps : List (ℕ × Option Text)) (s : Redis.Store r) (v d : ℕ)
      → Redis.entry r now (email_key email) s ≡ some (record { value = v; deadline = some d })
      → last_time now gaps < d
      → Redis.entry r (last_time now gaps) (email_key email) (attack now email gaps s)
        ≡ some (record { value = v + length gaps; deadline = some d })
  unfolding attack
  attack-entry now email [] s v d known before = rw known (ground arith)
  attack-entry now email ((gap, ip) ∷ gaps) s v d known before =
      let later = now + gap in
      let step : Redis.entry r later (email_key email) (record_failure r settings later email ip s)
          ≡ some (record { value = suc v; deadline = some d }) =
        rw
          (
            record_failure-email later email ip s,
            Redis.entry_later r now later (email_key email) s (omega arith),
            known,
          )
          (ground (arith, last_time_lem later gaps)) in
      attack-entry later email gaps (record_failure r settings later email ip s) (suc v) d step
        before
      ∙ ground arith

  email_unlocked :
      (t : ℕ) (email : Text) (ip : Option Text) (s : Redis.Store r)
      → Redis.entry r t (email_key email) s ≡ none
      → check_ip_lockout r settings t ip s ≡ none
      → check_lockout r settings t email ip s ≡ none
  unfolding check_lockout check_ip_lockout
  email_unlocked t email ip s gone unlocked = elim (Option-cases (known_ip ip)) [
    | inl missing ↦ rw (on, check_lockout, gone, missing) (ground arith)
    | inr (address, known) ↦ ground (arith, on, gone, known, unlocked)
  ]

  module _ (now : ℕ) (email : Text) (first : Option Text) (gaps : List (ℕ × Option Text))
      (s : Redis.Store r) (fresh : Redis.entry r now (email_key email) s ≡ none)
      (within : last_time now gaps < now + settings.window_seconds) where
    abbrev attacked : Redis.Store r
    attacked = attack now email gaps (record_failure r settings now email first s)

    attacked-entry :
        Redis.entry r (last_time now gaps) (email_key email) attacked
        ≡ some (record { value = 1 + length gaps; deadline = some (now + settings.window_seconds) })
    attacked-entry =
        attack-entry now email gaps (record_failure r settings now email first s) 1
          (now + settings.window_seconds) (record_failure-email now email first s ∙ rw fresh refl)
          within

    -- With throttling on: once an address that had no counter had as many failures as the
    -- settings allow within the window of the first, from whatever sources, an attempt on it at
    -- the time of the last is locked out.
    pub attack-locks :
        (ip : Option Text)
        → settings.max_attempts ≤ suc (length gaps)
        → is_some (check_lockout r settings (last_time now gaps) email ip attacked) ≡ true
    unfolding check_lockout
    attack-locks ip enough = rw (on, check_lockout, attacked-entry) (ground arith)

    -- With throttling on, for an address that had no counter: however many failures follow within
    -- the window of the first, once that window has passed the address is locked for nobody whose
    -- source is not locked itself.
    pub attack-clears :
        (ip : Option Text) (t : ℕ)
        → now + settings.window_seconds ≤ t
        → check_ip_lockout r settings t ip attacked ≡ none
        → check_lockout r settings t email ip attacked ≡ none
    attack-clears ip t passed unlocked =
        let gone : Redis.entry r t (email_key email) attacked ≡ none =
          rw
            (
              Redis.entry_later r (last_time now gaps) t (email_key email) attacked (omega arith),
              attacked-entry,
            )
            (ground arith) in
        email_unlocked t email ip attacked gone unlocked
