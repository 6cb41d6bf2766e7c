-- ===== src/Auth/Throttle.antt =====
-- backend/app/core/login_throttle.py. A pipeline is its commands in order, at one time.
use shift_wise.Prelude.{
  ltb, leb, if◌then◌else◌, is_empty, ℕ, ◌-◌, max, Bool, true, false, ◌&&◌, not, Option, none, some,
  ◌++◌,
}
use shift_wise.Text.{Text, codes, strip, lower}
use shift_wise.Auth.Redis.{Entry, Redis}

pub data LockedBy : Type 0 where
  by_email by_ip by_email_and_ip : LockedBy

pub record LockoutActive : Type 0 where
  pub retry_after_seconds : ℕ
  pub locked_by : LockedBy

-- The two settings; 0 attempts stand for every limit that is not positive.
pub record Settings : Type 0 where
  pub max_attempts : ℕ
  pub window_seconds : ℕ

unfoldable pub email_key : Text → Text
email_key email = codes "lt:email:" ++ lower (strip email)

unfoldable pub ip_key : Text → Text
ip_key ip = codes "lt:ip:" ++ ip

abbrev pub is_enabled : Settings → Bool
is_enabled settings = ltb 0 settings.max_attempts

-- `if ip`: an address that is missing or empty is none.
abbrev pub known_ip : Option Text → Option Text
known_ip none = none
known_ip (some ip) = if is_empty ip then none else some ip

abbrev pub count_of : Option Entry → ℕ
count_of none = 0
count_of (some entry) = entry.value

-- TTL, where a negative answer (no key, no expiry) is 0, as the `max(0, …)` of its reader makes it.
abbrev pub ttl_of : ℕ → Option Entry → ℕ
ttl_of now none = 0
ttl_of now (some entry) = elim entry.deadline [ none ↦ 0 | some deadline ↦ deadline - now ]

-- The answer of `check_lockout` from what its pipeline read.
abbrev pub lockout : ℕ → ℕ → ℕ → ℕ → ℕ → Option LockoutActive
lockout threshold email_count email_ttl ip_count ip_ttl =
    let email_locked = leb threshold email_count in
    let ip_locked = leb threshold ip_count in
    let retry_after =
      max (if email_locked then email_ttl else 0) (if ip_locked then ip_ttl else 0) in
    if not email_locked && not ip_locked
    then none
    else some (record {
      retry_after_seconds = retry_after;
      locked_by =
          (if email_locked && ip_locked
            then by_email_and_ip
            else if email_locked
            then by_email
            else by_ip);
    })

module _ (r : Redis) (settings : Settings) where
  unfoldable pub check_lockout : ℕ → Text → Option Text → Redis.Store r → Option LockoutActive
  check_lockout now email ip s =
      let read_ip : Option Entry = elim (known_ip ip) [
        | none ↦ none
        | some address ↦ Redis.entry r now (ip_key address) s
      ] in
      let read_email = Redis.entry r now (email_key email) s in
      if is_enabled settings
      then lockout settings.max_attempts (count_of read_email) (ttl_of now read_email)
          (count_of read_ip) (ttl_of now read_ip)
      else none

  -- The commands that count a failure of an address.
  unfoldable pub count_ip : ℕ → Option Text → Redis.Store r → Redis.Store r
  count_ip now ip s = elim (known_ip ip) [
    | none ↦ s
    | some address ↦
        Redis.expire r now (ip_key address) settings.window_seconds false
          (Redis.incr r now (ip_key address) s)
  ]

  unfoldable pub record_failure : ℕ → Text → Option Text → Redis.Store r → Redis.Store r
  record_failure now email ip s =
      let counted = Redis.incr r now (email_key email) s in
      let armed = Redis.expire r now (email_key email) settings.window_seconds true counted in
      if is_enabled settings then count_ip now ip armed else s

  unfoldable pub check_ip_lockout : ℕ → Option Text → Redis.Store r → Option LockoutActive
  check_ip_lockout now ip s = elim (known_ip ip) [
    | none ↦ none
    | some address ↦
        let read = Redis.entry r now (ip_key address) s in
        if is_enabled settings
        then if ltb (count_of read) settings.max_attempts
          then none
          else some (record { retry_after_seconds = ttl_of now read; locked_by = by_ip })
        else none
  ]

  unfoldable pub record_ip_failure : ℕ → Option Text → Redis.Store r → Redis.Store r
  record_ip_failure now ip s = if is_enabled settings then count_ip now ip s else s

  unfoldable pub reset_ip : ℕ → Option Text → Redis.Store r → Redis.Store r
  reset_ip now ip s = elim (known_ip ip) [
    | none ↦ s
    | some address ↦ if is_enabled settings then Redis.del r now (ip_key address) s else s
  ]

  -- One DEL with both keys.
  unfoldable pub reset : ℕ → Text → Option Text → Redis.Store r → Redis.Store r
  reset now email ip s =
      if is_enabled settings then reset_ip now ip (Redis.del r now (email_key email) s) else s
