-- ===== src/Auth/Redis.antt =====
-- The Redis server that backend/app/core uses, as the commands its clients send and their
-- documented effect on a key. Every command takes the server's time in seconds.
use shift_wise.Prelude.{
  ltb, if◌then◌else◌, or_else, is_some, map_option, any, ℕ, suc, ◌+◌, ◌≤◌, ◌<◌, ◌≡◌, Bool, true,
  Option, none, some, List,
}
use shift_wise.Text.{starts_with, text_eq, Text}

-- A key's integer value (a counter, or a user id) and the time at which it expires.
pub record Entry : Type 0 where
  pub value : ℕ
  pub deadline : Option ℕ

-- A key past its deadline does not exist.
abbrev pub is_alive : ℕ → Option ℕ → Bool
is_alive now none = true
is_alive now (some deadline) = ltb now deadline

abbrev pub unexpired : ℕ → Option Entry → Option Entry
unexpired now none = none
unexpired now (some entry) = if is_alive now entry.deadline then some entry else none

-- INCR creates a key at 1 without an expiry, and keeps the expiry of a key that exists.
abbrev pub incremented : Option Entry → Entry
incremented none = record { value = 1; deadline = none }
incremented (some entry) = record { value = suc entry.value; deadline = entry.deadline }

-- EXPIRE, with the flag NX: the deadline is set only where there is none.
abbrev pub rearmed : Bool → ℕ → Entry → Entry
rearmed nx deadline entry = record {
  value = entry.value;
  deadline = (if nx then some (or_else entry.deadline deadline) else some deadline);
}

-- `entry` is what GET, HGET and TTL read at a time; `set` writes a value with or without an expiry,
-- as SET EX and HSET do on a key that does not exist; `scan` is a full SCAN for a prefix.
pub record Redis : Type 1 where
  pub Store : Type 0
  pub entry : ℕ → Text → Store → Option Entry
  pub incr : ℕ → Text → Store → Store
  pub expire : ℕ → Text → ℕ → Bool → Store → Store
  pub del : ℕ → Text → Store → Store
  pub set : ℕ → Text → ℕ → Option ℕ → Store → Store
  pub scan : ℕ → Text → Store → List Text
  pub entry_later :
      (now t : ℕ) (k : Text) (s : Store) → now ≤ t → entry t k s ≡ unexpired t (entry now k s)
  pub entry_incr :
      (now : ℕ) (k j : Text) (s : Store)
      → entry now j (incr now k s)
        ≡ (if text_eq k j then some (incremented (entry now k s)) else entry now j s)
  pub entry_expire :
      (now : ℕ) (k j : Text) (seconds : ℕ) (nx : Bool) (s : Store)
      → 0 < seconds
      → entry now j (expire now k seconds nx s) ≡ (
          if text_eq k j
          then map_option (rearmed nx (now + seconds)) (entry now k s)
          else entry now j s)
  pub entry_del :
      (now : ℕ) (k j : Text) (s : Store)
      → entry now j (del now k s) ≡ (if text_eq k j then none else entry now j s)
  pub entry_set :
      (now : ℕ) (k j : Text) (value : ℕ) (deadline : Option ℕ) (s : Store)
      → entry now j (set now k value deadline s) ≡ (
          if text_eq k j
          then unexpired now (some (record { value = value; deadline = deadline }))
          else entry now j s)
  pub scan_complete :
      (now : ℕ) (k prefix : Text) (s : Store)
      → starts_with k prefix ≡ true
      → is_some (entry now k s) ≡ true
      → any (λ j. text_eq j k) (scan now prefix s) ≡ true
