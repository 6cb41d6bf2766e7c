-- ===== src/Auth/Revocation.antt =====
-- The end of every session of a user, `_revoke_all_refresh_families` of
-- backend/app/api/v1/auth.py, which a change of the password calls.
use shift_wise.Prelude.{
  ◌==◌, if◌then◌else◌, map_option, ◌>>=◌, ℕ, Bool, false, Option, none, some, List, [], ◌∷◌,
}
use shift_wise.Text.{Text, codes, text_eq}
use shift_wise.Auth.Redis.{Entry, Redis}
use shift_wise.Auth.Tokens.{revoke_family}

unfoldable pub strip_prefix : Text → Text → Option Text
strip_prefix [] key = some key
strip_prefix (c ∷ prefix) [] = none
strip_prefix (c ∷ prefix) (d ∷ key) =
    let rest = strip_prefix prefix key in if c == d then rest else none

-- What stands before the last `:meta`.
unfoldable pub before_meta : Text → Option Text
before_meta [] = none
before_meta (c ∷ key) =
    let rest = map_option (λ name. c ∷ name) (before_meta key) in
    if text_eq (c ∷ key) (codes ":meta") then some [] else rest

-- The family of a key that matches the pattern `rt:fam:*:meta`.
unfoldable pub family_of : Text → Option Text
family_of key = strip_prefix (codes "rt:fam:") key >>= before_meta

abbrev pub owned_by : ℕ → Option Entry → Bool
owned_by user_id none = false
owned_by user_id (some meta) = meta.value == user_id

module _ (r : Redis) (ttl : ℕ) where
  unfoldable pub revoke_key : ℕ → ℕ → Text → Redis.Store r → Redis.Store r
  revoke_key now user_id key s = elim (family_of key) [
    | none ↦ s
    | some family_id ↦
        if owned_by user_id (Redis.entry r now key s)
        then revoke_family r ttl now family_id s
        else s
  ]

  -- The loop over the keys that the scan gives.
  unfoldable pub revoke_keys : ℕ → ℕ → List Text → Redis.Store r → Redis.Store r
  revoke_keys now user_id [] s = s
  revoke_keys now user_id (key ∷ keys) s =
      revoke_keys now user_id keys (revoke_key now user_id key s)

  unfoldable pub revoke_all_refresh_families : ℕ → ℕ → Redis.Store r → Redis.Store r
  revoke_all_refresh_families now user_id s =
      revoke_keys now user_id (Redis.scan r now (codes "rt:fam:") s) s
