-- ===== src/Auth/Tokens.antt =====
-- backend/app/core/refresh_token_store.py. A family's keys are its live refresh tokens and the
-- hash `meta`, of which the field `user_id` is the entry's value.
use shift_wise.Prelude.{
  ◌==◌, if◌then◌else◌, map_option, ℕ, ◌+◌, false, Option, none, some, List, [], ◌∷◌, ◌++◌,
}
use shift_wise.Text.{Text, codes}
use shift_wise.Auth.Redis.{Entry, Redis}

pub data RotateResult : Type 0 where
  rotate_ok : ℕ → Text → RotateResult
  reuse_detected : ℕ → RotateResult
  rotate_unknown : RotateResult

-- The prefix of `_family_pattern`.
unfoldable pub family_prefix : Text → Text
family_prefix family_id = codes "rt:fam:" ++ family_id ++ codes ":"

abbrev pub jti_key : Text → Text → Text
jti_key family_id jti = family_prefix family_id ++ jti

abbrev pub meta_key : Text → Text
meta_key family_id = family_prefix family_id ++ codes "meta"

module _ (r : Redis) (ttl : ℕ) where
  -- `family_id` and `jti` are the two UUIDs that it draws.
  unfoldable pub create_family : ℕ → Text → Text → ℕ → Redis.Store r → Redis.Store r
  create_family now family_id jti user_id s =
      let issued = Redis.set r now (jti_key family_id jti) user_id (some (now + ttl)) s in
      let owned = Redis.set r now (meta_key family_id) user_id none issued in
      Redis.expire r now (meta_key family_id) ttl false owned

  unfoldable pub delete_keys : ℕ → List Text → Redis.Store r → Redis.Store r
  delete_keys now [] s = s
  delete_keys now (k ∷ ks) s = delete_keys now ks (Redis.del r now k s)

  unfoldable pub revoke_family : ℕ → Text → Redis.Store r → Redis.Store r
  revoke_family now family_id s = delete_keys now (Redis.scan r now (family_prefix family_id) s) s

  unfoldable pub family_user_id : ℕ → Text → Redis.Store r → Option ℕ
  family_user_id now family_id s =
      map_option (λ (e : Entry). e.value) (Redis.entry r now (meta_key family_id) s)

  unfoldable pub issue : ℕ → Text → Text → ℕ → Redis.Store r → Redis.Store r
  issue now family_id new_jti user_id s =
      Redis.expire r now (meta_key family_id) ttl false
        (Redis.set r now (jti_key family_id new_jti) user_id (some (now + ttl)) s)

  -- `new_jti` is the UUID that it draws.
  unfoldable pub rotate : ℕ → Text → Text → ℕ → Text → Redis.Store r → Redis.Store r × RotateResult
  rotate now family_id jti user_id new_jti s =
      let left = Redis.del r now (jti_key family_id jti) s in
      elim (Redis.entry r now (jti_key family_id jti) s) [
        | some token ↦ elim (family_user_id now family_id left) [
          | none ↦ (left, rotate_unknown)
          | some owner ↦
              if owner == user_id
              then (issue now family_id new_jti user_id left, rotate_ok user_id new_jti)
              else (left, rotate_unknown)
        ]
        | none ↦ elim (family_user_id now family_id left) [
          | none ↦ (left, rotate_unknown)
          | some owner ↦ (revoke_family now family_id left, reuse_detected owner)
        ]
      ]
