-- ===== src/Auth/Reuse.antt =====
-- The detection of a stolen refresh token in backend/app/core/refresh_token_store.py.
use shift_wise.Prelude.{
  ==_self, Option-cases, is_some, any, ℕ, ◌+◌, ◌≤◌, ◌<◌, ◌≡◌, refl, inl, inr, true, false, none,
  some, List, [], ◌∷◌, ◌++◌, arith,
}
use shift_wise.Text.{text_eq_refl, Text, codes, text_eq, starts_with}
use shift_wise.Auth.Redis.{Redis}
use shift_wise.Auth.Tokens.{
  rotate_ok, issue, meta_key, reuse_detected, family_prefix, jti_key, revoke_family, family_user_id,
  delete_keys, rotate,
}

append-text_eq : (p a b : Text) → text_eq (p ++ a) (p ++ b) ≡ text_eq a b
unfolding text_eq
append-text_eq [] a b = refl
append-text_eq (c ∷ p) a b = ground (arith, ==_self c, append-text_eq p a b)

pub starts_with-append : (p a : Text) → starts_with (p ++ a) p ≡ true
unfolding starts_with
starts_with-append [] a = refl
starts_with-append (c ∷ p) a = ground (arith, ==_self c, starts_with-append p a)

text_eq_comm : (a b : Text) → text_eq a b ≡ text_eq b a
unfolding text_eq
text_eq_comm [] [] = refl
text_eq_comm [] (c ∷ b) = refl
text_eq_comm (c ∷ a) [] = refl
text_eq_comm (c ∷ a) (d ∷ b) = ground (arith, text_eq_comm a b)

module _ (r : Redis) (ttl : ℕ) where
  pub delete_keys-keeps :
      (now : ℕ) (ks : List Text) (k : Text) (s : Redis.Store r)
      → Redis.entry r now k s ≡ none
      → Redis.entry r now k (delete_keys r ttl now ks s) ≡ none
  unfolding delete_keys
  delete_keys-keeps now [] k s h = h
  delete_keys-keeps now (j ∷ ks) k s h =
      delete_keys-keeps now ks k (Redis.del r now j s)
        (ground (arith, h, Redis.entry_del r now j k s))

  delete_keys-deletes :
      (now : ℕ) (ks : List Text) (k : Text) (s : Redis.Store r)
      → any (λ j. text_eq j k) ks ≡ true
      → Redis.entry r now k (delete_keys r ttl now ks s) ≡ none
  unfolding delete_keys
  delete_keys-deletes now [] k s h = cc
  delete_keys-deletes now (j ∷ ks) k s h =
      let next = Redis.del r now j s in
      ground (
        arith,
        Redis.entry_del r now j k s,
        delete_keys-keeps now ks k next,
        delete_keys-deletes now ks k next,
      )

  -- Once a family is revoked, none of its keys exists.
  pub revoke_family-empty :
      (now : ℕ) (family_id k : Text) (s : Redis.Store r)
      → starts_with k (family_prefix family_id) ≡ true
      → Redis.entry r now k (revoke_family r ttl now family_id s) ≡ none
  unfolding revoke_family
  revoke_family-empty now family_id k s belongs = elim (Option-cases (Redis.entry r now k s)) [
    | inl missing ↦ delete_keys-keeps now (Redis.scan r now (family_prefix family_id) s) k s missing
    | inr (e, there) ↦
        delete_keys-deletes now (Redis.scan r now (family_prefix family_id) s) k s
          (Redis.scan_complete r now k (family_prefix family_id) s belongs (rw there refl))
  ]

  -- A token that is not there, of a family that is, revokes the family.
  rotate-reuse :
      (now : ℕ) (family_id jti : Text) (user_id owner : ℕ) (new_jti : Text) (s : Redis.Store r)
      → Redis.entry r now (jti_key family_id jti) s ≡ none
      → family_user_id r ttl now family_id s ≡ some owner
      → text_eq jti (codes "meta") ≡ false
      → rotate r ttl now family_id jti user_id new_jti s ≡ (
        revoke_family r ttl now family_id (Redis.del r now (jti_key family_id jti) s),
        reuse_detected owner,
      )
  unfolding rotate family_user_id
  rotate-reuse now family_id jti user_id owner new_jti s missing alive proper =
      rw (missing, rotate)
        (rw
          (
            Redis.entry_del r now (jti_key family_id jti) (meta_key family_id) s,
            append-text_eq (family_prefix family_id) jti (codes "meta"),
            proper,
            alive,
          )
          refl)

  module _ (now t : ℕ) (family_id jti new_jti : Text) (user_id : ℕ) (s : Redis.Store r)
      (proper : text_eq jti (codes "meta") ≡ false)
      (new_proper : text_eq new_jti (codes "meta") ≡ false) (unlike : text_eq new_jti jti ≡ false)
      (lives : 0 < ttl) (there : is_some (Redis.entry r now (jti_key family_id jti) s) ≡ true)
      (owned : family_user_id r ttl now family_id s ≡ some user_id) where
    abbrev left : Redis.Store r
    left = Redis.del r now (jti_key family_id jti) s

    abbrev issued : Redis.Store r
    issued = issue r ttl now family_id new_jti user_id left

    owned-left : family_user_id r ttl now family_id left ≡ some user_id
    unfolding family_user_id
    owned-left =
        rw
          (
            Redis.entry_del r now (jti_key family_id jti) (meta_key family_id) s,
            append-text_eq (family_prefix family_id) jti (codes "meta"),
            proper,
          )
          owned

    rotated : rotate r ttl now family_id jti user_id new_jti s ≡ (issued, rotate_ok user_id new_jti)
    unfolding rotate
    rotated = elim (Option-cases (Redis.entry r now (jti_key family_id jti) s)) [
      | inl missing ↦ absurd (ground (arith, there, missing))
      | inr (token, found) ↦ rw (found, rotate) (rw (owned-left, ==_self user_id) refl)
    ]

    token_gone : now ≤ t → Redis.entry r t (jti_key family_id jti) issued ≡ none
    unfolding issue
    token_gone later =
        let k = jti_key family_id jti in
        let stored = Redis.set r now (jti_key family_id new_jti) user_id (some (now + ttl)) left in
        rw
          (
            Redis.entry_later r now t k issued later,
            Redis.entry_expire r now (meta_key family_id) k ttl false stored lives,
            append-text_eq (family_prefix family_id) (codes "meta") jti,
            text_eq_comm (codes "meta") jti,
            proper,
            Redis.entry_set r now (jti_key family_id new_jti) k user_id (some (now + ttl)) left,
            append-text_eq (family_prefix family_id) new_jti jti,
            unlike,
            Redis.entry_del r now k k s,
            text_eq_refl k,
          )
          refl

    still_owned : now ≤ t → t < now + ttl → family_user_id r ttl t family_id issued ≡ some user_id
    unfolding issue family_user_id
    still_owned later soon =
        let k = meta_key family_id in
        let fresh = jti_key family_id new_jti in
        let stored = Redis.set r now fresh user_id (some (now + ttl)) left in
        ground (
          arith,
          later,
          soon,
          owned-left,
          Redis.entry_later r now t k issued later,
          Redis.entry_expire r now k k ttl false stored lives,
          text_eq_refl k,
          Redis.entry_set r now fresh k user_id (some (now + ttl)) left,
          append-text_eq (family_prefix family_id) new_jti (codes "meta"),
          new_proper,
        )

    -- A live refresh token that its family's owner has rotated to another one, neither of them
    -- named `meta`, is refused when it is presented again, by anyone and until the rotated family
    -- expires: the reuse is reported for the owner, and no token of the family is left, the new
    -- one included.
    pub rotate-replay :
        (other_id : ℕ) (newer k : Text)
        → now ≤ t
        → t < now + ttl
        → starts_with k (family_prefix family_id) ≡ true
        → let once = rotate r ttl now family_id jti user_id new_jti s in
          let twice = rotate r ttl t family_id jti other_id newer once.0 in
          (once.1 ≡ rotate_ok user_id new_jti)
          × (twice.1 ≡ reuse_detected user_id)
          × (Redis.entry r t k twice.0 ≡ none)
    rotate-replay other_id newer k later soon belongs =
        rw
          (
            rotated,
            rotate-reuse t family_id jti other_id user_id newer issued (token_gone later)
                (still_owned later soon) proper,
          )
          (
            refl,
            refl,
            revoke_family-empty t family_id k (Redis.del r t (jti_key family_id jti) issued)
                belongs,
          )
