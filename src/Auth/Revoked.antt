-- ===== src/Auth/Revoked.antt =====
-- No session of a user is left by `_revoke_all_refresh_families` of backend/app/api/v1/auth.py.
use shift_wise.Prelude.{
  if◌then◌else◌, ==_self, Bool-cases, length, length-append, any, ℕ, ◌≤◌, ◌≡◌, refl, ap, ◌⊎◌, inl,
  inr, true, false, Option, none, some, List, [], ◌∷◌, ◌++◌, arith,
}
use shift_wise.Text.{Text, codes, text_eq, text_eq→eq}
use shift_wise.Access.Roles.{User}
use shift_wise.Access.Users.{get_user}
use shift_wise.Auth.Redis.{Redis}
use shift_wise.Auth.Throttle.{Settings}
use shift_wise.Auth.Tokens.{revoke_family, meta_key, family_prefix, family_user_id, delete_keys}
use shift_wise.Auth.Reuse.{revoke_family-empty, starts_with-append, delete_keys-keeps}
use shift_wise.Auth.Login.{Jwt, refresh_token, refresh_route}
use shift_wise.Auth.Sessions.{
  is_signed_in, refresh_user-unowned, do_refresh-refresh_token, refresh_route-refused,
}
use shift_wise.Auth.Revocation.{
  strip_prefix, before_meta, family_of, owned_by, revoke_key, revoke_keys,
  revoke_all_refresh_families,
}

too_long :
    (c : ℕ) (f : Text) → text_eq (c ∷ (f ++ codes ":") ++ codes "meta") (codes ":meta") ≡ false
too_long c f = elim (Bool-cases (text_eq (c ∷ (f ++ codes ":") ++ codes "meta") (codes ":meta"))) [
  | inl equal ↦
      let same =
        ap length (text_eq→eq (c ∷ (f ++ codes ":") ++ codes "meta") (codes ":meta") equal) in
      ground
        (arith, same, length-append (f ++ codes ":") (codes "meta"), length-append f (codes ":"))
  | inr unequal ↦ unequal
]

before_meta-append : (f : Text) → before_meta ((f ++ codes ":") ++ codes "meta") ≡ some f
unfolding before_meta text_eq
before_meta-append [] = refl
before_meta-append (c ∷ f) = ground (arith, too_long c f, before_meta-append f)

family_of-meta_key : (f : Text) → family_of (meta_key f) ≡ some f
unfolding family_of strip_prefix family_prefix
family_of-meta_key f = before_meta-append f

module _ (r : Redis) (ttl : ℕ) where
  -- A revocation deletes keys and changes none.
  delete_keys-shrinks :
      (now : ℕ) (ks : List Text) (k : Text) (s : Redis.Store r)
      → (Redis.entry r now k (delete_keys r ttl now ks s) ≡ none)
        ⊎ (Redis.entry r now k (delete_keys r ttl now ks s) ≡ Redis.entry r now k s)
  unfolding delete_keys
  delete_keys-shrinks now [] k s = inr refl
  delete_keys-shrinks now (j ∷ ks) k s =
      let next = Redis.del r now j s in
      ground (
        arith,
        Redis.entry_del r now j k s,
        delete_keys-keeps r ttl now ks k next,
        delete_keys-shrinks now ks k next,
      )

  revoke_family-shrinks :
      (now : ℕ) (g k : Text) (s : Redis.Store r)
      → (Redis.entry r now k (revoke_family r ttl now g s) ≡ none)
        ⊎ (Redis.entry r now k (revoke_family r ttl now g s) ≡ Redis.entry r now k s)
  unfolding revoke_family
  revoke_family-shrinks now g k s =
      delete_keys-shrinks now (Redis.scan r now (family_prefix g) s) k s

  revoke_key-shrinks :
      (now user_id : ℕ) (key k : Text) (s : Redis.Store r)
      → (Redis.entry r now k (revoke_key r ttl now user_id key s) ≡ none)
        ⊎ (Redis.entry r now k (revoke_key r ttl now user_id key s) ≡ Redis.entry r now k s)
  unfolding revoke_key
  revoke_key-shrinks now user_id key k s =
      elim (family_of key)
        as (λ found.
          let left : Redis.Store r = elim found [
            | none ↦ s
            | some family_id ↦
                if owned_by user_id (Redis.entry r now key s)
                then revoke_family r ttl now family_id s
                else s
          ] in
          (Redis.entry r now k left ≡ none) ⊎ (Redis.entry r now k left ≡ Redis.entry r now k s)) [
            | none ↦ inr refl
            | some g ↦ ground (arith, revoke_family-shrinks now g k s)
          ]

  revoke_keys-keeps :
      (now user_id : ℕ) (keys : List Text) (k : Text) (s : Redis.Store r)
      → Redis.entry r now k s ≡ none
      → Redis.entry r now k (revoke_keys r ttl now user_id keys s) ≡ none
  unfolding revoke_keys
  revoke_keys-keeps now user_id [] k s h = h
  revoke_keys-keeps now user_id (key ∷ keys) k s h =
      let next = revoke_key r ttl now user_id key s in
      revoke_keys-keeps now user_id keys k next
        (ground (arith, revoke_key-shrinks now user_id key k s))

  revoke_key-owned :
      (now user_id : ℕ) (key f : Text) (s : Redis.Store r)
      → family_of key ≡ some f
      → owned_by user_id (Redis.entry r now key s) ≡ true
      → revoke_key r ttl now user_id key s ≡ revoke_family r ttl now f s
  unfolding revoke_key
  revoke_key-owned now user_id key f s named owned = ground arith

  -- The record of a family of the user is gone once its key has been met.
  revoke_key-own :
      (now user_id : ℕ) (f : Text) (s : Redis.Store r)
      → owned_by user_id (Redis.entry r now (meta_key f) s) ≡ true
      → Redis.entry r now (meta_key f) (revoke_key r ttl now user_id (meta_key f) s) ≡ none
  revoke_key-own now user_id f s owned =
      rw (revoke_key-owned now user_id (meta_key f) f s (family_of-meta_key f) owned) (
        revoke_family-empty r ttl now f (meta_key f) s
          (starts_with-append (family_prefix f) (codes "meta")))

  revoke_keys-own :
      (now user_id : ℕ) (keys : List Text) (f : Text) (s : Redis.Store r)
      → any (λ key. text_eq key (meta_key f)) keys ≡ true
      → owned_by user_id (Redis.entry r now (meta_key f) s) ≡ true
      → Redis.entry r now (meta_key f) (revoke_keys r ttl now user_id keys s) ≡ none
  unfolding revoke_keys
  revoke_keys-own now user_id [] f s met owned = cc
  revoke_keys-own now user_id (key ∷ keys) f s met owned =
      let next = revoke_key r ttl now user_id key s in
      elim (Bool-cases (text_eq key (meta_key f))) [
        | inl same ↦
            revoke_keys-keeps now user_id keys (meta_key f) next
              (rw (text_eq→eq key (meta_key f) same) (revoke_key-own now user_id f s owned))
        | inr other ↦ ground (
          arith,
          revoke_key-shrinks now user_id key (meta_key f) s,
          revoke_keys-keeps now user_id keys (meta_key f) next,
          revoke_keys-own now user_id keys f next,
        )
      ]

  revoke_all-own :
      (now user_id : ℕ) (f : Text) (s : Redis.Store r)
      → family_user_id r ttl now f s ≡ some user_id
      → Redis.entry r now (meta_key f) (revoke_all_refresh_families r ttl now user_id s) ≡ none
  unfolding revoke_all_refresh_families family_user_id family_prefix
  revoke_all-own now user_id f s owner =
      revoke_keys-own now user_id (Redis.scan r now (codes "rt:fam:") s) f s
        (Redis.scan_complete r now (meta_key f) (codes "rt:fam:") s
          (starts_with-append (codes "rt:fam:") (f ++ codes ":" ++ codes "meta")) (ground arith))
        (ground (arith, ==_self user_id))

module _ (r : Redis) (settings : Settings) (ttl : ℕ) (j : Jwt) where
  -- After `_revoke_all_refresh_families` for a user, no token of a family that it owned signs anybody
  -- in again, whether or not the token had been used.
  pub revoke_all_refresh_families-ends :
      (t user_id : ℕ) (family_id : Text) (s : Redis.Store r) (issued u : ℕ) (jti new_jti : Text)
      (ip : Option Text) (users : List User)
      → family_user_id r ttl t family_id s ≡ some user_id
      → t ≤ u
      → let cookie = some (refresh_token r settings ttl j issued user_id family_id jti) in
        let left = revoke_all_refresh_families r ttl t user_id s in
        is_signed_in ((refresh_route r settings ttl j u ip cookie new_jti users left).1) ≡ false
  revoke_all_refresh_families-ends t user_id family_id s issued u jti new_jti ip users owner later =
      let cookie = some (refresh_token r settings ttl j issued user_id family_id jti) in
      let left = revoke_all_refresh_families r ttl t user_id s in
      let gone = revoke_all-own r ttl t user_id family_id s owner in
      let still_gone : Redis.entry r u (meta_key family_id) left ≡ none =
        ground (arith, Redis.entry_later r t u (meta_key family_id) left later, gone) in
      let refused =
        refresh_user-unowned r settings ttl j u family_id jti new_jti (get_user user_id users) left
          still_gone in
      refresh_route-refused r settings ttl j u ip cookie new_jti users left (
        rw
          (do_refresh-refresh_token r settings ttl j issued u user_id family_id jti new_jti users
            left)
          (ground (arith, refused)))
