-- ===== src/Cluster/Coherence.antt =====
-- When the clients that a process keeps are those of the configurations in force.
use shift_wise.Prelude.{
  if◌then◌else◌, ◌≡◌, refl, ap, ◌↔◌, true, false, none, some, List, [], ◌∷◌, arith,
}
use text.Mathlib.TextEquality.{eq_iff}
use shift_wise.Cluster.Config.{
  platform_default, tenant, scope_eq, drop_row, Config, put_row, get_scope, Scope,
}
use shift_wise.Cluster.Resolver.{invalidate_scope, find_client, Cached}

pub scope_eq_iff : (s t : Scope) → (scope_eq s t ≡ true) ↔ (s ≡ t)
scope_eq_iff platform_default platform_default = (λ _. refl, λ _. refl)
scope_eq_iff platform_default (tenant t) = (λ h. cc h, λ h. cc h)
scope_eq_iff (tenant s) platform_default = (λ h. cc h, λ h. cc h)
scope_eq_iff (tenant s) (tenant t) = (λ h. ap tenant ((eq_iff s t).0 h), λ h. (eq_iff s t).1 (cc h))

pub scope_eq_self : (s : Scope) → scope_eq s s ≡ true
scope_eq_self s = (scope_eq_iff s s).1 refl

pub find_client-invalidate_scope :
    (s t : Scope) (cache : List Cached)
    → find_client t (invalidate_scope s cache)
      ≡ (if scope_eq s t then none else find_client t cache)
unfolding find_client invalidate_scope
find_client-invalidate_scope s t [] = ground arith
find_client-invalidate_scope s t (entry ∷ cache) = ground (
  arith,
  find_client-invalidate_scope s t cache,
  scope_eq_iff entry.scope s,
  scope_eq_iff s t,
  scope_eq_iff entry.scope t,
)

module _ {C : Type 0} where
  pub get_scope-put_row :
      (row : Config C) (t : Scope) (rows : List (Config C))
      → get_scope t (put_row row rows)
        ≡ (if scope_eq row.scope t then some row else get_scope t rows)
  unfolding get_scope put_row
  get_scope-put_row row t [] = ground arith
  get_scope-put_row row t (r ∷ rows) = ground (
    arith,
    get_scope-put_row row t rows,
    scope_eq_iff r.scope row.scope,
    scope_eq_iff row.scope t,
    scope_eq_iff r.scope t,
  )

  pub get_scope-drop_row :
      (s t : Scope) (rows : List (Config C))
      → scope_eq s t ≡ false
      → get_scope t (drop_row s rows) ≡ get_scope t rows
  unfolding get_scope drop_row
  get_scope-drop_row s t [] other = refl
  get_scope-drop_row s t (r ∷ rows) other = ground (
    arith,
    get_scope-drop_row s t rows,
    scope_eq_iff r.scope s,
    scope_eq_iff s t,
    scope_eq_iff r.scope t,
  )

  pub get_scope-scope :
      (t : Scope) (rows : List (Config C)) (cfg : Config C)
      → get_scope t rows ≡ some cfg
      → cfg.scope ≡ t
  unfolding get_scope
  get_scope-scope t [] cfg h = cc h
  get_scope-scope t (r ∷ rows) cfg h =
      ground (arith, get_scope-scope t rows cfg, scope_eq_iff r.scope t)
