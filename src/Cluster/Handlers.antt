-- ===== src/Cluster/Handlers.antt =====
-- What each handler of backend/app/api/v1/infrastructure.py does to the invariant of the cache.
use Prim.Native.String.{String}
use shift_wise.Prelude.{
  ◌==◌, Bool-cases, Option-cases, ℕ, ◌+◌, ◌≡◌, refl, sym, ap, subst, ◌⊎◌, inl, inr, Option, none,
  some, List, arith,
}
use shift_wise.Cluster.Vault.{Fernet}
use shift_wise.Cluster.Config.{
  Scope, Config, Db, get_scope, Upsert, tenant, platform_default, upsert, store_kubeconfig,
  kubeconfig_row, record_health, bump, Health, get_or_create_row, apply_mode_payload,
}
use shift_wise.Cluster.Resolver.{
  Answer, loads, Kube, client_from_config, client_of, Spec, Cached, find_client, spec_from_config,
  resolve_effective_config, build_client, keep_client, get_client_for_tenant, fresh_answer,
}
use shift_wise.Cluster.Coherence.{get_scope-scope}
use shift_wise.Cluster.Serving.{
  Coherent, put_row-Coherent, put_row-same-Coherent, keep_client-Coherent, apply_mode_payload-scope,
  get_or_create_row-Advances,
}
use shift_wise.Cluster.Endpoints.{tested_config}

module _ (f : Fernet) (kube : Kube) where
  open f use {Token}

  pub upsert-Coherent :
      (nonce : ℕ) (scope : Scope) (request : Upsert) (actor : Option ℕ) (db : Db Token)
      (cache : List Cached)
      → Coherent f kube db.configs cache
      → Coherent f kube (upsert f nonce scope request actor db).configs cache
  unfolding upsert
  upsert-Coherent nonce scope request actor db cache coherent =
      let row = get_or_create_row scope db.configs in
      let (same, version) = apply_mode_payload-scope f nonce request row in
      put_row-Coherent f kube (bump f actor (apply_mode_payload f nonce request row)) db.configs
        cache
        (get_or_create_row-Advances f kube scope db.configs
          (bump f actor (apply_mode_payload f nonce request row)) same (ap (λ n. n + 1) version))
        coherent

  pub store_kubeconfig-Coherent :
      (scope : Scope) (actor : Option ℕ) (namespace : Option String) (db : Db Token) (c : Token)
      (cache : List Cached)
      → Coherent f kube db.configs cache
      → Coherent f kube (store_kubeconfig f scope actor namespace db c).configs cache
  unfolding store_kubeconfig
  store_kubeconfig-Coherent scope actor namespace db c cache coherent =
      let row = kubeconfig_row f namespace c (get_or_create_row scope db.configs) in
      put_row-Coherent f kube (bump f actor row) db.configs cache
        (get_or_create_row-Advances f kube scope db.configs (bump f actor row) refl refl) coherent

  pub tested_config-scope :
      (scope : Scope) (rows : List (Config Token)) (cfg : Config Token)
      → tested_config f scope rows ≡ some cfg
      → get_scope cfg.scope rows ≡ some cfg
  unfolding tested_config
  tested_config-scope platform_default rows cfg h =
      ground (arith, get_scope-scope platform_default rows cfg)
  tested_config-scope (tenant t) rows cfg h =
      ground (arith, get_scope-scope (tenant t) rows cfg, get_scope-scope platform_default rows cfg)

  pub record_health-Coherent :
      (cfg : Config Token) (status : Health) (reason : Option String) (db : Db Token)
      (cache : List Cached)
      → get_scope cfg.scope db.configs ≡ some cfg
      → Coherent f kube db.configs cache
      → Coherent f kube (record_health cfg status reason db).configs cache
  unfolding record_health spec_from_config
  record_health-Coherent cfg status reason db cache found coherent =
      put_row-same-Coherent f kube cfg
        (record cfg { health_status = status; health_reason = reason }) db.configs cache found refl
        refl coherent

  pub resolve_effective_config-scope :
      (tenant_id : Option String) (rows : List (Config Token)) (cfg : Config Token)
      → resolve_effective_config tenant_id rows ≡ some cfg
      → get_scope cfg.scope rows ≡ some cfg
  unfolding resolve_effective_config
  resolve_effective_config-scope none rows cfg h =
      ground (arith, get_scope-scope platform_default rows cfg)
  resolve_effective_config-scope (some t) rows cfg h =
      ground (arith, get_scope-scope (tenant t) rows cfg, get_scope-scope platform_default rows cfg)

  -- What the cache becomes where a client is built: it is kept, or the client is put in it.
  build_client-cases :
      (cfg : Config Token) (cache : List Cached)
      → ((build_client f kube cfg cache).0 ≡ cache)
        ⊎ ((spec : Spec) × (client_from_config f kube cfg ≡ client_of spec)
            × ((build_client f kube cfg cache).0
                ≡ keep_client
                    (record { scope = cfg.scope; version = cfg.config_version; client = spec })
                    cache))
  unfolding build_client
  build_client-cases cfg cache = elim (Option-cases (spec_from_config f cfg)) [
    | inl broken ↦ inl (ground arith)
    | inr (spec, opened) ↦ elim (Bool-cases (loads kube spec)) [
      | inl loaded ↦ inr (spec, ground arith, ground arith)
      | inr refused ↦ inl (ground arith)
    ]
  ]

  -- What the cache becomes: it is kept, or a client is built for a row in force.
  get_client_for_tenant-cases :
      (rows : List (Config Token)) (tenant_id : Option String) (cache : List Cached)
      → ((get_client_for_tenant f kube rows tenant_id cache).0 ≡ cache)
        ⊎ ((cfg : Config Token) × (get_scope cfg.scope rows ≡ some cfg)
            × (get_client_for_tenant f kube rows tenant_id cache ≡ build_client f kube cfg cache))
  unfolding get_client_for_tenant
  get_client_for_tenant-cases rows tenant_id cache =
      elim (Option-cases (resolve_effective_config tenant_id rows)) [
        | inl missing ↦ inl (ground arith)
        | inr (cfg, found) ↦
            let in_force = resolve_effective_config-scope tenant_id rows cfg found in
            elim (Option-cases (find_client cfg.scope cache)) [
              | inl absent ↦ inr (cfg, in_force, ground arith)
              | inr (entry, held) ↦ elim (Bool-cases (entry.version == cfg.config_version)) [
                | inl same ↦ inl (ground arith)
                | inr other ↦ inr (cfg, in_force, ground arith)
              ]
            ]
      ]

  build_client-Coherent :
      (cfg : Config Token) (rows : List (Config Token)) (cache : List Cached)
      → get_scope cfg.scope rows ≡ some cfg
      → Coherent f kube rows cache
      → Coherent f kube rows ((build_client f kube cfg cache).0)
  build_client-Coherent cfg rows cache found coherent = elim (build_client-cases cfg cache) [
    | inl kept ↦ subst (Coherent f kube rows) (sym kept) coherent
    | inr (spec, built, changed) ↦
        subst (Coherent f kube rows) (sym changed)
          (keep_client-Coherent f kube cfg spec rows cache found built coherent)
  ]

  pub get_client_for_tenant-Coherent :
      (rows : List (Config Token)) (tenant_id : Option String) (cache : List Cached)
      → Coherent f kube rows cache
      → Coherent f kube rows ((get_client_for_tenant f kube rows tenant_id cache).0)
  get_client_for_tenant-Coherent rows tenant_id cache coherent =
      elim (get_client_for_tenant-cases rows tenant_id cache) [
        | inl kept ↦ subst (Coherent f kube rows) (sym kept) coherent
        | inr (cfg, found, built) ↦
            subst (Coherent f kube rows) (ap (λ (r : List Cached × Answer). r.0) (sym built))
              (build_client-Coherent cfg rows cache found coherent)
      ]

  pub get_client_for_tenant-fresh :
      (rows : List (Config Token)) (tenant_id : Option String) (cache : List Cached)
      → Coherent f kube rows cache
      → (get_client_for_tenant f kube rows tenant_id cache).1 ≡ fresh_answer f kube rows tenant_id
  unfolding get_client_for_tenant build_client
  get_client_for_tenant-fresh rows tenant_id cache coherent =
      elim (Option-cases (resolve_effective_config tenant_id rows)) [
        | inl missing ↦ ground arith
        | inr (cfg, found) ↦ elim (Option-cases (find_client cfg.scope cache)) [
          | inl absent ↦ ground arith
          | inr (entry, held) ↦ ground (
            arith,
            coherent cfg.scope entry held,
            resolve_effective_config-scope tenant_id rows cfg found,
          )
        ]
      ]
