-- ===== src/Cluster/Changes.antt =====
-- What the handlers of backend/app/api/v1/infrastructure.py can make of a process.
use Prim.Native.String.{String}
use shift_wise.Prelude.{Bool-cases, Option-cases, ℕ, ◌≡◌, ◌⊎◌, inl, inr, Option, none, some, arith}
use shift_wise.Cluster.Kubeconfig.{Bytes, Parser}
use shift_wise.Cluster.Vault.{Fernet, encrypt}
use shift_wise.Cluster.Config.{
  record_health, Health, Scope, Config, Upsert, tenant, platform_default, upsert, store_kubeconfig,
  delete_tenant_override, drop_row, get_scope,
}
use shift_wise.Cluster.Resolver.{spec_from_config, invalidate_scope}
use shift_wise.Cluster.Handlers.{tested_config-scope}
use shift_wise.Cluster.Endpoints.{
  accepts_kubeconfig, Site, Process, User, test_config, handle, authorized, mode_applicable,
  tested_config, upsert_scope_config, upload_kubeconfig, run_connection_test, delete_scope_config,
}

module _ (f : Fernet) (site : Site) where
  open f use {Token}

  pub upsert_scope_config-cases :
      (nonce : ℕ) (user : User) (scope : Scope) (payload : Upsert) (p : Process f)
      → ((upsert_scope_config f site nonce user scope payload p).0 ≡ p)
        ⊎ ((upsert_scope_config f site nonce user scope payload p).0 ≡ record {
          db = upsert f nonce scope payload (some user.id) p.db;
          cache = invalidate_scope scope p.cache;
        })
  unfolding upsert_scope_config
  upsert_scope_config-cases nonce user scope payload p = elim (Bool-cases (authorized scope user)) [
    | inr refused ↦ inl (ground arith)
    | inl allowed ↦ elim (Bool-cases (mode_applicable site scope payload.mode)) [
      | inr refused ↦ inl (ground arith)
      | inl applicable ↦ inr (ground arith)
    ]
  ]

  pub upload_kubeconfig-cases :
      (nonce : ℕ) (user : User) (scope : Scope) (contents : Bytes) (p : Process f)
      → ((upload_kubeconfig f site nonce user scope contents p).0 ≡ p)
        ⊎ ((c : Token) × ((upload_kubeconfig f site nonce user scope contents p).0 ≡ record {
          db = store_kubeconfig f scope (some user.id) none p.db c;
          cache = invalidate_scope scope p.cache;
        }))
  unfolding upload_kubeconfig
  upload_kubeconfig-cases nonce user scope contents p = elim (Bool-cases (authorized scope user)) [
    | inr refused ↦ inl (ground arith)
    | inl allowed ↦ elim (Bool-cases (accepts_kubeconfig site contents)) [
      | inr refused ↦ inl (ground arith)
      | inl accepted ↦ elim (Option-cases (Parser.decode_utf8 site.parser contents)) [
        | inl broken ↦ inl (ground arith)
        | inr (text, decoded) ↦ elim (Option-cases (encrypt f nonce text)) [
          | inl empty ↦ inl (ground arith)
          | inr (c, sealed) ↦ inr (c, ground arith)
        ]
      ]
    ]
  ]

  pub delete_scope_config-cases :
      (user : User) (scope : Scope) (p : Process f)
      → ((delete_scope_config f user scope p).0 ≡ p)
        ⊎ (((delete_scope_config f user scope p).0.db.configs ≡ p.db.configs)
            × ((delete_scope_config f user scope p).0.cache ≡ invalidate_scope scope p.cache))
        ⊎ (((delete_scope_config f user scope p).0.db.configs ≡ drop_row scope p.db.configs)
            × ((delete_scope_config f user scope p).0.cache ≡ invalidate_scope scope p.cache))
  unfolding delete_scope_config delete_tenant_override
  delete_scope_config-cases user platform_default p = inl (ground arith)
  delete_scope_config-cases user (tenant t) p = elim (Bool-cases (authorized (tenant t) user)) [
    | inr refused ↦ inl (ground arith)
    | inl allowed ↦ elim (Option-cases (get_scope (tenant t) p.db.configs)) [
      | inl missing ↦ inr (inl (ground arith, ground arith))
      | inr (row, found) ↦ inr (inr (ground arith, ground arith))
    ]
  ]

  pub run_connection_test-cases :
      (user : User) (scope : Scope) (p : Process f)
      → ((handle f site (test_config user scope) p).0 ≡ p)
        ⊎ ((cfg : Config Token) × (status : Health) × (reason : Option String) × (get_scope
                cfg.scope p.db.configs
              ≡ some cfg)
            × ((handle f site (test_config user scope) p).0
                ≡ record p { db = record_health cfg status reason p.db }))
  unfolding handle run_connection_test
  run_connection_test-cases user scope p = elim (Bool-cases (authorized scope user)) [
    | inr refused ↦ inl (ground arith)
    | inl allowed ↦ elim (Option-cases (tested_config f scope p.db.configs)) [
      | inl missing ↦ inl (ground arith)
      | inr (cfg, found) ↦ inr (
        cfg,
        (site.probe (spec_from_config f cfg)).0,
        (site.probe (spec_from_config f cfg)).1,
        tested_config-scope f site.kube scope p.db.configs cfg found,
        ground arith,
      )
    ]
  ]
