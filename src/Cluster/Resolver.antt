-- ===== src/Cluster/Resolver.antt =====
-- backend/app/services/cluster/resolver.py: which cluster a tenant gets, and the clients that one
-- process keeps; with the construction of a client in backend/app/core/kubevirt_client.py. A client
-- is modelled by the specification that it is built from.
use shift_wise.Prelude.{
  ◌==◌, if◌then◌else◌, ℕ, Bool, false, ◌&&◌, not, Option, none, some, List, [], ◌∷◌,
}
use Prim.Native.String.{String}
use text.Mathlib.Text.{◌==◌ as str_eq}
use shift_wise.Cluster.Vault.{Fernet}
use shift_wise.Cluster.Config.{
  incluster, custom, kubeconfig, tenant, platform_default, decrypt_column, get_scope, scope_eq,
  Scope, Mode, Config,
}

-- `config_spec`
pub record Spec : Type 0 where
  pub mode : Mode
  pub kubeconfig_str : Option String
  pub api_url : Option String
  pub token : Option String
  pub verify_ssl : Bool

-- An entry of `_client_cache`.
pub record Cached : Type 0 where
  pub scope : Scope
  pub version : ℕ
  pub client : Spec

-- The loaders of the Kubernetes library that a client is built with: whether the process has the
-- account of a pod, and whether a kubeconfig, parsed, loads.
pub record Kube : Type 0 where
  pub load_incluster_config : Bool
  pub load_kube_config : String → Bool

abbrev pub is_given : Option String → Bool
is_given none = false
is_given (some s) = not (str_eq s "")

-- Whether `_load_from_spec` raises nothing.
unfoldable pub loads : Kube → Spec → Bool
loads kube spec = elim spec.mode [
  | incluster ↦ kube.load_incluster_config
  | custom ↦ is_given spec.api_url && is_given spec.token
  | kubeconfig ↦ elim spec.kubeconfig_str [
    | none ↦ false
    | some contents ↦ not (str_eq contents "") && kube.load_kube_config contents
  ]
]

-- What `get_client_for_tenant` answers: the client that the environment configures, a client of a
-- configuration, or the exception of a secret that cannot be decrypted or of a client that cannot be
-- built.
pub data Answer : Type 0 where
  env_bootstrap : Answer
  client_of : Spec → Answer
  undecryptable client_error : Answer

unfoldable pub find_client : Scope → List Cached → Option Cached
find_client scope [] = none
find_client scope (entry ∷ cache) =
    if scope_eq entry.scope scope then some entry else find_client scope cache

-- `_client_cache.pop(scope_key, None)`
unfoldable pub invalidate_scope : Scope → List Cached → List Cached
invalidate_scope scope [] = []
invalidate_scope scope (entry ∷ cache) =
    let rest = invalidate_scope scope cache in
    if scope_eq entry.scope scope then rest else entry ∷ rest

-- `_client_cache[scope_key] = (version, client)`
abbrev pub keep_client : Cached → List Cached → List Cached
keep_client entry cache = entry ∷ invalidate_scope entry.scope cache

module _ {C : Type 0} where
  unfoldable pub resolve_effective_config : Option String → List (Config C) → Option (Config C)
  resolve_effective_config none rows = get_scope platform_default rows
  resolve_effective_config (some tenant_id) rows =
      if str_eq tenant_id ""
      then get_scope platform_default rows
      else elim (get_scope (tenant tenant_id) rows) [
        | some row ↦ some row
        | none ↦ get_scope platform_default rows
      ]

module _ (f : Fernet) where
  open f use {Token}

  unfoldable pub spec_from_config : Config Token → Option Spec
  spec_from_config cfg = elim (decrypt_column f cfg.kubeconfig_ciphertext) [
    | none ↦ none
    | some contents ↦ elim (decrypt_column f cfg.token_ciphertext) [
      | none ↦ none
      | some token ↦ some (record {
        mode = cfg.mode;
        kubeconfig_str = contents;
        api_url = cfg.api_url;
        token = token;
        verify_ssl = cfg.verify_ssl;
      })
    ]
  ]

module _ (f : Fernet) (kube : Kube) where
  open f use {Token}

  -- `KubeVirtClient(config_spec=_spec_from_config(cfg))`
  abbrev pub client_from_config : Config Token → Answer
  client_from_config cfg = elim (spec_from_config f cfg) [
    | none ↦ undecryptable
    | some spec ↦ if loads kube spec then client_of spec else client_error
  ]

  -- The branch of `get_client_for_tenant` that builds a client and keeps it.
  unfoldable pub build_client : Config Token → List Cached → List Cached × Answer
  build_client cfg cache = elim (client_from_config cfg) [
    | client_of spec ↦ (
      keep_client (record { scope = cfg.scope; version = cfg.config_version; client = spec }) cache,
      client_of spec,
    )
    | error ↦ (cache, error)
  ]

  unfoldable pub get_client_for_tenant :
      List (Config Token) → Option String → List Cached → List Cached × Answer
  get_client_for_tenant rows tenant_id cache = elim (resolve_effective_config tenant_id rows) [
    | none ↦ (cache, env_bootstrap)
    | some cfg ↦ elim (find_client cfg.scope cache) [
      | none ↦ build_client cfg cache
      | some entry ↦
          if entry.version == cfg.config_version
          then (cache, client_of entry.client)
          else build_client cfg cache
    ]
  ]

  -- Without a cache: the client of the configuration that is in force, or its exception.
  abbrev pub fresh_answer : List (Config Token) → Option String → Answer
  fresh_answer rows tenant_id = elim (resolve_effective_config tenant_id rows) [
    | none ↦ env_bootstrap
    | some cfg ↦ client_from_config cfg
  ]
