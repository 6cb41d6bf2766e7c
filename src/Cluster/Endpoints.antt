-- ===== src/Cluster/Endpoints.antt =====
-- backend/app/api/v1/infrastructure.py, the handlers that read or change a configuration, with
-- `run_connection_test` of backend/app/services/cluster/resolver.py. The path parameter is modelled
-- by the scope that `_parse_scope` reads in it. The cluster that a probe meets and the environment
-- of the process are parameters.
use shift_wise.Prelude.{if◌then◌else◌, ℕ, Bool, true, false, ◌||◌, not, Option, none, some, List}
use Prim.Native.String.{String}
use text.Mathlib.Text.{◌==◌ as str_eq}
use shift_wise.Cluster.Vault.{Fernet}
use shift_wise.Cluster.Kubeconfig.{
  Bytes, Parser, Check, accepted, too_large, crash, validate_kubeconfig_bytes,
}
use shift_wise.Cluster.Config.{
  platform_default, tenant, kubeconfig, incluster, custom, Scope, Mode, Health, Config, Db, Upsert,
  get_scope, record_health, delete_tenant_override, upsert, set_kubeconfig,
}
use shift_wise.Cluster.Resolver.{
  Kube, Spec, Cached, Answer, spec_from_config, get_client_for_tenant, invalidate_scope,
}

pub record User : Type 0 where
  pub id : ℕ
  pub tenant_id : String
  pub is_superuser : Bool

-- The status of a response.
pub data Response : Type 0 where
  done forbidden_scope kubeconfig_too_large invalid_kubeconfig mode_not_applicable
        cannot_delete_default no_config :
      Response
  internal_error : Response
  answered : Answer → Response

-- What the handlers of one process read and write.
pub record Process (f : Fernet) : Type 0 where
  pub db : Db (Fernet.Token f)
  pub cache : List Cached

pub data Request : Type 0 where
  put_config : ℕ → User → Scope → Upsert → Request
  upload : ℕ → User → Scope → Bytes → Request
  delete_config : User → Scope → Request
  test_config : User → Scope → Request
  client : Option String → Request

-- What surrounds a process.
pub record Site : Type 0 where
  pub in_cluster : Bool
  pub parser : Parser
  pub kube : Kube
  pub max_bytes : ℕ
  pub probe : Option Spec → Health × Option String

abbrev is_accepted : Check → Bool
is_accepted accepted = true
is_accepted _ = false

-- Whether `validate_kubeconfig_bytes` raises nothing.
abbrev pub accepts_kubeconfig : Site → Bytes → Bool
accepts_kubeconfig site raw = is_accepted (validate_kubeconfig_bytes site.parser site.max_bytes raw)

abbrev refusal : Check → Response
refusal too_large = kubeconfig_too_large
refusal crash = internal_error
refusal _ = invalid_kubeconfig

-- `_resolve_and_authorize_scope`
abbrev pub authorized : Scope → User → Bool
authorized platform_default user = user.is_superuser
authorized (tenant tenant_id) user = user.is_superuser || str_eq tenant_id user.tenant_id

-- `assert_mode_applicable`
abbrev pub mode_applicable : Site → Scope → Mode → Bool
mode_applicable site scope kubeconfig = true
mode_applicable site scope custom = true
mode_applicable site platform_default incluster = site.in_cluster
mode_applicable site (tenant t) incluster = false

module _ (f : Fernet) where
  open f use {Token}

  unfoldable pub upload_kubeconfig :
      Site → ℕ → User → Scope → Bytes → Process f → Process f × Response
  upload_kubeconfig site nonce user scope contents p =
      if not (authorized scope user)
      then (p, forbidden_scope)
      else if not (accepts_kubeconfig site contents)
      then (p, refusal (validate_kubeconfig_bytes site.parser site.max_bytes contents))
      else elim (set_kubeconfig f site.parser nonce scope contents (some user.id) none p.db) [
        | none ↦ (p, internal_error)
        | some db ↦ (record { db = db; cache = invalidate_scope scope p.cache }, done)
      ]

  unfoldable pub upsert_scope_config :
      Site → ℕ → User → Scope → Upsert → Process f → Process f × Response
  upsert_scope_config site nonce user scope payload p =
      if not (authorized scope user)
      then (p, forbidden_scope)
      else if not (mode_applicable site scope payload.mode)
      then (p, mode_not_applicable)
      else (
        record {
          db = upsert f nonce scope payload (some user.id) p.db;
          cache = invalidate_scope scope p.cache;
        },
        done,
      )

  unfoldable pub delete_scope_config : User → Scope → Process f → Process f × Response
  delete_scope_config user scope p =
      if not (authorized scope user) then (p, forbidden_scope) else elim scope [
        | platform_default ↦ (p, cannot_delete_default)
        | tenant tenant_id ↦ (
          record {
            db = (delete_tenant_override tenant_id (some user.id) p.db).0;
            cache = invalidate_scope (tenant tenant_id) p.cache;
          },
          done,
        )
      ]

  -- The row that `run_connection_test` probes.
  unfoldable pub tested_config : Scope → List (Config Token) → Option (Config Token)
  tested_config platform_default rows = get_scope platform_default rows
  tested_config (tenant t) rows = elim (get_scope (tenant t) rows) [
    | some cfg ↦ some cfg
    | none ↦ get_scope platform_default rows
  ]

  unfoldable pub run_connection_test : Site → Scope → Process f → Process f × Response
  run_connection_test site scope p = elim (tested_config scope p.db.configs) [
    | none ↦ (p, no_config)
    | some cfg ↦
        let result = site.probe (spec_from_config f cfg) in
        (record p { db = record_health cfg (result.0) (result.1) p.db }, done)
  ]

  unfoldable pub handle : Site → Request → Process f → Process f × Response
  handle site (put_config nonce user scope payload) p =
      upsert_scope_config site nonce user scope payload p
  handle site (upload nonce user scope contents) p =
      upload_kubeconfig site nonce user scope contents p
  handle site (delete_config user scope) p = delete_scope_config user scope p
  handle site (test_config user scope) p =
      if not (authorized scope user) then (p, forbidden_scope) else run_connection_test site scope p
  handle site (client tenant_id) p =
      let r = get_client_for_tenant f site.kube p.db.configs tenant_id p.cache in
      (record p { cache = r.0 }, answered (r.1))
