-- ===== src/Cluster/Config.antt =====
-- backend/app/crud/cluster_config.py, over the two tables of configurations and of their audit
-- events. The columns `scope_type` and `tenant_id`, which a check constraint of
-- backend/app/models/cluster_config.py ties together, are one `Scope`.
use shift_wise.Prelude.{
  if◌then◌else◌, or_else, map_option, ◌>>=◌, ℕ, ◌+◌, Bool, true, false, Option, none, some, List,
  [], ◌∷◌, ◌++◌,
}
use Prim.Native.String.{String}
use text.Mathlib.Text.{◌==◌ as str_eq}
use shift_wise.Cluster.Kubeconfig.{Bytes, Parser}
use shift_wise.Cluster.Vault.{Fernet, encrypt, decrypt}

pub data Scope : Type 0 where
  platform_default : Scope
  tenant : String → Scope

pub data Mode : Type 0 where
  kubeconfig incluster custom : Mode

pub data Health : Type 0 where
  healthy degraded unreachable auth_failed invalid unknown : Health

-- `scope_key` of two rows agrees.
abbrev pub scope_eq : Scope → Scope → Bool
scope_eq platform_default platform_default = true
scope_eq platform_default (tenant t) = false
scope_eq (tenant s) platform_default = false
scope_eq (tenant s) (tenant t) = str_eq s t

pub record Config (C : Type 0) : Type 0 where
  pub scope : Scope
  pub mode : Mode
  pub kubeconfig_ciphertext : Option C
  pub api_url : Option String
  pub token_ciphertext : Option C
  pub verify_ssl : Bool
  pub default_namespace : String
  pub config_version : ℕ
  pub health_status : Health
  pub health_reason : Option String
  pub updated_by_user_id : Option ℕ

pub record ConfigEvent : Type 0 where
  pub scope : Scope
  pub actor_user_id : Option ℕ
  pub target_mode : Option Mode
  pub outcome : String

pub record Db (C : Type 0) : Type 0 where
  pub configs : List (Config C)
  pub events : List ConfigEvent

-- `ClusterConfigUpsert`
pub record Upsert : Type 0 where
  pub mode : Mode
  pub api_url : Option String
  pub token : Option String
  pub verify_ssl : Bool
  pub default_namespace : String

module _ {C : Type 0} where
  -- `get_platform_default`, `get_tenant_config` and `get_scope`.
  unfoldable pub get_scope : Scope → List (Config C) → Option (Config C)
  get_scope scope [] = none
  get_scope scope (row ∷ rows) = if scope_eq row.scope scope then some row else get_scope scope rows

  -- The row that `get_scope` finds is written, or else `row` is added.
  unfoldable pub put_row : Config C → List (Config C) → List (Config C)
  put_row row [] = row ∷ []
  put_row row (r ∷ rows) = if scope_eq r.scope row.scope then row ∷ rows else r ∷ put_row row rows

  unfoldable pub drop_row : Scope → List (Config C) → List (Config C)
  drop_row scope [] = []
  drop_row scope (r ∷ rows) = if scope_eq r.scope scope then rows else r ∷ drop_row scope rows

  abbrev new_row : Scope → Config C
  new_row scope = record {
    scope = scope;
    mode = kubeconfig;
    kubeconfig_ciphertext = none;
    api_url = none;
    token_ciphertext = none;
    verify_ssl = false;
    default_namespace = "default";
    config_version = 0;
    health_status = unknown;
    health_reason = none;
    updated_by_user_id = none;
  }

  -- `_get_or_create_row`, with the key of the scope asked for.
  abbrev pub get_or_create_row : Scope → List (Config C) → Config C
  get_or_create_row scope rows = record (or_else (get_scope scope rows) (new_row scope)) {
    scope = scope;
  }

  abbrev pub emit_event : Scope → Option ℕ → Option Mode → Db C → Db C
  emit_event scope actor_user_id target_mode db = record db {
    events =
        db.events
        ++ record {
          scope = scope;
          actor_user_id = actor_user_id;
          target_mode = target_mode;
          outcome = "applied";
        }
          ∷ [];
  }

  unfoldable pub delete_tenant_override : String → Option ℕ → Db C → Db C × Bool
  delete_tenant_override tenant_id actor_user_id db =
      elim (get_scope (tenant tenant_id) db.configs) [
        | none ↦ (db, false)
        | some row ↦ (
          emit_event (tenant tenant_id) actor_user_id none
              (record db { configs = drop_row (tenant tenant_id) db.configs }),
          true,
        )
      ]

  -- `record_health` on the row of a scope that was read before.
  unfoldable pub record_health : Config C → Health → Option String → Db C → Db C
  record_health cfg status reason db = record db {
    configs = put_row (record cfg { health_status = status; health_reason = reason }) db.configs;
  }

-- `if default_namespace:`
abbrev named_or : String → Option String → String
named_or stored none = stored
named_or stored (some namespace) = if str_eq namespace "" then stored else namespace

module _ (f : Fernet) where
  open f use {Token}

  -- `_apply_mode_payload`; a token that is missing keeps the one stored.
  unfoldable pub apply_mode_payload : ℕ → Upsert → Config Token → Config Token
  apply_mode_payload nonce request row = elim request.mode [
    | custom ↦ record row {
      mode = custom;
      default_namespace = request.default_namespace;
      verify_ssl = request.verify_ssl;
      api_url = request.api_url;
      token_ciphertext = elim request.token [
        | none ↦ row.token_ciphertext
        | some token ↦ elim (encrypt f nonce token) [
          | none ↦ row.token_ciphertext
          | some ciphertext ↦ some ciphertext
        ]
      ];
      kubeconfig_ciphertext = none;
    }
    | kubeconfig ↦ record row {
      mode = kubeconfig;
      default_namespace = request.default_namespace;
      verify_ssl = request.verify_ssl;
      api_url = none;
      token_ciphertext = none;
    }
    | incluster ↦ record row {
      mode = incluster;
      default_namespace = request.default_namespace;
      verify_ssl = request.verify_ssl;
      api_url = none;
      token_ciphertext = none;
      kubeconfig_ciphertext = none;
    }
  ]

  abbrev pub bump : Option ℕ → Config Token → Config Token
  bump actor_user_id row = record row {
    config_version = row.config_version + 1;
    updated_by_user_id = actor_user_id;
    health_status = unknown;
  }

  unfoldable pub upsert : ℕ → Scope → Upsert → Option ℕ → Db Token → Db Token
  upsert nonce scope request actor_user_id db =
      let row = apply_mode_payload nonce request (get_or_create_row scope db.configs) in
      emit_event scope actor_user_id (some request.mode)
        (record db { configs = put_row (bump actor_user_id row) db.configs })

  abbrev pub kubeconfig_row : Option String → Token → Config Token → Config Token
  kubeconfig_row default_namespace ciphertext row = record row {
    mode = kubeconfig;
    kubeconfig_ciphertext = some ciphertext;
    api_url = none;
    token_ciphertext = none;
    default_namespace = named_or row.default_namespace default_namespace;
  }

  -- What `set_kubeconfig` does with the file once it is encrypted.
  unfoldable pub store_kubeconfig : Scope → Option ℕ → Option String → Db Token → Token → Db Token
  store_kubeconfig scope actor_user_id default_namespace db ciphertext =
      let row = kubeconfig_row default_namespace ciphertext (get_or_create_row scope db.configs) in
      emit_event scope actor_user_id (some kubeconfig)
        (record db { configs = put_row (bump actor_user_id row) db.configs })

  -- `none` is the `UnicodeDecodeError` of the file, or the `ValueError` of the vault on an empty one.
  abbrev pub set_kubeconfig :
      Parser → ℕ → Scope → Bytes → Option ℕ → Option String → Db Token → Option (Db Token)
  set_kubeconfig parser nonce scope raw_bytes actor_user_id default_namespace db =
      Parser.decode_utf8 parser raw_bytes >>= (λ (contents : String).
        map_option (store_kubeconfig scope actor_user_id default_namespace db)
          (encrypt f nonce contents))

  -- `decrypt_kubeconfig` and `decrypt_token` on their column; the outer `none` is `InvalidToken`.
  abbrev pub decrypt_column : Option Token → Option (Option String)
  decrypt_column none = some none
  decrypt_column (some c) = map_option some (decrypt f c)
