-- ===== src/Cluster/Delivery.antt =====
-- From the secret that a user gives to the client that the tenant is served.
use Prim.Native.String.{String}
use text.Mathlib.Text.{◌==◌ as str_eq}
use shift_wise.Prelude.{
  if◌then◌else◌, ℕ, ◌≡◌, refl, sym, ap, subst, Bool, true, false, Option, none, some, List, arith,
}
use shift_wise.Cluster.Kubeconfig.{Bytes, Parser}
use shift_wise.Cluster.Vault.{Fernet, encrypt, decrypt, decrypt-encrypt}
use shift_wise.Cluster.Config.{
  Scope, Config, Db, Upsert, tenant, custom, kubeconfig, upsert, store_kubeconfig, kubeconfig_row,
  get_scope, bump, apply_mode_payload, get_or_create_row,
}
use shift_wise.Cluster.Resolver.{
  Kube, Answer, client_error, client_from_config, loads, is_given, client_from_config, Answer, Kube,
  Spec, Cached, client_of, get_client_for_tenant, build_client, resolve_effective_config,
  invalidate_scope, spec_from_config,
}
use shift_wise.Cluster.Coherence.{get_scope-put_row, scope_eq_self, find_client-invalidate_scope}
use shift_wise.Cluster.Endpoints.{
  accepts_kubeconfig, Site, Process, User, upload, put_config, client, handle, authorized,
  upload_kubeconfig, upsert_scope_config, answered,
}

-- The configuration of a file, and that of an address with a token.
abbrev pub kubeconfig_of : String → Bool → Spec
kubeconfig_of contents verify_ssl = record {
  mode = kubeconfig;
  kubeconfig_str = some contents;
  api_url = none;
  token = none;
  verify_ssl = verify_ssl;
}

abbrev pub custom_of : Option String → String → Bool → Spec
custom_of api_url token verify_ssl = record {
  mode = custom;
  kubeconfig_str = none;
  api_url = api_url;
  token = some token;
  verify_ssl = verify_ssl;
}

module _ (f : Fernet) where
  open f use {Token}

  encrypt-some :
      (nonce : ℕ) (text : String)
      → str_eq text "" ≡ false
      → (c : Token) × (encrypt f nonce text ≡ some c) × (decrypt f c ≡ some text)
  unfolding encrypt
  encrypt-some nonce text filled =
      let c = Fernet.encrypt_bytes f nonce text in
      (c, ground arith, decrypt-encrypt f nonce text c (ground arith))

  built_client-answer :
      (kube : Kube) (rows : List (Config Token)) (t : String) (cache : List Cached)
      (row : Config Token) (answer : Answer)
      → str_eq t "" ≡ false
      → get_scope (tenant t) rows ≡ some row
      → row.scope ≡ tenant t
      → client_from_config f kube row ≡ answer
      → (get_client_for_tenant f kube rows (some t) (invalidate_scope (tenant t) cache)).1 ≡ answer
  unfolding get_client_for_tenant resolve_effective_config build_client
  built_client-answer kube rows t cache row answer named found same built =
      ground
        (arith, find_client-invalidate_scope (tenant t) (tenant t) cache, scope_eq_self (tenant t))

  served :
      (kube : Kube) (q : Process f) (db : Db Token) (t : String) (cache : List Cached)
      (row : Config Token) (answer : Answer)
      → str_eq t "" ≡ false
      → q ≡ record { db = db; cache = invalidate_scope (tenant t) cache }
      → get_scope (tenant t) db.configs ≡ some row
      → row.scope ≡ tenant t
      → client_from_config f kube row ≡ answer
      → (get_client_for_tenant f kube q.db.configs (some t) q.cache).1 ≡ answer
  served kube q db t cache row answer named becomes found same built =
      subst
        (λ (q : Process f). (get_client_for_tenant f kube q.db.configs (some t) q.cache).1 ≡ answer)
        (sym becomes)
        (built_client-answer kube db.configs t cache row answer named found same built)

  upload_kubeconfig-writes :
      (site : Site) (nonce : ℕ) (user : User) (scope : Scope) (raw : Bytes) (contents : String)
      (p : Process f) (c : Token)
      → authorized scope user ≡ true
      → accepts_kubeconfig site raw ≡ true
      → Parser.decode_utf8 site.parser raw ≡ some contents
      → encrypt f nonce contents ≡ some c
      → (upload_kubeconfig f site nonce user scope raw p).0 ≡ record {
        db = store_kubeconfig f scope (some user.id) none p.db c;
        cache = invalidate_scope scope p.cache;
      }
  unfolding upload_kubeconfig
  upload_kubeconfig-writes site nonce user scope raw contents p c may accepted decoded sealed =
      ground arith

  kubeconfig_spec :
      (scope : Scope) (actor : Option ℕ) (db : Db Token) (c : Token) (contents : String)
      → decrypt f c ≡ some contents
      → (row : Config Token) × (get_scope scope (store_kubeconfig f scope actor none db c).configs
          ≡ some row)
        × (row.scope ≡ scope)
        × (spec_from_config f row
            ≡ some (kubeconfig_of contents (get_or_create_row scope db.configs).verify_ssl))
  unfolding store_kubeconfig spec_from_config
  kubeconfig_spec scope actor db c contents opened =
      let row = bump f actor (kubeconfig_row f none c (get_or_create_row scope db.configs)) in
      (
        row,
        ground (arith, get_scope-put_row row scope db.configs, scope_eq_self scope),
        refl,
        ground arith,
      )

  upsert_scope_config-writes_custom :
      (site : Site) (nonce : ℕ) (user : User) (scope : Scope) (payload : Upsert) (p : Process f)
      → authorized scope user ≡ true
      → payload.mode ≡ custom
      → (upsert_scope_config f site nonce user scope payload p).0 ≡ record {
        db = upsert f nonce scope payload (some user.id) p.db;
        cache = invalidate_scope scope p.cache;
      }
  unfolding upsert_scope_config
  upsert_scope_config-writes_custom site nonce user scope payload p may mode = ground arith

  custom_spec :
      (nonce : ℕ) (scope : Scope) (payload : Upsert) (actor : Option ℕ) (db : Db Token)
      (token : String) (c : Token)
      → payload.mode ≡ custom
      → payload.token ≡ some token
      → encrypt f nonce token ≡ some c
      → decrypt f c ≡ some token
      → (row : Config Token) × (get_scope scope (upsert f nonce scope payload actor db).configs
          ≡ some row)
        × (row.scope ≡ scope)
        × (spec_from_config f row ≡ some (custom_of payload.api_url token payload.verify_ssl))
  unfolding upsert apply_mode_payload spec_from_config
  custom_spec nonce scope payload actor db token c mode given sealed opened =
      let row =
        bump f actor (apply_mode_payload f nonce payload (get_or_create_row scope db.configs)) in
      (
        row,
        ground (arith, get_scope-put_row row scope db.configs, scope_eq_self scope),
        ground arith,
        ground arith,
      )

  -- What the loaders make of the configuration of a file, and of one with an address and a token.
  kubeconfig_client :
      (kube : Kube) (row : Config Token) (contents : String) (verify_ssl : Bool)
      → str_eq contents "" ≡ false
      → spec_from_config f row ≡ some (kubeconfig_of contents verify_ssl)
      → client_from_config f kube row ≡ (
          if kube.load_kube_config contents
          then client_of (kubeconfig_of contents verify_ssl)
          else client_error)
  unfolding loads
  kubeconfig_client kube row contents verify_ssl filled opened = ground arith

  custom_client :
      (kube : Kube) (row : Config Token) (api_url : Option String) (token : String)
      (verify_ssl : Bool)
      → str_eq token "" ≡ false
      → spec_from_config f row ≡ some (custom_of api_url token verify_ssl)
      → client_from_config f kube row ≡ (
          if is_given api_url then client_of (custom_of api_url token verify_ssl) else client_error)
  unfolding loads
  custom_client kube row api_url token verify_ssl filled opened = ground arith

  -- A tenant whose file a user who may write its configuration uploads, accepted by the validation
  -- and a text in UTF-8 that is not empty, is served by that process the client of exactly this file
  -- when the Kubernetes library loads it, whatever client or configuration it had before; when the
  -- library does not, it is served no client but the error.
  pub upload-client :
      (site : Site) (nonce : ℕ) (user : User) (t : String) (raw : Bytes) (contents : String)
      (p : Process f)
      → authorized (tenant t) user ≡ true
      → accepts_kubeconfig site raw ≡ true
      → Parser.decode_utf8 site.parser raw ≡ some contents
      → str_eq contents "" ≡ false
      → str_eq t "" ≡ false
      → (handle f site (client (some t)) ((handle f site (upload nonce user (tenant t) raw) p).0)).1
        ≡ answered (
            if Kube.load_kube_config site.kube contents
            then client_of
                (kubeconfig_of contents (get_or_create_row (tenant t) p.db.configs).verify_ssl)
            else client_error)
  unfolding handle upload_kubeconfig
  upload-client site nonce user t raw contents p may accepted decoded filled named =
      let (c, sealed, opened) = encrypt-some nonce contents filled in
      let (row, found, same, built) =
        kubeconfig_spec (tenant t) (some user.id) p.db c contents opened in
      ap answered (
        served site.kube _ _ t p.cache row _ named
          (upload_kubeconfig-writes site nonce user (tenant t) raw contents p c may accepted decoded
            sealed)
          found same (kubeconfig_client site.kube row contents _ filled built))

  -- A tenant for which such a user puts a custom configuration with a token, not empty, is served
  -- by that process the client of exactly this address and token, or the error when the address is
  -- missing or empty.
  pub put_config-client :
      (site : Site) (nonce : ℕ) (user : User) (t token : String) (payload : Upsert) (p : Process f)
      → authorized (tenant t) user ≡ true
      → payload.mode ≡ custom
      → payload.token ≡ some token
      → str_eq token "" ≡ false
      → str_eq t "" ≡ false
      → (handle f site
          (client (some t))
          ((handle f site (put_config nonce user (tenant t) payload) p).0)).1
        ≡ answered (
            if is_given payload.api_url
            then client_of (custom_of payload.api_url token payload.verify_ssl)
            else client_error)
  unfolding handle upsert_scope_config
  put_config-client site nonce user t token payload p may mode given filled named =
      let (c, sealed, opened) = encrypt-some nonce token filled in
      let (row, found, same, built) =
        custom_spec nonce (tenant t) payload (some user.id) p.db token c mode given sealed opened in
      ap answered (
        served site.kube _ _ t p.cache row _ named
          (upsert_scope_config-writes_custom site nonce user (tenant t) payload p may mode) found
          same (custom_client site.kube row payload.api_url token payload.verify_ssl filled built))
