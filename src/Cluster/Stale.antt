-- ===== src/Cluster/Stale.antt =====
-- A client that outlives the configuration that it was built from.
use Prim.Native.String.{String}
use text.Mathlib.Text.{◌==◌ as str_eq}
use shift_wise.Prelude.{
  ℕ, ◌≡◌, sym, ap, subst, true, false, Option, none, some, List, [], ◌∷◌, arith,
}
use shift_wise.Cluster.Vault.{Fernet}
use shift_wise.Cluster.Config.{
  Scope, Config, Db, Upsert, tenant, upsert, delete_tenant_override, drop_row, get_scope, bump,
  apply_mode_payload, get_or_create_row,
}
use shift_wise.Cluster.Resolver.{
  Kube, Cached, get_client_for_tenant, resolve_effective_config, find_client, client_of,
}
use shift_wise.Cluster.Coherence.{get_scope-put_row, scope_eq_self}
use shift_wise.Cluster.Serving.{apply_mode_payload-scope}
use shift_wise.Cluster.Endpoints.{
  answered, Site, Process, User, put_config, delete_config, client, handle, authorized,
  mode_applicable, upsert_scope_config, delete_scope_config,
}
use shift_wise.Cluster.Refinement.{elsewhere, run_events}

module _ (f : Fernet) where
  open f use {Token}

  upsert-first :
      (nonce : ℕ) (scope : Scope) (payload : Upsert) (actor : Option ℕ) (db : Db Token)
      → get_scope scope db.configs ≡ none
      → (row : Config Token) × (get_scope scope (upsert f nonce scope payload actor db).configs
          ≡ some row)
        × (row.scope ≡ scope)
        × (row.config_version ≡ 1)
  unfolding upsert
  upsert-first nonce scope payload actor db absent =
      let old = get_or_create_row scope db.configs in
      let row = bump f actor (apply_mode_payload f nonce payload old) in
      let (same, version) = apply_mode_payload-scope f nonce payload old in
      (
        row,
        ground (arith, get_scope-put_row row scope db.configs, scope_eq_self scope),
        same,
        ground arith,
      )

  kept_client-answer :
      (kube : Kube) (rows : List (Config Token)) (t : String) (cache : List Cached) (entry : Cached)
      (row : Config Token)
      → str_eq t "" ≡ false
      → get_scope (tenant t) rows ≡ some row
      → row.scope ≡ tenant t
      → find_client (tenant t) cache ≡ some entry
      → entry.version ≡ row.config_version
      → (get_client_for_tenant f kube rows (some t) cache).1 ≡ client_of entry.client
  unfolding get_client_for_tenant resolve_effective_config
  kept_client-answer kube rows t cache entry row named found same kept version = ground arith

  delete_scope_config-drops :
      (user : User) (t : String) (p : Process f) (cfg : Config Token)
      → authorized (tenant t) user ≡ true
      → get_scope (tenant t) p.db.configs ≡ some cfg
      → (delete_scope_config f user (tenant t) p).0.db.configs ≡ drop_row (tenant t) p.db.configs
  unfolding delete_scope_config delete_tenant_override
  delete_scope_config-drops user t p cfg may old = ground arith

  upsert_scope_config-writes :
      (site : Site) (nonce : ℕ) (user : User) (scope : Scope) (payload : Upsert) (p : Process f)
      → authorized scope user ≡ true
      → mode_applicable site scope payload.mode ≡ true
      → (upsert_scope_config f site nonce user scope payload p).0.db
        ≡ upsert f nonce scope payload (some user.id) p.db
  unfolding upsert_scope_config
  upsert_scope_config-writes site nonce user scope payload p may applies = ground arith

  -- When another process clears the override of a tenant and then writes a new one, whatever it
  -- says, a process that kept a client of version 1 answers with that client: the version of the
  -- new row starts at 1 again. The tenant has one row, its user may write it, and the mode applies.
  pub run_events-stale :
      (site : Site) (nonce : ℕ) (user : User) (t : String) (payload : Upsert) (c d : List Cached)
      (p : Process f) (entry : Cached) (cfg : Config Token)
      → authorized (tenant t) user ≡ true
      → mode_applicable site (tenant t) payload.mode ≡ true
      → str_eq t "" ≡ false
      → find_client (tenant t) p.cache ≡ some entry
      → entry.version ≡ 1
      → get_scope (tenant t) p.db.configs ≡ some cfg
      → get_scope (tenant t) (drop_row (tenant t) p.db.configs) ≡ none
      → (handle f site (client (some t)) (
          run_events f site
            (elsewhere (delete_config user (tenant t)) c
              ∷ elsewhere (put_config nonce user (tenant t) payload) d
              ∷ [])
            p)).1
        ≡ answered (client_of entry.client)
  unfolding run_events handle
  run_events-stale site nonce user t payload c d p entry cfg may applies named kept first old
        alone =
      let q : Process f = record { db = p.db; cache = c } in
      let cleared : Process f = record {
        db = (delete_scope_config f user (tenant t) q).0.db;
        cache = d;
      } in
      let gone : get_scope (tenant t) cleared.db.configs ≡ none =
        subst (λ rows. get_scope (tenant t) rows ≡ none)
          (sym (delete_scope_config-drops user t q cfg may old)) alone in
      let (row, found, same, version) =
        upsert-first nonce (tenant t) payload (some user.id) cleared.db gone in
      let written =
        upsert_scope_config-writes site nonce user (tenant t) payload cleared may applies in
      ap answered (
        kept_client-answer site.kube _ t p.cache entry row named
          (subst (λ (db : Db Token). get_scope (tenant t) db.configs ≡ some row) (sym written)
            found)
          same kept (ground arith))
