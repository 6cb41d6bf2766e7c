-- ===== src/Cluster/Refinement.antt =====
-- The clients that a process serves, over the requests that it and the other processes handle.
use Prim.Native.String.{String}
use shift_wise.Prelude.{
  all, ◌≡◌, sym, ap, subst, inl, inr, Bool, true, false, not, Option, none, some, List, [], ◌∷◌,
  arith,
}
use shift_wise.Cluster.Vault.{Fernet}
use shift_wise.Cluster.Config.{Config, Db}
use shift_wise.Cluster.Resolver.{Cached, fresh_answer}
use shift_wise.Cluster.Serving.{
  empty-Coherent, Coherent, invalidate_scope-Coherent, drop_row-Coherent,
}
use shift_wise.Cluster.Handlers.{
  upsert-Coherent, store_kubeconfig-Coherent, record_health-Coherent,
  get_client_for_tenant-Coherent, get_client_for_tenant-fresh,
}
use shift_wise.Cluster.Endpoints.{
  answered, Site, Process, Request, put_config, upload, delete_config, test_config, client, handle,
}
use shift_wise.Cluster.Changes.{
  upsert_scope_config-cases, upload_kubeconfig-cases, delete_scope_config-cases,
  run_connection_test-cases,
}

-- A request that this process handles, or one that another process does, with its own cache.
pub data Event : Type 0 where
  here : Request → Event
  elsewhere : Request → List Cached → Event

abbrev pub clears : Request → Bool
clears (delete_config user scope) = true
clears r = false

-- No override is cleared by another process.
abbrev pub clears_here : Event → Bool
clears_here (here r) = true
clears_here (elsewhere r cache) = not (clears r)

module _ (f : Fernet) (site : Site) where
  open f use {Token}

  unfoldable pub run_events : List Event → Process f → Process f
  run_events [] p = p
  run_events (here r ∷ events) p = run_events events ((handle f site r p).0)
  run_events (elsewhere r cache ∷ events) p =
      run_events events
        (record p { db = (handle f site r (record { db = p.db; cache = cache })).0.db })

  -- A request that clears no override leaves any cache that was coherent so.
  handle-rows :
      (r : Request) (p : Process f) (cache : List Cached)
      → clears r ≡ false
      → Coherent f site.kube p.db.configs cache
      → Coherent f site.kube ((handle f site r p).0.db.configs) cache
  unfolding handle
  handle-rows (put_config nonce user scope payload) p cache keeps coherent =
      elim (upsert_scope_config-cases f site nonce user scope payload p) [
        | inl same ↦
            subst (λ (q : Process f). Coherent f site.kube q.db.configs cache) (sym same) coherent
        | inr changed ↦
            subst (λ (q : Process f). Coherent f site.kube q.db.configs cache) (sym changed)
              (upsert-Coherent f site.kube nonce scope payload (some user.id) p.db cache coherent)
      ]
  handle-rows (upload nonce user scope contents) p cache keeps coherent =
      elim (upload_kubeconfig-cases f site nonce user scope contents p) [
        | inl same ↦
            subst (λ (q : Process f). Coherent f site.kube q.db.configs cache) (sym same) coherent
        | inr (c, changed) ↦
            subst (λ (q : Process f). Coherent f site.kube q.db.configs cache) (sym changed)
              (store_kubeconfig-Coherent f site.kube scope (some user.id) none p.db c cache
                coherent)
      ]
  handle-rows (delete_config user scope) p cache keeps coherent = cc keeps
  handle-rows (test_config user scope) p cache keeps coherent =
      elim (run_connection_test-cases f site user scope p) [
        | inl same ↦
            subst (λ (q : Process f). Coherent f site.kube q.db.configs cache) (sym same) coherent
        | inr (cfg, status, reason, found, changed) ↦
            subst (λ (q : Process f). Coherent f site.kube q.db.configs cache) (sym changed)
              (record_health-Coherent f site.kube cfg status reason p.db cache found coherent)
      ]
  handle-rows (client tenant_id) p cache keeps coherent = coherent

  Coherent-cong :
      {rows rows' : List (Config Token)} {cache cache' : List Cached}
      → rows' ≡ rows
      → cache' ≡ cache
      → Coherent f site.kube rows cache
      → Coherent f site.kube rows' cache'
  Coherent-cong {rows} {rows'} {cache} {cache'} a b coherent =
      subst (λ r. Coherent f site.kube r cache') (sym a)
        (subst (Coherent f site.kube rows) (sym b) coherent)

  -- The process that handles a request keeps its own cache coherent, whatever the request.
  handle-Coherent :
      (r : Request) (p : Process f)
      → Coherent f site.kube p.db.configs p.cache
      → Coherent f site.kube ((handle f site r p).0.db.configs) ((handle f site r p).0.cache)
  unfolding handle
  handle-Coherent (put_config nonce user scope payload) p coherent =
      elim (upsert_scope_config-cases f site nonce user scope payload p) [
        | inl same ↦
            subst (λ (q : Process f). Coherent f site.kube q.db.configs q.cache) (sym same) coherent
        | inr changed ↦
            subst (λ (q : Process f). Coherent f site.kube q.db.configs q.cache) (sym changed)
              (invalidate_scope-Coherent f site.kube scope _ p.cache (
                upsert-Coherent f site.kube nonce scope payload (some user.id) p.db p.cache
                  coherent))
      ]
  handle-Coherent (upload nonce user scope contents) p coherent =
      elim (upload_kubeconfig-cases f site nonce user scope contents p) [
        | inl same ↦
            subst (λ (q : Process f). Coherent f site.kube q.db.configs q.cache) (sym same) coherent
        | inr (c, changed) ↦
            subst (λ (q : Process f). Coherent f site.kube q.db.configs q.cache) (sym changed)
              (invalidate_scope-Coherent f site.kube scope _ p.cache (
                store_kubeconfig-Coherent f site.kube scope (some user.id) none p.db c p.cache
                  coherent))
      ]
  handle-Coherent (delete_config user scope) p coherent =
      elim (delete_scope_config-cases f site user scope p) [
        | inl same ↦
            subst (λ (q : Process f). Coherent f site.kube q.db.configs q.cache) (sym same) coherent
        | inr (inl (rows, cache)) ↦
            Coherent-cong rows cache
              (invalidate_scope-Coherent f site.kube scope p.db.configs p.cache coherent)
        | inr (inr (rows, cache)) ↦
            Coherent-cong rows cache
              (drop_row-Coherent f site.kube scope p.db.configs p.cache coherent)
      ]
  handle-Coherent (test_config user scope) p coherent =
      elim (run_connection_test-cases f site user scope p) [
        | inl same ↦
            subst (λ (q : Process f). Coherent f site.kube q.db.configs q.cache) (sym same) coherent
        | inr (cfg, status, reason, found, changed) ↦
            subst (λ (q : Process f). Coherent f site.kube q.db.configs q.cache) (sym changed)
              (record_health-Coherent f site.kube cfg status reason p.db p.cache found coherent)
      ]
  handle-Coherent (client tenant_id) p coherent =
      get_client_for_tenant-Coherent f site.kube p.db.configs tenant_id p.cache coherent

  run_events-Coherent :
      (events : List Event) (p : Process f)
      → all clears_here events ≡ true
      → Coherent f site.kube p.db.configs p.cache
      → Coherent f site.kube ((run_events events p).db.configs) ((run_events events p).cache)
  unfolding run_events
  run_events-Coherent [] p local coherent = coherent
  run_events-Coherent (here r ∷ events) p local coherent =
      run_events-Coherent events ((handle f site r p).0) local (handle-Coherent r p coherent)
  run_events-Coherent (elsewhere r cache ∷ events) p local coherent =
      let q : Process f = record { db = p.db; cache = cache } in
      run_events-Coherent events (record p { db = (handle f site r q).0.db }) (ground arith)
        (handle-rows r q p.cache (ground arith) coherent)

  -- After any requests, by this process or by others, of which none that another process handled
  -- cleared an override, a process that began with an empty cache answers `get_client_for_tenant`,
  -- for any tenant, as if there were no cache: with the client that the row in force configures.
  pub run_events-fresh_answer :
      (events : List Event) (db : Db Token) (tenant_id : Option String)
      → all clears_here events ≡ true
      → (handle f site (client tenant_id) (run_events events (record { db = db; cache = [] }))).1
        ≡ answered (
            fresh_answer f site.kube
              ((run_events events (record { db = db; cache = [] })).db.configs)
              tenant_id)
  unfolding handle
  run_events-fresh_answer events db tenant_id local =
      let p : Process f = run_events events (record { db = db; cache = [] }) in
      ap answered (
        get_client_for_tenant-fresh f site.kube p.db.configs tenant_id p.cache (
          run_events-Coherent events (record { db = db; cache = [] }) local
            (empty-Coherent f site.kube db.configs)))
