-- ===== src/Cluster/Serving.antt =====
-- The invariant of `_client_cache`, and the changes of the two tables that keep it.
use shift_wise.Prelude.{Bool-cases, ℕ, ◌+◌, ◌<◌, ◌≡◌, ◌⊎◌, inl, inr, some, List, [], arith}
use shift_wise.Cluster.Vault.{Fernet}
use shift_wise.Cluster.Config.{
  Scope, Config, get_scope, put_row, drop_row, scope_eq, get_or_create_row, apply_mode_payload,
  Upsert,
}
use shift_wise.Cluster.Resolver.{
  Kube, client_from_config, client_of, Spec, Cached, find_client, invalidate_scope, keep_client,
  spec_from_config,
}
use shift_wise.Cluster.Coherence.{
  scope_eq_iff, find_client-invalidate_scope, get_scope-put_row, get_scope-drop_row,
}

module _ (f : Fernet) (kube : Kube) where
  open f use {Token}

  -- The row of an entry's scope is a later one, or the one that its client was built from.
  abbrev pub Current : List (Config Token) → Scope → Cached → Type 0
  Current rows t entry =
      (cfg : Config Token) × (get_scope t rows ≡ some cfg)
      × ((entry.version < cfg.config_version)
          ⊎ ((entry.version ≡ cfg.config_version)
              × (client_from_config f kube cfg ≡ client_of entry.client)))

  abbrev pub Coherent : List (Config Token) → List Cached → Type 0
  Coherent rows cache =
      (t : Scope) (entry : Cached) → find_client t cache ≡ some entry → Current rows t entry

  pub empty-Coherent : (rows : List (Config Token)) → Coherent rows []
  unfolding find_client
  empty-Coherent rows t entry held = ground arith

  -- A row that is written is later than the one that it replaces.
  abbrev pub Advances : Config Token → List (Config Token) → Type 0
  Advances row rows =
      (old : Config Token)
      → get_scope row.scope rows ≡ some old
      → old.config_version < row.config_version

  pub put_row-Coherent :
      (row : Config Token) (rows : List (Config Token)) (cache : List Cached)
      → Advances row rows
      → Coherent rows cache
      → Coherent (put_row row rows) cache
  put_row-Coherent row rows cache later coherent t entry held =
      let old = coherent t entry held in
      elim (Bool-cases (scope_eq row.scope t)) [
        | inl same ↦ (
          row,
          ground (arith, get_scope-put_row row t rows),
          inl (ground (arith, later (old.0), scope_eq_iff row.scope t)),
        )
        | inr other ↦ (old.0, ground (arith, get_scope-put_row row t rows), old.2)
      ]

  -- A row that is written with the version and the client of the one that it replaces.
  pub put_row-same-Coherent :
      (cfg row : Config Token) (rows : List (Config Token)) (cache : List Cached)
      → get_scope row.scope rows ≡ some cfg
      → row.config_version ≡ cfg.config_version
      → spec_from_config f row ≡ spec_from_config f cfg
      → Coherent rows cache
      → Coherent (put_row row rows) cache
  put_row-same-Coherent cfg row rows cache found version spec coherent t entry held =
      let (old, kept, how) = coherent t entry held in
      elim (Bool-cases (scope_eq row.scope t)) [
        | inl same ↦ (
          row,
          ground (arith, get_scope-put_row row t rows),
          elim how [
            | inl older ↦ inl (ground (arith, scope_eq_iff row.scope t))
            | inr built ↦
                inr (
                  ground (arith, scope_eq_iff row.scope t),
                  ground (arith, scope_eq_iff row.scope t),
                )
          ],
        )
        | inr other ↦ (old, ground (arith, get_scope-put_row row t rows), how)
      ]

  pub invalidate_scope-Coherent :
      (s : Scope) (rows : List (Config Token)) (cache : List Cached)
      → Coherent rows cache
      → Coherent rows (invalidate_scope s cache)
  invalidate_scope-Coherent s rows cache coherent t entry held =
      coherent t entry (ground (arith, find_client-invalidate_scope s t cache))

  pub drop_row-Coherent :
      (s : Scope) (rows : List (Config Token)) (cache : List Cached)
      → Coherent rows cache
      → Coherent (drop_row s rows) (invalidate_scope s cache)
  drop_row-Coherent s rows cache coherent t entry held =
      let old = coherent t entry (ground (arith, find_client-invalidate_scope s t cache)) in
      (
        old.0,
        ground (arith, get_scope-drop_row s t rows, find_client-invalidate_scope s t cache),
        old.2,
      )

  pub keep_client-Coherent :
      (cfg : Config Token) (spec : Spec) (rows : List (Config Token)) (cache : List Cached)
      → get_scope cfg.scope rows ≡ some cfg
      → client_from_config f kube cfg ≡ client_of spec
      → Coherent rows cache
      → Coherent rows (
          keep_client
            (record { scope = cfg.scope; version = cfg.config_version; client = spec })
            cache)
  unfolding find_client
  keep_client-Coherent cfg spec rows cache found built coherent t entry held =
      elim (Bool-cases (scope_eq cfg.scope t)) [
        | inl same ↦
            (cfg, ground (arith, scope_eq_iff cfg.scope t), inr (ground arith, ground arith))
        | inr other ↦
            coherent t entry (ground (arith, find_client-invalidate_scope cfg.scope t cache))
      ]

  pub get_or_create_row-Advances :
      (scope : Scope) (rows : List (Config Token)) (row : Config Token)
      → row.scope ≡ scope
      → row.config_version ≡ (get_or_create_row scope rows).config_version + 1
      → Advances row rows
  get_or_create_row-Advances scope rows row same next old found = ground arith

module _ (f : Fernet) where
  open f use {Token}

  pub apply_mode_payload-scope :
      (nonce : ℕ) (request : Upsert) (row : Config Token)
      → ((apply_mode_payload f nonce request row).scope ≡ row.scope)
        × ((apply_mode_payload f nonce request row).config_version ≡ row.config_version)
  unfolding apply_mode_payload
  apply_mode_payload-scope nonce request row = (ground arith, ground arith)
