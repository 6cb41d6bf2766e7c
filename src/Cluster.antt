-- ===== src/Cluster.antt =====
-- The clusters that tenants deploy to: backend/app/models/cluster_config.py,
-- backend/app/crud/cluster_config.py, backend/app/services/credentials/vault.py and
-- backend/app/services/cluster.
pub mod Vault
pub mod Kubeconfig
pub mod Plugins
pub mod Config
pub mod Resolver
pub mod Coherence
pub mod Endpoints
pub mod Serving
pub mod Handlers
pub mod Changes
pub mod Refinement
pub mod Stale
pub mod Delivery
