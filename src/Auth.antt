-- ===== src/Auth.antt =====
-- Sign-in: backend/app/core/login_throttle.py and backend/app/core/refresh_token_store.py, over the
-- commands of Redis that they send, and the routes of backend/app/api/v1/auth.py.
pub mod Redis
pub mod Throttle
pub mod Attack
pub mod Release
pub mod Tokens
pub mod Reuse
pub mod Login
pub mod Sessions
pub mod Revocation
pub mod Revoked
