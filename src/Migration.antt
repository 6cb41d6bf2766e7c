-- ===== src/Migration.antt =====
-- The life of a migration: backend/app/models/migration.py, backend/app/crud/migration.py, the
-- endpoints of backend/app/api/v1/migrations.py that change one, and `_fail` of
-- backend/app/tasks/migration.py.
pub mod Status
pub mod Crud
pub mod Mirror
pub mod Endpoints
pub mod History
pub mod Outcome
