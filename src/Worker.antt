-- ===== src/Worker.antt =====
-- The task of backend/app/tasks/migration.py that drives a migration, with the services of
-- backend/app/services/adapter/service.py and backend/app/services/migrator/service.py that it runs.
pub mod Waiting
pub mod Steps
pub mod Pipeline
pub mod Active
pub mod Writes
pub mod Runs
pub mod Success
