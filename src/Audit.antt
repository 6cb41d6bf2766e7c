-- ===== src/Audit.antt =====
-- The audit journal of backend/app/crud/migration_event.py and backend/app/services/audit_log.py.
pub mod Event
pub mod Journal
