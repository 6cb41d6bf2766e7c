-- ===== src/Guest.antt =====
-- The guest that the migrator creates: backend/app/services/migrator/vm_manifest.py and pvc.py.
pub mod Naming
pub mod Labels
pub mod Mac
pub mod Manifest
pub mod Disks
