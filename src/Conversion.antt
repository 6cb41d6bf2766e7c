-- ===== src/Conversion.antt =====
-- The conversion of a VM's disks: backend/app/services/converter, backend/app/crud/conversion.py,
-- backend/app/tasks/conversion.py and backend/app/api/v1/conversions.py.
pub mod Plan
pub mod Errors
pub mod Crud
pub mod Grouping
pub mod Worker
pub mod Cancelling
pub mod Outcomes
pub mod Retries
pub mod Requeue
pub mod Moves
pub mod Running
pub mod Settled
