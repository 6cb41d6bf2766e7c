-- ===== src/Migration/Status.antt =====
-- `MigrationStatus` of backend/app/models/migration.py, with the sets of statuses that the code
-- tests against.
use shift_wise.Prelude.{◌==◌, ℕ, ◌≡◌, Bool, true, false, arith}

pub data Status : Type 0 where
  pending validating preparing transferring configuring starting verifying : Status
  completed failed cancelled rollback rolled_back : Status

abbrev pub position : Status → ℕ
position pending = 0
position validating = 1
position preparing = 2
position transferring = 3
position configuring = 4
position starting = 5
position verifying = 6
position completed = 7
position failed = 8
position cancelled = 9
position rollback = 10
position rolled_back = 11

-- `==` of two statuses.
abbrev pub status_eq : Status → Status → Bool
status_eq s t = position s == position t

-- `is_active`
abbrev pub is_active : Status → Bool
is_active completed = false
is_active failed = false
is_active cancelled = false
is_active rollback = false
is_active rolled_back = false
is_active _ = true

-- `is_completed`, which is also `_TERMINAL_MIGRATION_STATES` of backend/app/tasks/migration.py.
abbrev pub is_terminal : Status → Bool
is_terminal completed = true
is_terminal failed = true
is_terminal cancelled = true
is_terminal rolled_back = true
is_terminal _ = false

-- `_PROTECTED_TERMINAL_STATES` of backend/app/tasks/migration.py.
abbrev pub is_protected : Status → Bool
is_protected completed = true
is_protected cancelled = true
is_protected rolled_back = true
is_protected _ = false

pub status_eq→eq : (s t : Status) → status_eq s t ≡ true → s ≡ t
status_eq→eq s t h = ground arith
