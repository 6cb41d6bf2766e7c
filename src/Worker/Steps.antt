-- ===== src/Worker/Steps.antt =====
-- The writes of the worker to a migration: `_set_status`, `update_migration_progress` and
-- `_emit_stage` between the calls that can raise.
use Prim.Native.String.{String}
use shift_wise.Prelude.{
  ◌==◌, if◌then◌else◌, is_some, ℕ, ◌+◌, Bool, true, false, not, Option, none, some, List, [], ◌∷◌,
}
use shift_wise.Text.{Text}
use shift_wise.Guest.Naming.{sanitize_vm_name}
use shift_wise.Rows.{find}
use shift_wise.Audit.Event.{Hash}
use shift_wise.Migration.Status.{Status, is_terminal}
use shift_wise.Migration.Crud.{
  Migration, write, Db, Percentage, migration_id_of, set_migration_status,
  update_migration_progress, emit_stage_event,
}

-- The code and the message of an exception that a handler of `run_migration` catches.
pub record Failure : Type 0 where
  pub code : String
  pub message : String

-- What ends the steps early: such an exception, or `SoftTimeLimitExceeded`.
pub data Raised : Type 0 where
  raised : Failure → Raised
  soft_time_limit : Raised

pub data Step : Type 0 where
  set_status : Status → Step
  progress : Percentage → String → ℕ → Step
  stage : String → Step
  -- The write of the name of the VM, from the VM's own name and the fallback.
  name_vm : Text → Text → Step
  -- A call of another service, with the exception that it raises, if it raises one.
  attempt : Option Failure → Step

-- `migration.target_vm_name or vm.name`
abbrev pub name_or : Option Text → Text → Text
name_or none name = name
name_or (some []) name = name
name_or (some (c ∷ s)) name = c ∷ s

-- `_resolve_target_vm_name`, written to the row
abbrev pub set_target : Text → Text → Migration → Migration
set_target name fallback m = record m {
  target_vm_name = some (sanitize_vm_name (name_or m.target_vm_name name) fallback);
}

abbrev pub failure_of : Step → Option Failure
failure_of (attempt failure) = failure
failure_of _ = none

-- Whether the time limit passes before the step of that number.
abbrev pub is_due : Option ℕ → ℕ → Bool
is_due none n = false
is_due (some limit) n = limit == n

module _ (h : Hash) (id : ℕ) where
  open h use {Digest}

  -- `_emit_stage`
  unfoldable pub emit_stage : String → Db Digest → Db Digest
  emit_stage message db = elim (find migration_id_of id db.migrations) [
    | none ↦ db
    | some m ↦ emit_stage_event h m message "worker" db
  ]

  unfoldable pub perform : ℕ → Step → Db Digest → Db Digest
  perform now (set_status status) db = set_migration_status h now id status db
  perform now (progress percentage current_step step_number) db =
      update_migration_progress id percentage (some current_step) (some step_number) db
  perform now (stage message) db = emit_stage message db
  perform now (name_vm name fallback) db = write id (set_target name fallback) db
  perform now (attempt failure) db = db

  -- The steps up to the first exception; `clock` gives the time of each.
  unfoldable pub run_steps :
      (ℕ → ℕ) → Option ℕ → ℕ → List Step → Db Digest → Db Digest × Option Raised
  run_steps clock limit n [] db = (db, if is_due limit n then some soft_time_limit else none)
  run_steps clock limit n (step ∷ steps) db =
      let rest = run_steps clock limit (n + 1) steps (perform (clock n) step db) in
      if is_due limit n
      then (db, some soft_time_limit)
      else elim (failure_of step) [ some failure ↦ (db, some (raised failure)) | none ↦ rest ]

abbrev pub raises : Step → Bool
raises step = is_some (failure_of step)

-- The number of steps before the first call that raises, or of all.
abbrev pub steps_before : List Step → ℕ
steps_before [] = 0
steps_before (step ∷ steps) = let rest = steps_before steps in if raises step then 0 else rest + 1

abbrev pub keeps_active : Step → Bool
keeps_active (set_status status) = not (is_terminal status)
keeps_active _ = true
