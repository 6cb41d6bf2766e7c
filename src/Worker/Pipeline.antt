-- ===== src/Worker/Pipeline.antt =====
-- `run_migration` of backend/app/tasks/migration.py, with `AdapterService.run` and
-- `MigratorService.run`. What the services that they call answer (converter, cluster, populator,
-- guest) is a record; a message leaves out the values inserted in it.
use Prim.Native.String.{String}
use shift_wise.Prelude.{
  leb, ◌==◌, if◌then◌else◌, is_some, length, ℕ, ◌+◌, ◌*◌, Bool, true, false, ◌&&◌, Option, none,
  some, List, [], ◌∷◌, ◌++◌,
}
use shift_wise.Rows.{find}
use shift_wise.Audit.Event.{Hash}
use shift_wise.Migration.Status.{
  Status, is_terminal, validating, preparing, transferring, configuring, starting, verifying,
  completed, failed,
}
use shift_wise.Migration.Crud.{
  Db, Percentage, migration_id_of, set_migration_status, update_migration_progress, present,
}
use shift_wise.Migration.Endpoints.{fail}
use shift_wise.Worker.Waiting.{Wait, ready, vanished, timed_out, ended}
use shift_wise.Worker.Steps.{
  Failure, Raised, raised, soft_time_limit, Step, set_status, progress, stage, name_vm, attempt,
  run_steps,
}
use shift_wise.Text.{Text, codes}

-- The columns of a conversion job that the services read.
pub record DiskJob : Type 0 where
  pub disk_index : ℕ
  pub is_ready : Bool
  pub output_path : Option String

pub record Services : Type 0 where
  -- The VM's `can_migrate`, if the VM is there.
  pub vm : Option Bool
  pub create_group : Option Failure
  pub enqueue : Option Failure
  -- The sum of the jobs' progress and their number, turn by turn of the wait, and how it ends.
  pub waiting : List (ℕ × ℕ)
  pub wait : Wait
  pub namespace : Option Failure
  pub adapter_context : Option Failure
  pub jobs : List DiskJob
  pub adapt_one : ℕ → Option Failure
  -- The context, the client of the cluster and the namespace of the migrator.
  pub migrator_context : Option Failure
  -- The name of the VM, and the id of the migration as a text.
  pub vm_name : Text
  pub id_text : Text
  pub populate : ℕ → Option Failure
  pub create_vm : Option Failure
  pub verify_running : Option Failure
  -- The measures that are written before the end.
  pub stamp : Option Failure

abbrev failure : String → String → Failure
failure code message = record { code = code; message = message }

abbrev percent : ℕ → Percentage
percent n = record { num = n; den = 1 }

-- `base + span * i / n`
abbrev pub share : ℕ → ℕ → ℕ → ℕ → Percentage
share base span i n = record { num = base * n + span * i; den = n }

-- `_validate`, after the status
abbrev pub validation : Option Bool → Option Failure
validation none = some (failure "ERR_VM_NOT_FOUND" "VM disappeared")
validation (some true) = none
validation (some false) = some (failure "ERR_INTERNAL" "VM is not eligible for migration")

-- What `_wait_for_conversions` raises.
abbrev pub wait_failure : Wait → Option Failure
wait_failure ready = none
wait_failure vanished = some (failure "ERR_INTERNAL" "conversion group vanished")
wait_failure (ended s) = some (failure "ERR_INTERNAL" "conversion group ended")
wait_failure timed_out = some (failure "ERR_NETWORK_TIMEOUT" "conversion group did not finish")

abbrev leads : DiskJob → DiskJob → Bool
leads a b = leb a.disk_index b.disk_index

-- The sort by disk index, which is stable.
unfoldable pub insert_job : DiskJob → List DiskJob → List DiskJob
insert_job job [] = job ∷ []
insert_job job (j ∷ jobs) = if leads job j then job ∷ j ∷ jobs else j ∷ insert_job job jobs

-- `_completed_jobs`
unfoldable pub completed_jobs : List DiskJob → List DiskJob
completed_jobs [] = []
completed_jobs (job ∷ jobs) =
    let rest = completed_jobs jobs in
    if job.is_ready && is_some (present job.output_path) then insert_job job rest else rest

abbrev pub none_ready : String → List DiskJob → Option Failure
none_ready code [] = some (failure code "No completed conversion jobs")
none_ready code (job ∷ jobs) = none

-- The progress that `_wait_for_conversions` shows.
abbrev pub wait_steps : List (ℕ × ℕ) → List Step
wait_steps [] = []
wait_steps ((total, n) ∷ turns) =
    progress (record { num = 2000 * n + 35 * total; den = 100 * n }) "Converting disk(s)" 3
    ∷ wait_steps turns

-- The loop of `AdapterService.run`, from the disk numbered `i`, of `n`.
unfoldable pub adapter_steps : (ℕ → Option Failure) → ℕ → ℕ → List DiskJob → List Step
adapter_steps adapt_one n i [] = []
adapter_steps adapt_one n i (job ∷ jobs) =
    attempt (if job.disk_index == 0 then adapt_one job.disk_index else none)
    ∷ progress (share 55 10 i n) "Adapter: disk done" 4
    ∷ adapter_steps adapt_one n (i + 1) jobs

-- The loop of `_populate_disks`.
unfoldable pub populate_steps : (ℕ → Option Failure) → ℕ → ℕ → List DiskJob → List Step
populate_steps populate n i [] = []
populate_steps populate n i (job ∷ jobs) =
    attempt (populate job.disk_index)
    ∷ progress (share 65 15 i n) "Populated disk" 5
    ∷ populate_steps populate n (i + 1) jobs

abbrev pub adaptation_end : List Step
adaptation_end =
    stage "Guest OS adaptation complete"
    ∷ progress (percent 65) "Adapter done — handing off to migrator" 5
    ∷ set_status configuring
    ∷ stage "Handing off to migrator — PVC populate and KubeVirt VM create"
    ∷ []

module _ (s : Services) where
  abbrev pub conversion_end : List Step
  conversion_end =
      attempt (wait_failure s.wait) ∷ stage "Disk conversion complete — all QCOW2 images ready" ∷ []

  -- Up to the end of the conversions.
  abbrev pub conversion_steps : List Step
  conversion_steps =
      set_status validating
        ∷ attempt (validation s.vm)
        ∷ stage "Validation passed — VM is eligible for migration"
        ∷ set_status preparing
        ∷ attempt s.create_group
        ∷ set_status transferring
        ∷ attempt s.enqueue
        ∷ stage "Conversion jobs enqueued — transferring and converting source disks"
        ∷ wait_steps s.waiting
      ++ conversion_end

  -- `AdapterService.run`, with what surrounds it.
  abbrev pub adaptation_steps : List Step
  adaptation_steps =
      let jobs = completed_jobs s.jobs in
      attempt s.namespace
        ∷ stage "Tenant namespace ready"
        ∷ progress (percent 55) "Adapting guest OS (network, console, GRUB)" 4
        ∷ stage "Adapting guest OS — DHCP, serial console, GRUB redirect, SELinux relabel"
        ∷ attempt s.adapter_context
        ∷ attempt (none_ready "ERR_ADAPT_QCOW2_MISSING" jobs)
        ∷ adapter_steps s.adapt_one (length jobs) 1 jobs
      ++ adaptation_end

  abbrev pub migrator_end : List Step
  migrator_end =
      stage "populator phase finished"
      ∷ set_status starting
      ∷ progress (percent 85) "Creating VirtualMachine" 6
      ∷ stage "creating VirtualMachine"
      ∷ attempt s.create_vm
      ∷ set_status verifying
      ∷ progress (percent 95) "Waiting for VMI to reach Running" 7
      ∷ attempt s.verify_running
      ∷ attempt s.stamp
      ∷ []

  -- `MigratorService.run` before the status COMPLETED.
  abbrev pub migrator_steps : List Step
  migrator_steps =
      let jobs = completed_jobs s.jobs in
      attempt s.migrator_context
        ∷ name_vm s.vm_name (codes "shiftwise-vm-" ++ s.id_text)
        ∷ attempt (none_ready "ERR_MIG_QCOW2_MISSING" jobs)
        ∷ progress (percent 65) "Populating target PVC(s)" 5
        ∷ stage "populator phase started"
        ∷ populate_steps s.populate (length jobs) 1 jobs
      ++ migrator_end

  unfoldable pub pipeline : List Step
  pipeline = conversion_steps ++ adaptation_steps ++ migrator_steps

-- What a delivery of the task ends with: a status, or `SoftTimeLimitExceeded`, which is raised again.
pub data Outcome : Type 0 where
  returned : Status → Outcome
  time_limit_exceeded : Outcome

module _ (h : Hash) (id : ℕ) where
  open h use {Digest}

  -- What follows the steps: the end of `MigratorService.run`, or the handlers of the exceptions.
  unfoldable pub conclude : ℕ → Option Raised → Db Digest → Db Digest × Outcome
  conclude now none db = (
    update_migration_progress id (percent 100) (some "Migration complete") (some 7)
        (set_migration_status h now id completed db),
    returned completed,
  )
  conclude now (some (raised e)) db = (fail h now id e.code e.message db, returned failed)
  conclude now (some soft_time_limit) db =
      (fail h now id "ERR_TIMEOUT" "Soft time limit exceeded" db, time_limit_exceeded)

  -- `limit` is the number of steps after which the soft time limit of the task passes, if it does.
  unfoldable pub run_migration : (ℕ → ℕ) → Option ℕ → Services → Db Digest → Db Digest × Outcome
  run_migration clock limit s db = elim (find migration_id_of id db.migrations) [
    | none ↦ (db, returned failed)
    | some m ↦
        if is_terminal m.status
        then (db, returned m.status)
        else let r = run_steps h id clock limit 0 (pipeline s) db in
          conclude (clock (length (pipeline s))) (r.1) (r.0)
  ]
