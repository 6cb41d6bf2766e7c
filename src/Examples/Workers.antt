-- ===== src/Examples/Workers.antt =====
-- A migration of two disks, of which the second cannot be copied, and a wait that times out.

use shift_wise.Prelude.{◌==◌, if◌then◌else◌, ℕ, ◌+◌, ◌≡◌, refl, true, none, some, [], ◌∷◌}
use shift_wise.Rows.{find}
use shift_wise.Migration.Status.{failed}
use shift_wise.Migration.Crud.{Db, pending_row}
use shift_wise.Migration.Mirror.{status_at}
use shift_wise.Conversion.Crud.{in_progress}
use shift_wise.Worker.Waiting.{Wait, ready, Ends, wait_for_conversions, wait_for_conversions-Ends}
use shift_wise.Worker.Steps.{Failure}
use shift_wise.Text.{codes}
use shift_wise.Worker.Pipeline.{
  Services, returned, pipeline, run_migration, adapter_steps, populate_steps, completed_jobs,
  insert_job,
}
use shift_wise.Worker.Runs.{outcome_of, settled, run_migration-finishes}
use shift_wise.Examples.Hashing.{keeping, Chain}

wait_for_conversions-Ends_example :
    (result : Wait) × (wait_for_conversions (λ turn. some in_progress) (λ turn. turn) 100 12
      ≡ some result)
    × Ends (λ turn. some in_progress) (λ turn. turn) 100 12 result 0
wait_for_conversions-Ends_example =
    wait_for_conversions-Ends (λ turn. some in_progress) (λ turn. turn) 100 12

abbrev corrupt : Failure
corrupt = record { code = "ERR_MIG_QCOW2_CORRUPT"; message = "qemu-img convert exited 1" }

abbrev services : Services
services = record {
  vm = some true;
  create_group = none;
  enqueue = none;
  waiting = (40, 2) ∷ [];
  wait = ready;
  namespace = none;
  adapter_context = none;
  jobs =
      record { disk_index = 1; is_ready = true; output_path = some "t/outputs/g/1.qcow2" }
      ∷ record { disk_index = 0; is_ready = true; output_path = some "t/outputs/g/0.qcow2" }
      ∷ [];
  adapt_one = λ disk. none;
  migrator_context = none;
  vm_name = codes "web";
  id_text = codes "1";
  populate = λ disk. if disk == 1 then some corrupt else none;
  create_vm = none;
  verify_running = none;
  stamp = none;
}

abbrev queued : Db Chain
queued = record { migrations = pending_row 1 5 "acme" "shiftwise-acme" ∷ []; events = [] }

abbrev clock : ℕ → ℕ
clock n = 100 + n

run_migration-finishes_example :
    ((run_migration keeping 1 clock none services queued).1 ≡ outcome_of none services)
    × (status_at 1 ((run_migration keeping 1 clock none services queued).0)
        ≡ some (settled (outcome_of none services)))
unfolding find
run_migration-finishes_example =
    run_migration-finishes keeping 1 clock none services queued
      (pending_row 1 5 "acme" "shiftwise-acme") refl refl

outcome_of-corrupt : outcome_of none services ≡ returned failed
unfolding pipeline adapter_steps populate_steps completed_jobs insert_job
outcome_of-corrupt = refl
