-- ===== src/Examples/Transfers.antt =====
-- A job of two whose conversion in the cluster runs out of memory.

use shift_wise.Prelude.{if◌then◌else◌, any, ℕ, ◌≡◌, refl, true, false, none, some, [], ◌∷◌}
use shift_wise.Text.{codes}
use shift_wise.Rows.{find}
use shift_wise.Conversion.Crud.{
  JobStatus, ready, failed, pending, in_progress, Job, Db, jobs_of, statuses_of, group_status_of,
}
use shift_wise.Conversion.Cancelling.{status_of_group}
use shift_wise.Conversion.Plan.{qemu_img}
use shift_wise.Conversion.Moves.{Work, copies, moves_of, fails}
use shift_wise.Conversion.Running.{run_job}
use shift_wise.Conversion.Settled.{status_of_job, run_job-settles}

abbrev disk : ℕ → JobStatus → Job
disk id status = record {
  id = id;
  group_id = 1;
  status = status;
  progress_pct = 0;
  attempts = 0;
  started_at = none;
  completed_at = none;
  error_code = none;
  error_message = none;
}

abbrev two_disks : Db
two_disks = record {
  groups =
      record {
        id = 1;
        status = in_progress;
        started_at = none;
        completed_at = none;
        error_message = none;
      }
      ∷ [];
  jobs = disk 1 ready ∷ disk 2 pending ∷ [];
}

abbrev short_of_memory : Work
short_of_memory = record {
  has_source = true;
  has_group = true;
  source_size = 1000;
  required = 1500;
  free = 9000;
  pulled = (500, 1000) ∷ (1000, 1000) ∷ [];
  pull = none;
  staged = some 1000;
  tool = qemu_img;
  copy = copies 0 false;
  job_failure = some (codes "OOMKilled", some 137);
  output = none;
}

run_job-settles_example :
    let result = if any fails (moves_of short_of_memory) then failed else ready in
    (after : Db) × (run_job (λ n. n) short_of_memory 2 two_disks ≡ some (after, result))
    × (status_of_job 2 after ≡ some result)
    × (status_of_group 1 after ≡ some (group_status_of (statuses_of (jobs_of 1 after.jobs))))
unfolding find
run_job-settles_example =
    run_job-settles (λ n. n) short_of_memory 2 two_disks (disk 2 pending) refl refl refl
