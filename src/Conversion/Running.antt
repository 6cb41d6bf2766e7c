-- ===== src/Conversion/Running.antt =====
-- `run_job` of backend/app/services/converter/service.py, with the stages in the cluster; the rows of
-- attempts are not modelled.

use shift_wise.Prelude.{if◌then◌else◌, length, ℕ, ◌+◌, Bool, true, false, Option, none, some}
use shift_wise.Rows.{find}
use shift_wise.Conversion.Crud.{
  JobStatus, ready, failed, cancelled, expired, Job, Db, job_id_of, set_job_status, write_job,
  recompute_group_status,
}
use shift_wise.Conversion.Worker.{record_failure}
use shift_wise.Conversion.Moves.{Error, Work, moves_of, run_moves}

-- The statuses in which `run_job` returns at once.
abbrev pub is_over : JobStatus → Bool
is_over ready = true
is_over cancelled = true
is_over expired = true
is_over _ = false

-- `update_job(db, job.id, {"attempts": attempt_no})`
abbrev pub count_attempt : Job → Job
count_attempt job = record job { attempts = job.attempts + 1 }

-- What follows the stages.
unfoldable pub settle : ℕ → Job → Option Error → Db → Db × JobStatus
settle now job none db = (
  recompute_group_status now job.group_id (set_job_status now job.id ready none none (some 100) db),
  ready,
)
settle now job (some e) db = (record_failure now job e.code e.message db, failed)

-- `none` is the `ConversionError` on a job that is not there.
unfoldable pub run_job : (ℕ → ℕ) → Work → ℕ → Db → Option (Db × JobStatus)
run_job clock w job_id db = elim (find job_id_of job_id db.jobs) [
  | none ↦ none
  | some job ↦ some (
      if is_over job.status
      then (db, job.status)
      else let r = run_moves clock 0 job (moves_of w) (write_job job_id count_attempt db) in
        settle (clock (length (moves_of w))) job (r.1) (r.0))
]
