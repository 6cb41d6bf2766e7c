-- ===== src/Conversion/Worker.antt =====
-- How a conversion job fails, is retried and is cancelled: `_record_failure` of
-- backend/app/services/converter/service.py, the retry decision of
-- backend/app/tasks/conversion.py, and backend/app/api/v1/conversions.py.
use shift_wise.Conversion.Errors.{is_transient}
use shift_wise.Prelude.{
  ltb, if◌then◌else◌, is_empty, ℕ, Bool, true, false, ◌&&◌, not, none, some, List, [], ◌∷◌,
}
use Prim.Native.String.{String}
use shift_wise.Rows.{find}
use shift_wise.Conversion.Crud.{
  group_ready, partial, group_failed, group_cancelled, group_cancelled, is_failed, set_group_status,
  failed, recompute_group_status, retrying, cancelled, write_job, jobs_of, set_job_status,
  is_terminal_job, group_id_of, job_id_of, GroupStatus, Job, Db,
}

pub data Reply : Type 0 where
  accepted : Reply
  status_404 : Reply
  status_409 : Reply

-- `_record_failure`, less the row of the attempt.
unfoldable pub record_failure : ℕ → Job → String → String → Db → Db
record_failure now job code message db =
    let failed_db = set_job_status now job.id failed (some code) (some message) none db in
    recompute_group_status now job.group_id failed_db

abbrev pub max_retries : ℕ
max_retries = 3

-- What `run_conversion_job` does where the run ended FAILED: whether it queues itself again.
unfoldable pub retry_transient : ℕ → ℕ → ℕ → Db → Db × Bool
retry_transient now retries job_id db = elim (find job_id_of job_id db.jobs) [
  | none ↦ (db, false)
  | some job ↦ elim job.error_code [
    | none ↦ (db, false)
    | some code ↦
        if is_transient code && ltb retries max_retries
        then (set_job_status now job_id retrying none none none db, true)
        else (db, false)
  ]
]

-- The loop of `cancel_conversion`.
unfoldable pub cancel_jobs : ℕ → String → List Job → Db → Db
cancel_jobs now reason [] db = db
cancel_jobs now reason (job ∷ jobs) db =
    if is_terminal_job job.status
    then cancel_jobs now reason jobs db
    else cancel_jobs now reason jobs
        (set_job_status now job.id cancelled none (some reason) none db)

abbrev pub is_closed : GroupStatus → Bool
is_closed group_ready = true
is_closed group_failed = true
is_closed group_cancelled = true
is_closed _ = false

-- `cancel_conversion` on the group that the lookup among the groups of the caller's tenant gives, after
-- the check of the permission.
unfoldable pub cancel_conversion : ℕ → ℕ → String → Db → Db × Reply
cancel_conversion now group_id reason db = elim (find group_id_of group_id db.groups) [
  | none ↦ (db, status_404)
  | some group ↦
      let ended = cancel_jobs now reason (jobs_of group_id db.jobs) db in
      let counted = recompute_group_status now group_id ended in
      if is_closed group.status
      then (db, status_409)
      else (set_group_status now group_id group_cancelled (some reason) counted, accepted)
]

-- `update_job` with the fields that `retry_conversion` resets.
unfoldable pub reset_job : Bool → Job → Job
reset_job reset_attempts job = record {
  id = job.id;
  group_id = job.group_id;
  status = job.status;
  progress_pct = 0;
  attempts = (if reset_attempts then 0 else job.attempts);
  started_at = job.started_at;
  completed_at = job.completed_at;
  error_code = none;
  error_message = none;
}

-- The loop of `retry_conversion`, with the ids that it queues.
unfoldable pub retry_jobs : ℕ → Bool → List Job → Db → Db × List ℕ
retry_jobs now reset_attempts [] db = (db, [])
retry_jobs now reset_attempts (job ∷ jobs) db =
    let cleared = write_job job.id (reset_job reset_attempts) db in
    let written = set_job_status now job.id retrying none none none cleared in
    let rest = retry_jobs now reset_attempts jobs in
    if is_failed job.status then ((rest written).0, job.id ∷ (rest written).1) else rest db

abbrev pub is_retryable : GroupStatus → Bool
is_retryable partial = true
is_retryable group_failed = true
is_retryable _ = false

-- `retry_conversion` from the same lookup on.
unfoldable pub retry_conversion : ℕ → ℕ → Bool → Db → Db × Reply × List ℕ
retry_conversion now group_id reset_attempts db = elim (find group_id_of group_id db.groups) [
  | none ↦ (db, status_404, [])
  | some group ↦
      let retried = retry_jobs now reset_attempts (jobs_of group_id db.jobs) db in
      if not (is_retryable group.status)
      then (db, status_409, [])
      else if is_empty retried.1
      then (retried.0, status_409, [])
      else (recompute_group_status now group_id retried.0, accepted, retried.1)
]
