-- ===== src/Conversion/Crud.antt =====
-- backend/app/crud/conversion.py: groups, one for a VM, their jobs, one for a disk, and the status
-- that a group has from its jobs. `now` is the clock that a function reads.
use shift_wise.Prelude.{
  ◌==◌, if◌then◌else◌, or_else, any, all, is_empty, ℕ, min, Bool, true, false, ◌&&◌, ◌||◌, Option,
  none, some, List, [], ◌∷◌, map,
}
use Prim.Native.String.{String}
use shift_wise.Rows.{update}

pub data JobStatus : Type 0 where
  pending planning staging converting verifying ready failed cancelled retrying expired : JobStatus

pub data GroupStatus : Type 0 where
  group_pending in_progress group_ready partial group_failed group_cancelled : GroupStatus

pub record Job : Type 0 where
  pub id : ℕ
  pub group_id : ℕ
  pub status : JobStatus
  pub progress_pct : ℕ
  pub attempts : ℕ
  pub started_at : Option ℕ
  pub completed_at : Option ℕ
  pub error_code : Option String
  pub error_message : Option String

pub record Group : Type 0 where
  pub id : ℕ
  pub status : GroupStatus
  pub started_at : Option ℕ
  pub completed_at : Option ℕ
  pub error_message : Option String

pub record Db : Type 0 where
  pub groups : List Group
  pub jobs : List Job

abbrev pub job_id_of : Job → ℕ
job_id_of job = job.id

abbrev pub group_id_of : Group → ℕ
group_id_of group = group.id

abbrev pub is_ready : JobStatus → Bool
is_ready ready = true
is_ready _ = false

abbrev pub is_failed : JobStatus → Bool
is_failed failed = true
is_failed _ = false

abbrev pub is_cancelled : JobStatus → Bool
is_cancelled cancelled = true
is_cancelled _ = false

abbrev is_staging : JobStatus → Bool
is_staging staging = true
is_staging _ = false

abbrev is_in_progress : GroupStatus → Bool
is_in_progress in_progress = true
is_in_progress _ = false

-- The set `in_flight` of `recompute_group_status`.
abbrev pub is_in_flight : JobStatus → Bool
is_in_flight pending = true
is_in_flight planning = true
is_in_flight staging = true
is_in_flight converting = true
is_in_flight verifying = true
is_in_flight retrying = true
is_in_flight _ = false

-- The set `terminal_fail` of `recompute_group_status`.
abbrev pub is_terminal_fail : JobStatus → Bool
is_terminal_fail failed = true
is_terminal_fail expired = true
is_terminal_fail _ = false

-- `TERMINAL_JOB_STATUSES`
abbrev pub is_terminal_job : JobStatus → Bool
is_terminal_job status = is_ready status || is_cancelled status || is_terminal_fail status

-- The statuses that set a group's `completed_at`.
abbrev pub is_terminal_group : GroupStatus → Bool
is_terminal_group group_pending = false
is_terminal_group in_progress = false
is_terminal_group _ = true

-- `x if new is None else new`
abbrev overwrite : {A : Type 0} → Option A → Option A → Option A
overwrite none old = old
overwrite (some new) old = some new

unfoldable pub stamp_group : ℕ → GroupStatus → Option String → Group → Group
stamp_group now status error_message group = record {
  id = group.id;
  status = status;
  started_at =
      (if is_in_progress status then some (or_else group.started_at now) else group.started_at);
  completed_at = (if is_terminal_group status then some now else group.completed_at);
  error_message = overwrite error_message group.error_message;
}

-- An unknown group is left as it is.
unfoldable pub set_group_status : ℕ → ℕ → GroupStatus → Option String → Db → Db
set_group_status now group_id status error_message db = record {
  groups = update group_id_of group_id (stamp_group now status error_message) db.groups;
  jobs = db.jobs;
}

unfoldable pub stamp_job : ℕ → JobStatus → Option String → Option String → Option ℕ → Job → Job
stamp_job now status error_code error_message progress_pct job = record {
  id = job.id;
  group_id = job.group_id;
  status = status;
  progress_pct = elim progress_pct [ none ↦ job.progress_pct | some pct ↦ min 100 pct ];
  attempts = job.attempts;
  started_at = (if is_staging status then some (or_else job.started_at now) else job.started_at);
  completed_at = (if is_terminal_job status then some now else job.completed_at);
  error_code = overwrite error_code job.error_code;
  error_message = overwrite error_message job.error_message;
}

abbrev pub write_job : ℕ → (Job → Job) → Db → Db
write_job job_id f db = record { groups = db.groups; jobs = update job_id_of job_id f db.jobs }

unfoldable pub set_job_status :
    ℕ → ℕ → JobStatus → Option String → Option String → Option ℕ → Db → Db
set_job_status now job_id status error_code error_message progress_pct db =
    write_job job_id (stamp_job now status error_code error_message progress_pct) db

-- `group.jobs`
unfoldable pub jobs_of : ℕ → List Job → List Job
jobs_of group_id [] = []
jobs_of group_id (job ∷ jobs) =
    if job.group_id == group_id then job ∷ jobs_of group_id jobs else jobs_of group_id jobs

abbrev pub statuses_of : List Job → List JobStatus
statuses_of jobs = map (λ (job : Job). job.status) jobs

-- `new_status` of `recompute_group_status`, on a list that is not empty.
unfoldable pub group_status_of : List JobStatus → GroupStatus
group_status_of statuses =
    if any is_in_flight statuses
    then in_progress
    else if all is_ready statuses
    then group_ready
    else if any is_ready statuses && (any is_terminal_fail statuses || any is_cancelled statuses)
    then partial
    else if all is_terminal_fail statuses
    then group_failed
    else if all is_cancelled statuses
    then group_cancelled
    else group_failed

unfoldable pub recompute_group_status : ℕ → ℕ → Db → Db
recompute_group_status now group_id db =
    let statuses = statuses_of (jobs_of group_id db.jobs) in
    if is_empty statuses
    then db
    else set_group_status now group_id (group_status_of statuses) none db
