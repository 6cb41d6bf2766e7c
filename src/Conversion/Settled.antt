-- ===== src/Conversion/Settled.antt =====
-- How a run of `run_job` ends, for the job and for its group.
use Prim.Native.String.{String}
use shift_wise.Prelude.{
  if◌then◌else◌, is_some, map_option, length, any, is_empty, ℕ, ◌+◌, ◌≡◌, refl, sym, ap, ◌∙◌, subst,
  Bool, true, false, Option, none, some, List, [], ◌∷◌, arith,
}
use shift_wise.Rows.{find, find-update, find-id}
use shift_wise.Conversion.Crud.{
  JobStatus, GroupStatus, ready, failed, in_progress, Job, Db, job_id_of, group_id_of,
  set_job_status, set_group_status, write_job, stamp_job, stamp_group, recompute_group_status,
  jobs_of, statuses_of, group_status_of,
}
use shift_wise.Conversion.Worker.{record_failure}
use shift_wise.Conversion.Cancelling.{find-jobs_of, status_of_group}
use shift_wise.Conversion.Retries.{jobs-recompute_group_status, status-recompute_group_status}
use shift_wise.Conversion.Moves.{
  Error, Move, Work, job_status, group_in_progress, call, moves_of, run_moves, fails,
}
use shift_wise.Conversion.Running.{is_over, count_attempt, settle, run_job}

abbrev pub status_of_job : ℕ → Db → Option JobStatus
status_of_job id db = map_option (λ (job : Job). job.status) (find job_id_of id db.jobs)

-- The job is there, in its group, which is there too.
abbrev Held : Job → Db → Type 0
Held job db =
    (current : Job) × (find job_id_of job.id db.jobs ≡ some current)
    × (current.group_id ≡ job.group_id)
    × (is_some (find group_id_of job.group_id db.groups) ≡ true)

write_job-Held :
    (job : Job) (f : Job → Job) (db : Db)
    → ((j : Job) → ((f j).id ≡ j.id) × ((f j).group_id ≡ j.group_id))
    → Held job db
    → Held job (write_job job.id f db)
write_job-Held job f db keep (current, found, same, there) = (
  f current,
  ground (arith, find-update job_id_of job.id job.id f db.jobs (λ j e. (keep j).0 ∙ e)),
  (keep current).1 ∙ same,
  there,
)

set_job_status-Held :
    (now : ℕ) (job : Job) (status : JobStatus) (code message : Option String) (pct : Option ℕ)
    (db : Db)
    → Held job db
    → Held job (set_job_status now job.id status code message pct db)
unfolding set_job_status stamp_job
set_job_status-Held now job status code message pct db held =
    write_job-Held job (stamp_job now status code message pct) db (λ j. (refl, refl)) held

status-set_job_status :
    (now : ℕ) (job current : Job) (status : JobStatus) (code message : Option String)
    (pct : Option ℕ) (db : Db)
    → find job_id_of job.id db.jobs ≡ some current
    → status_of_job job.id (set_job_status now job.id status code message pct db) ≡ some status
unfolding set_job_status stamp_job
status-set_job_status now job current status code message pct db found = ground (
  arith,
  find-update job_id_of job.id job.id (stamp_job now status code message pct) db.jobs (λ j e. e),
)

set_group_status-Held :
    (now : ℕ) (job : Job) (status : GroupStatus) (db : Db)
    → Held job db
    → Held job (set_group_status now job.group_id status none db)
unfolding set_group_status stamp_group
set_group_status-Held now job status db (current, found, same, there) = (
  current,
  found,
  same,
  ground (
    arith,
    find-update group_id_of job.group_id job.group_id (stamp_group now status none) db.groups
        (λ group e. e),
  ),
)

run_moves-Held :
    (clock : ℕ → ℕ) (n : ℕ) (job : Job) (moves : List Move) (db : Db)
    → Held job db
    → Held job ((run_moves clock n job moves db).0)
unfolding run_moves
run_moves-Held clock n job [] db held = held
run_moves-Held clock n job (job_status status pct ∷ moves) db held =
    run_moves-Held clock (n + 1) job moves _
      (set_job_status-Held (clock n) job status none none (some pct) db held)
run_moves-Held clock n job (group_in_progress ∷ moves) db held =
    run_moves-Held clock (n + 1) job moves _
      (set_group_status-Held (clock n) job in_progress db held)
run_moves-Held clock n job (call none ∷ moves) db held =
    run_moves-Held clock (n + 1) job moves db held
run_moves-Held clock n job (call (some error) ∷ moves) db held = held

run_moves-fails :
    (clock : ℕ → ℕ) (n : ℕ) (job : Job) (moves : List Move) (db : Db)
    → is_some ((run_moves clock n job moves db).1) ≡ any fails moves
unfolding run_moves
run_moves-fails clock n job [] db = refl
run_moves-fails clock n job (job_status status pct ∷ moves) db =
    run_moves-fails clock (n + 1) job moves _
run_moves-fails clock n job (group_in_progress ∷ moves) db =
    run_moves-fails clock (n + 1) job moves _
run_moves-fails clock n job (call none ∷ moves) db = run_moves-fails clock (n + 1) job moves db
run_moves-fails clock n job (call (some error) ∷ moves) db = refl

find-filled :
    (k : ℕ) (jobs : List Job) (job : Job)
    → find job_id_of k jobs ≡ some job
    → is_empty (statuses_of jobs) ≡ false
unfolding find
find-filled k [] job found = cc found
find-filled k (j ∷ jobs) job found = refl

-- The job has a status, and its group the one that its jobs have.
abbrev Settled : Job → JobStatus → Db → Type 0
Settled job status db =
    (status_of_job job.id db ≡ some status)
    × (status_of_group job.group_id db
        ≡ some (group_status_of (statuses_of (jobs_of job.group_id db.jobs))))

recompute-Settled :
    (now : ℕ) (job : Job) (status : JobStatus) (code message : Option String) (pct : Option ℕ)
    (db : Db)
    → Held job db
    → Settled job status (
        recompute_group_status now job.group_id
          (set_job_status now job.id status code message pct db))
recompute-Settled now job status code message pct db held =
    let mid = set_job_status now job.id status code message pct db in
    let (current, found, same, there) =
      set_job_status-Held now job status code message pct db held in
    let jobs = jobs-recompute_group_status now job.group_id mid in
    let filled =
      find-filled job.id (jobs_of job.group_id mid.jobs) current
        (find-jobs_of job.group_id job.id mid.jobs current found same) in
    (
      ap (λ js. map_option (λ (j : Job). j.status) (find job_id_of job.id js)) jobs
          ∙ status-set_job_status now job (held.0) status code message pct db (held.1),
      status-recompute_group_status now job.group_id mid there filled
          ∙ ap (λ js. some (group_status_of (statuses_of (jobs_of job.group_id js)))) (sym jobs),
    )

settle-Settled :
    (now : ℕ) (job : Job) (raised : Option Error) (db : Db)
    → Held job db
    → ((settle now job raised db).1 ≡ (if is_some raised then failed else ready))
      × Settled job (if is_some raised then failed else ready) ((settle now job raised db).0)
unfolding settle record_failure
settle-Settled now job none db held =
    (refl, recompute-Settled now job ready none none (some 100) db held)
settle-Settled now job (some e) db held =
    (refl, recompute-Settled now job failed (some e.code) (some e.message) none db held)

-- A run of a job that is not READY, CANCELLED or EXPIRED, in a group that is there, always ends: it
-- leaves the job READY when no stage raises and FAILED when one does, and returns that status, and
-- the group has the status that its jobs, this one included, give it.
pub run_job-settles :
    (clock : ℕ → ℕ) (w : Work) (job_id : ℕ) (db : Db) (job : Job)
    → find job_id_of job_id db.jobs ≡ some job
    → is_over job.status ≡ false
    → is_some (find group_id_of job.group_id db.groups) ≡ true
    → let result = if any fails (moves_of w) then failed else ready in
      (after : Db) × (run_job clock w job_id db ≡ some (after, result))
      × (status_of_job job_id after ≡ some result)
      × (status_of_group job.group_id after
          ≡ some (group_status_of (statuses_of (jobs_of job.group_id after.jobs))))
unfolding run_job
run_job-settles clock w job_id db job found open_job there =
    let mine : job.id ≡ job_id = find-id job_id_of job_id db.jobs job found in
    let counted = write_job job_id count_attempt db in
    let r = run_moves clock 0 job (moves_of w) counted in
    let now = clock (length (moves_of w)) in
    let held0 : Held job db =
      (job, subst (λ k. find job_id_of k db.jobs ≡ some job) (sym mine) found, refl, there) in
    let held1 : Held job counted =
      subst (λ k. Held job (write_job k count_attempt db)) mine
        (write_job-Held job count_attempt db (λ j. (refl, refl)) held0) in
    let held2 = run_moves-Held clock 0 job (moves_of w) counted held1 in
    let (answer, settled) = settle-Settled now job (r.1) (r.0) held2 in
    let (status, group) = settled in
    let raised = run_moves-fails clock 0 job (moves_of w) counted in
    let pick : Bool → JobStatus = λ b. if b then failed else ready in
    (
      (settle now job (r.1) (r.0)).0,
      rw (found, run_job, open_job)
          (ap some
            (ap (λ status. ((settle now job (r.1) (r.0)).0, status)) (answer ∙ ap pick raised))),
      subst
          (λ k.
            status_of_job k ((settle now job (r.1) (r.0)).0) ≡ some (pick (any fails (moves_of w))))
          mine (status ∙ ap (λ b. some (pick b)) raised),
      group,
    )
