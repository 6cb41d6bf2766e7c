-- ===== src/Conversion/Cancelling.antt =====
-- The loop of `cancel_conversion` in backend/app/api/v1/conversions.py, and what the status writes
-- of backend/app/crud/conversion.py do to a job that is read afterwards.
use shift_wise.Prelude.{
  ◌==◌, if◌then◌else◌, Bool-cases, is_some, map_option, any, ℕ, ◌≡◌, refl, ◌∙◌, inl, inr, Bool,
  true, false, ◌&&◌, Option, none, some, List, [], ◌∷◌, arith,
}
use Prim.Native.String.{String}
use shift_wise.Rows.{find, find-update}
use shift_wise.Conversion.Worker.{cancel_jobs}
use shift_wise.Conversion.Crud.{
  retrying, statuses_of, stamp_group, is_in_flight, stamp_job, group_id_of, is_terminal_job,
  job_id_of, write_job, Group, cancelled, GroupStatus, recompute_group_status, JobStatus, Job,
  jobs_of, set_job_status, set_group_status, Db,
}

-- A test on the job that `get_job` finds.
unfoldable pub holds : (Job → Bool) → ℕ → Db → Bool
holds p k db = elim (find job_id_of k db.jobs) [ none ↦ false | some job ↦ p job ]

abbrev pub has_ended : Job → Bool
has_ended job = is_terminal_job job.status

abbrev is_retrying : JobStatus → Bool
is_retrying retrying = true
is_retrying _ = false

abbrev pub is_waiting_in : ℕ → Job → Bool
is_waiting_in group_id job = is_retrying job.status && job.group_id == group_id

-- The job that `jobs_of` lists first under a key is the one that the table finds.
pub find-jobs_of :
    (g k : ℕ) (jobs : List Job) (job : Job)
    → find job_id_of k jobs ≡ some job
    → job.group_id ≡ g
    → find job_id_of k (jobs_of g jobs) ≡ some job
unfolding find jobs_of
find-jobs_of g k [] job found same = cc
find-jobs_of g k (j ∷ jobs) job found same = ground (arith, find-jobs_of g k jobs job)

pub find-any_in_flight :
    (g k : ℕ) (jobs : List Job) (job : Job)
    → find job_id_of k jobs ≡ some job
    → job.group_id ≡ g
    → is_in_flight job.status ≡ true
    → any is_in_flight (statuses_of (jobs_of g jobs)) ≡ true
unfolding find jobs_of
find-any_in_flight g k [] job found same flying = cc
find-any_in_flight g k (j ∷ jobs) job found same flying =
    ground (arith, find-any_in_flight g k jobs job)

pub holds-write_job :
    (p : Job → Bool) (k j : ℕ) (f : Job → Job) (db : Db)
    → ((job : Job) → (f job).id ≡ job.id)
    → holds p j (write_job k f db)
      ≡ (if k == j then holds (λ job. p (f job)) j db else holds p j db)
unfolding holds
holds-write_job p k j f db keep =
    rw (find-update job_id_of k j f db.jobs (λ job same. keep job ∙ same), holds) (ground arith)

cancelled-has_ended :
    (now id k : ℕ) (reason : Option String) (db : Db)
    → holds has_ended k db ≡ true
    → holds has_ended k (set_job_status now id cancelled none reason none db) ≡ true
unfolding set_job_status
cancelled-has_ended now id k reason db h =
    rw
      (holds-write_job has_ended id k (stamp_job now cancelled none reason none) db
        (λ job. unfold stamp_job in refl))
      (unfold holds stamp_job in ground arith)

cancelled_now-has_ended :
    (now id : ℕ) (reason : Option String) (db : Db)
    → holds (λ job. true) id db ≡ true
    → holds has_ended id (set_job_status now id cancelled none reason none db) ≡ true
unfolding set_job_status
cancelled_now-has_ended now id reason db h =
    rw
      (holds-write_job has_ended id id (stamp_job now cancelled none reason none) db
        (λ job. unfold stamp_job in refl))
      (unfold holds stamp_job in ground arith)

exists-set_job_status :
    (now id k : ℕ) (reason : Option String) (db : Db)
    → holds (λ job. true) k db ≡ true
    → holds (λ job. true) k (set_job_status now id cancelled none reason none db) ≡ true
unfolding set_job_status
exists-set_job_status now id k reason db h =
    rw
      (holds-write_job (λ job. true) id k (stamp_job now cancelled none reason none) db
        (λ job. unfold stamp_job in refl))
      (ground arith)

pub cancel_jobs-keeps :
    (now : ℕ) (reason : String) (jobs : List Job) (db : Db) (k : ℕ)
    → holds has_ended k db ≡ true
    → holds has_ended k (cancel_jobs now reason jobs db) ≡ true
unfolding cancel_jobs
cancel_jobs-keeps now reason [] db k h = h
cancel_jobs-keeps now reason (job ∷ jobs) db k h = elim (Bool-cases (is_terminal_job job.status)) [
  | inl over ↦ rw over (cancel_jobs-keeps now reason jobs db k h)
  | inr running ↦ rw running (
      cancel_jobs-keeps now reason jobs
        (set_job_status now job.id cancelled none (some reason) none db) k
        (cancelled-has_ended now job.id k (some reason) db h))
]

pub cancel_jobs-ends :
    (now : ℕ) (reason : String) (jobs : List Job) (db : Db) (k : ℕ) (job : Job)
    → find job_id_of k jobs ≡ some job
    → is_terminal_job job.status ≡ false
    → holds (λ job. true) k db ≡ true
    → holds has_ended k (cancel_jobs now reason jobs db) ≡ true
unfolding cancel_jobs find
cancel_jobs-ends now reason [] db k job found running there = cc
cancel_jobs-ends now reason (j ∷ jobs) db k job found running there =
    let next = set_job_status now j.id cancelled none (some reason) none db in
    ground (
      arith,
      cancelled_now-has_ended now k (some reason) db there,
      cancel_jobs-keeps now reason jobs next k,
      cancel_jobs-ends now reason jobs db k job,
      cancel_jobs-ends now reason jobs next k job,
      exists-set_job_status now j.id k (some reason) db there,
    )

pub holds-recompute_group_status :
    (p : Job → Bool) (now g k : ℕ) (db : Db)
    → holds p k (recompute_group_status now g db) ≡ holds p k db
unfolding holds recompute_group_status set_group_status
holds-recompute_group_status p now g k db = ground arith

pub holds-set_group_status :
    (p : Job → Bool) (now g k : ℕ) (status : GroupStatus) (message : Option String) (db : Db)
    → holds p k (set_group_status now g status message db) ≡ holds p k db
unfolding holds set_group_status
holds-set_group_status p now g k status message db = refl

-- The status of the group that `get_group` finds.
abbrev pub status_of_group : ℕ → Db → Option GroupStatus
status_of_group g db = map_option (λ (group : Group). group.status) (find group_id_of g db.groups)

pub status-set_group_status :
    (now g : ℕ) (status : GroupStatus) (message : Option String) (db : Db)
    → is_some (find group_id_of g db.groups) ≡ true
    → status_of_group g (set_group_status now g status message db) ≡ some status
unfolding set_group_status
status-set_group_status now g status message db there =
    rw
      (find-update group_id_of g g (stamp_group now status message) db.groups
        (λ group same. unfold stamp_group in same))
      (unfold stamp_group in ground arith)
