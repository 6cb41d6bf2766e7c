-- ===== src/Conversion/Requeue.antt =====
-- The jobs that `retry_conversion` of backend/app/api/v1/conversions.py queues again.
use shift_wise.Prelude.{
  ◌==◌, if◌then◌else◌, ==_iff, ==_self, Bool-cases, Option-cases, is_some, any, is_empty, ℕ, ◌≡◌,
  refl, ◌∙◌, inl, inr, Bool, true, false, none, some, List, [], ◌∷◌, arith,
}
use shift_wise.Rows.{find}
use shift_wise.Conversion.Crud.{
  recompute_group_status, is_in_flight, jobs_of, statuses_of, group_id_of, group_status_of, Group,
  is_failed, write_job, job_id_of, stamp_job, set_job_status, Job, Db, retrying, in_progress,
}
use shift_wise.Conversion.Worker.{accepted, is_retryable, reset_job, retry_conversion, retry_jobs}
use shift_wise.Conversion.Cancelling.{
  find-any_in_flight, holds-recompute_group_status, find-jobs_of, status_of_group, holds-write_job,
  is_waiting_in, holds,
}
use shift_wise.Conversion.Retries.{status-recompute_group_status}

-- One round of the loop.
abbrev requeue : ℕ → Bool → ℕ → Db → Db
requeue now reset_attempts id db =
    set_job_status now id retrying none none none (write_job id (reset_job reset_attempts) db)

abbrev is_in : ℕ → Job → Bool
is_in g job = job.group_id == g

requeue-round :
    (p : Job → Bool) (now : ℕ) (reset_attempts : Bool) (id k : ℕ) (db : Db)
    → holds p k (requeue now reset_attempts id db) ≡ (
        if id == k
        then holds
            (λ job. p (stamp_job now retrying none none none (reset_job reset_attempts job)))
            k
            db
        else holds p k db)
unfolding set_job_status
requeue-round p now reset_attempts id k db =
    rw
      (
        holds-write_job p id k (stamp_job now retrying none none none)
            (write_job id (reset_job reset_attempts) db) (λ job. unfold stamp_job in refl),
        holds-write_job p id k (reset_job reset_attempts) db (λ job. unfold reset_job in refl),
        holds-write_job (λ job. p (stamp_job now retrying none none none job)) id k
            (reset_job reset_attempts) db (λ job. unfold reset_job in refl),
      )
      (ground arith)

requeue-is_in :
    (now : ℕ) (reset_attempts : Bool) (g id k : ℕ) (db : Db)
    → holds (is_in g) k db ≡ true
    → holds (is_in g) k (requeue now reset_attempts id db) ≡ true
requeue-is_in now reset_attempts g id k db h =
    rw (requeue-round (is_in g) now reset_attempts id k db)
      (unfold stamp_job reset_job in ground arith)

requeue-keeps :
    (now : ℕ) (reset_attempts : Bool) (g id k : ℕ) (db : Db)
    → holds (is_waiting_in g) k db ≡ true
    → holds (is_waiting_in g) k (requeue now reset_attempts id db) ≡ true
requeue-keeps now reset_attempts g id k db h =
    rw (requeue-round (is_waiting_in g) now reset_attempts id k db)
      (unfold holds stamp_job reset_job in ground arith)

requeue-waits :
    (now : ℕ) (reset_attempts : Bool) (g k : ℕ) (db : Db)
    → holds (is_in g) k db ≡ true
    → holds (is_waiting_in g) k (requeue now reset_attempts k db) ≡ true
requeue-waits now reset_attempts g k db h =
    rw (requeue-round (is_waiting_in g) now reset_attempts k k db)
      (unfold holds stamp_job reset_job in ground (arith, ==_self k))

retry_jobs-keeps :
    (now : ℕ) (reset_attempts : Bool) (g : ℕ) (jobs : List Job) (db : Db) (k : ℕ)
    → holds (is_waiting_in g) k db ≡ true
    → holds (is_waiting_in g) k (retry_jobs now reset_attempts jobs db).0 ≡ true
unfolding retry_jobs
retry_jobs-keeps now reset_attempts g [] db k h = h
retry_jobs-keeps now reset_attempts g (job ∷ jobs) db k h =
    elim (Bool-cases (is_failed job.status)) [
      | inl again ↦ rw again (
          retry_jobs-keeps now reset_attempts g jobs (requeue now reset_attempts job.id db) k
            (requeue-keeps now reset_attempts g job.id k db h))
      | inr other ↦ rw other (retry_jobs-keeps now reset_attempts g jobs db k h)
    ]

-- A FAILED job of the list waits afterwards, and is among those queued.
retry_jobs-waits :
    (now : ℕ) (reset_attempts : Bool) (g : ℕ) (jobs : List Job) (db : Db) (k : ℕ) (job : Job)
    → find job_id_of k jobs ≡ some job
    → is_failed job.status ≡ true
    → holds (is_in g) k db ≡ true
    → let done = retry_jobs now reset_attempts jobs db in
      (holds (is_waiting_in g) k done.0 ≡ true) × (any (λ id. id == k) done.1 ≡ true)
unfolding retry_jobs find
retry_jobs-waits now reset_attempts g [] db k job found bad there = cc
retry_jobs-waits now reset_attempts g (j ∷ jobs) db k job found bad there =
    let next = requeue now reset_attempts j.id db in
    ground (
      arith,
      requeue-waits now reset_attempts g k db there,
      retry_jobs-keeps now reset_attempts g jobs next k,
      retry_jobs-waits now reset_attempts g jobs db k job,
      retry_jobs-waits now reset_attempts g jobs next k job,
      requeue-is_in now reset_attempts g j.id k db there,
    )

retry_jobs-groups :
    (now : ℕ) (reset_attempts : Bool) (jobs : List Job) (db : Db)
    → (retry_jobs now reset_attempts jobs db).0.groups ≡ db.groups
unfolding retry_jobs set_job_status
retry_jobs-groups now reset_attempts [] db = refl
retry_jobs-groups now reset_attempts (job ∷ jobs) db = ground (
  arith,
  retry_jobs-groups now reset_attempts jobs db,
  retry_jobs-groups now reset_attempts jobs (requeue now reset_attempts job.id db),
)

any-filled : {A : Type 0} (p : A → Bool) (xs : List A) → any p xs ≡ true → is_empty xs ≡ false
any-filled p [] h = cc
any-filled p (x ∷ xs) h = refl

waiting-in_flight :
    (g k : ℕ) (db : Db)
    → holds (is_waiting_in g) k db ≡ true
    → any is_in_flight (statuses_of (jobs_of g db.jobs)) ≡ true
unfolding holds
waiting-in_flight g k db h = elim (Option-cases (find job_id_of k db.jobs)) [
  | inl missing ↦ absurd (ground (arith, h, missing))
  | inr (job, found) ↦ ground (arith, h, found, find-any_in_flight g k db.jobs job found)
]

in_group :
    (g k : ℕ) (db : Db) (job : Job)
    → find job_id_of k db.jobs ≡ some job
    → job.group_id ≡ g
    → holds (is_in g) k db ≡ true
unfolding holds
in_group g k db job found same = ground (arith, found, (==_iff job.group_id g).1 same)

recomputed :
    (now g k : ℕ) (db : Db)
    → is_some (find group_id_of g db.groups) ≡ true
    → holds (is_waiting_in g) k db ≡ true
    → status_of_group g (recompute_group_status now g db) ≡ some in_progress
unfolding group_status_of
recomputed now g k db there waiting =
    let flying = waiting-in_flight g k db waiting in
    status-recompute_group_status now g db there
      (any-filled is_in_flight (statuses_of (jobs_of g db.jobs)) flying)
    ∙ ground (arith, flying)

-- A retry of a group that is PARTIAL or FAILED and has a FAILED job is accepted: that job is
-- RETRYING, still in its group and among those queued, and the group is IN_PROGRESS.
pub retry_conversion_lem :
    (now g k : ℕ) (reset_attempts : Bool) (db : Db) (group : Group) (job : Job)
    → find group_id_of g db.groups ≡ some group
    → is_retryable group.status ≡ true
    → find job_id_of k db.jobs ≡ some job
    → job.group_id ≡ g
    → is_failed job.status ≡ true
    → let done = retry_conversion now g reset_attempts db in
      (done.1 ≡ accepted)
      × (any (λ id. id == k) done.2 ≡ true)
      × (holds (is_waiting_in g) k done.0 ≡ true)
      × (status_of_group g done.0 ≡ some in_progress)
unfolding retry_conversion
retry_conversion_lem now g k reset_attempts db group job there again found same bad =
    let jobs = jobs_of g db.jobs in
    let retried = retry_jobs now reset_attempts jobs db in
    let waits =
      retry_jobs-waits now reset_attempts g jobs db k job (find-jobs_of g k db.jobs job found same)
        bad (in_group g k db job found same) in
    let known : is_some (find group_id_of g retried.0.groups) ≡ true =
      rw (retry_jobs-groups now reset_attempts jobs db) (rw there refl) in
    rw (there, retry_conversion, again, any-filled (λ id. id == k) retried.1 waits.1)
      (
        refl,
        waits.1,
        rw (holds-recompute_group_status (is_waiting_in g) now g k retried.0) waits.0,
        recomputed now g k retried.0 known waits.0,
      )
