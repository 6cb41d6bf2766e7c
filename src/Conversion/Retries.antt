-- ===== src/Conversion/Retries.antt =====
-- A failed job that its worker queues again (`_record_failure` and `run_conversion_job`), and
-- the jobs that `retry_conversion` queues.
use shift_wise.Prelude.{
  ltb, ==_self, is_some, map_option, any, is_empty, ℕ, ◌≡◌, refl, ap, ◌∙◌, true, false, none, some,
  List, [], ◌∷◌, arith,
}
use Prim.Native.String.{String}
use shift_wise.Rows.{find, update, find-update}
use shift_wise.Conversion.Crud.{
  is_terminal_group, is_in_flight, set_group_status, recompute_group_status, group_status_of,
  stamp_job, set_job_status, job_id_of, statuses_of, Job, group_id_of, jobs_of, Db, failed,
  retrying,
}
use shift_wise.Conversion.Grouping.{group_status_of_lem}
use shift_wise.Conversion.Errors.{is_transient}
use shift_wise.Conversion.Worker.{max_retries, retry_transient, record_failure}
use shift_wise.Conversion.Cancelling.{
  holds-write_job, is_waiting_in, status-set_group_status, status_of_group, holds,
}

jobs_of-update :
    (g k : ℕ) (f : Job → Job) (jobs : List Job) (job : Job)
    → find job_id_of k jobs ≡ some job
    → job.group_id ≡ g
    → ((j : Job) → (f j).group_id ≡ j.group_id)
    → jobs_of g (update job_id_of k f jobs) ≡ update job_id_of k f (jobs_of g jobs)
unfolding jobs_of update find
jobs_of-update g k f [] job found same keep = refl
jobs_of-update g k f (j ∷ jobs) job found same keep =
    ground (arith, keep j, jobs_of-update g k f jobs job)

pub jobs-recompute_group_status :
    (now g : ℕ) (db : Db) → (recompute_group_status now g db).jobs ≡ db.jobs
unfolding recompute_group_status set_group_status
jobs-recompute_group_status now g db = ground arith

pub status-recompute_group_status :
    (now g : ℕ) (db : Db)
    → is_some (find group_id_of g db.groups) ≡ true
    → is_empty (statuses_of (jobs_of g db.jobs)) ≡ false
    → status_of_group g (recompute_group_status now g db)
      ≡ some (group_status_of (statuses_of (jobs_of g db.jobs)))
unfolding recompute_group_status
status-recompute_group_status now g db there filled =
    rw (filled, recompute_group_status)
      (status-set_group_status now g (group_status_of (statuses_of (jobs_of g db.jobs))) none db
        there)

module _ (now : ℕ) (job : Job) (others : List Job) (code message : String) (db : Db)
    (found : find job_id_of job.id db.jobs ≡ some job)
    (siblings : jobs_of job.group_id db.jobs ≡ job ∷ others)
    (there : is_some (find group_id_of job.group_id db.groups) ≡ true) where
  abbrev failed_db : Db
  failed_db = set_job_status now job.id failed (some code) (some message) none db

  failed-statuses : statuses_of (jobs_of job.group_id failed_db.jobs) ≡ failed ∷ statuses_of others
  unfolding set_job_status
  failed-statuses =
      rw
        (
          jobs_of-update job.group_id job.id (stamp_job now failed (some code) (some message) none)
              db.jobs job found refl (λ j. unfold stamp_job in refl),
          siblings,
        )
        (unfold update stamp_job in ground (arith, ==_self job.id))

  failed-group :
      status_of_group job.group_id (record_failure now job code message db)
      ≡ some (group_status_of (failed ∷ statuses_of others))
  unfolding record_failure
  failed-group =
      status-recompute_group_status now job.group_id failed_db (unfold set_job_status in there)
        (rw failed-statuses refl)
      ∙ ap (λ ss. some (group_status_of ss)) failed-statuses

  failed-job :
      find job_id_of job.id (record_failure now job code message db).jobs
      ≡ some (stamp_job now failed (some code) (some message) none job)
  unfolding record_failure set_job_status
  failed-job =
      rw
        (
          jobs-recompute_group_status now job.group_id failed_db,
          find-update job_id_of job.id job.id (stamp_job now failed (some code) (some message) none)
              db.jobs (λ j same. unfold stamp_job in same),
          ==_self job.id,
          found,
        )
        refl

  retried :
      (retries : ℕ)
      → is_transient code ≡ true
      → ltb retries max_retries ≡ true
      → retry_transient now retries job.id (record_failure now job code message db) ≡ (
        set_job_status now job.id retrying none none none (record_failure now job code message db),
        true,
      )
  unfolding retry_transient stamp_job
  retried retries transient left = rw (failed-job, retry_transient, transient, left) refl

  retried-waits :
      (before : Db)
      → find job_id_of job.id before.jobs
        ≡ some (stamp_job now failed (some code) (some message) none job)
      → holds
          (is_waiting_in job.group_id)
          job.id
          (set_job_status now job.id retrying none none none before)
        ≡ true
  unfolding set_job_status
  retried-waits before before_found =
      rw
        (
          holds-write_job (is_waiting_in job.group_id) job.id job.id
              (stamp_job now retrying none none none) before (λ j. unfold stamp_job in refl),
          ==_self job.id,
        )
        (unfold holds stamp_job in ground (arith, before_found, ==_self job.group_id))

  -- A job that comes first in its group, whose failure is transient and that has retries left is
  -- queued again and RETRYING. Where the other jobs of the group have ended, the group keeps a
  -- terminal status all the same.
  pub retry_transient-strands :
      (retries : ℕ)
      → is_transient code ≡ true
      → ltb retries max_retries ≡ true
      → any is_in_flight (statuses_of others) ≡ false
      → let done = retry_transient now retries job.id (record_failure now job code message db) in
        (done.1 ≡ true)
        × (holds (is_waiting_in job.group_id) job.id done.0 ≡ true)
        × (map_option is_terminal_group (status_of_group job.group_id done.0) ≡ some true)
  retry_transient-strands retries transient left quiet = rw (retried retries transient left) (
    refl,
    retried-waits (record_failure now job code message db) failed-job,
    unfold set_job_status in
        ground (arith, failed-group, group_status_of_lem (failed ∷ statuses_of others) refl),
  )
