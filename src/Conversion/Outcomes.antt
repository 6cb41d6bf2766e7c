-- ===== src/Conversion/Outcomes.antt =====
-- What `cancel_conversion` leaves in the tables.
use shift_wise.Prelude.{
  Bool-cases, is_some, ℕ, ◌≡◌, refl, ◌∙◌, inl, inr, true, false, Option, none, some, List, [], ◌∷◌,
  arith,
}
use Prim.Native.String.{String}
use shift_wise.Rows.{find, find-update}
use shift_wise.Conversion.Crud.{
  is_terminal_job, jobs_of, statuses_of, cancelled, stamp_group, group_status_of, group_id_of,
  set_job_status, job_id_of, GroupStatus, recompute_group_status, Job, Group, set_group_status, Db,
  group_cancelled,
}
use shift_wise.Conversion.Worker.{accepted, is_closed, cancel_jobs, cancel_conversion}
use shift_wise.Conversion.Cancelling.{
  find-jobs_of, holds-recompute_group_status, holds-set_group_status, cancel_jobs-ends,
  cancel_jobs-keeps, status-set_group_status, status_of_group, has_ended, holds,
}

found-holds :
    (k : ℕ) (db : Db) (job : Job)
    → find job_id_of k db.jobs ≡ some job
    → (holds (λ j. true) k db ≡ true) × (holds has_ended k db ≡ has_ended job)
unfolding holds
found-holds k db job found = ground (arith, found)

all_end :
    (now : ℕ) (reason : String) (g k : ℕ) (db : Db) (job : Job)
    → find job_id_of k db.jobs ≡ some job
    → job.group_id ≡ g
    → holds has_ended k (cancel_jobs now reason (jobs_of g db.jobs) db) ≡ true
all_end now reason g k db job found same =
    let known = found-holds k db job found in
    elim (Bool-cases (is_terminal_job job.status)) [
      | inl over ↦ cancel_jobs-keeps now reason (jobs_of g db.jobs) db k (known.1 ∙ over)
      | inr running ↦
          cancel_jobs-ends now reason (jobs_of g db.jobs) db k job
            (find-jobs_of g k db.jobs job found same) running known.0
    ]

pub cancel_jobs-groups :
    (now : ℕ) (reason : String) (jobs : List Job) (db : Db)
    → (cancel_jobs now reason jobs db).groups ≡ db.groups
unfolding cancel_jobs set_job_status
cancel_jobs-groups now reason [] db = refl
cancel_jobs-groups now reason (job ∷ jobs) db = ground (
  arith,
  cancel_jobs-groups now reason jobs db,
  cancel_jobs-groups now reason jobs
      (set_job_status now job.id cancelled none (some reason) none db),
)

find-set_group_status :
    (now g : ℕ) (status : GroupStatus) (message : Option String) (db : Db)
    → is_some (find group_id_of g db.groups) ≡ true
    → is_some (find group_id_of g (set_group_status now g status message db).groups) ≡ true
unfolding set_group_status
find-set_group_status now g status message db there =
    rw
      (find-update group_id_of g g (stamp_group now status message) db.groups
        (λ group same. unfold stamp_group in same))
      (ground arith)

pub find-recompute_group_status :
    (now g : ℕ) (db : Db)
    → is_some (find group_id_of g db.groups) ≡ true
    → is_some (find group_id_of g (recompute_group_status now g db).groups) ≡ true
unfolding recompute_group_status
find-recompute_group_status now g db there = ground (
  arith,
  find-set_group_status now g (group_status_of (statuses_of (jobs_of g db.jobs))) none db there,
)

-- A cancel of a group that is not READY, FAILED or CANCELLED is accepted, leaves the group
-- CANCELLED, and leaves every job of the group in a terminal status.
pub cancel_conversion_lem :
    (now g k : ℕ) (reason : String) (db : Db) (group : Group) (job : Job)
    → find group_id_of g db.groups ≡ some group
    → is_closed group.status ≡ false
    → find job_id_of k db.jobs ≡ some job
    → job.group_id ≡ g
    → let done = cancel_conversion now g reason db in
      (done.1 ≡ accepted)
      × (status_of_group g done.0 ≡ some group_cancelled)
      × (holds has_ended k done.0 ≡ true)
unfolding cancel_conversion
cancel_conversion_lem now g k reason db group job there unclosed found same =
    let ended = cancel_jobs now reason (jobs_of g db.jobs) db in
    let counted = recompute_group_status now g ended in
    let kept : is_some (find group_id_of g ended.groups) ≡ true =
      rw (cancel_jobs-groups now reason (jobs_of g db.jobs) db) (rw there refl) in
    rw (there, cancel_conversion, unclosed)
      (
        refl,
        status-set_group_status now g group_cancelled (some reason) counted
            (find-recompute_group_status now g ended kept),
        rw
            (
              holds-set_group_status has_ended now g k group_cancelled (some reason) counted,
              holds-recompute_group_status has_ended now g k ended,
            )
            (all_end now reason g k db job found same),
      )
