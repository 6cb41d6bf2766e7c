-- ===== src/Examples/Disks.antt =====
-- Conversion groups that are cancelled and retried.
use shift_wise.Prelude.{
  ◌==◌, map_option, any, all, ℕ, ◌≡◌, refl, ◌↔◌, true, false, not, none, some, [], ◌∷◌,
}
use shift_wise.Rows.{find}
use shift_wise.Conversion.Crud.{
  is_terminal_group, is_cancelled, is_ready, group_ready, group_cancelled, is_in_flight, Group,
  JobStatus, GroupStatus, group_status_of, jobs_of, Db, Job, converting, ready, failed, in_progress,
  partial,
}
use shift_wise.Conversion.Errors.{bucket_of, is_transient}
use shift_wise.Conversion.Grouping.{group_status_of_lem}
use shift_wise.Conversion.Retries.{retry_transient-strands}
use shift_wise.Conversion.Requeue.{retry_conversion_lem}
use shift_wise.Conversion.Outcomes.{cancel_conversion_lem}
use shift_wise.Conversion.Worker.{
  retry_transient, record_failure, accepted, cancel_conversion, retry_conversion,
}
use shift_wise.Conversion.Cancelling.{has_ended, status_of_group, is_waiting_in, holds}

abbrev job_at : ℕ → JobStatus → Job
job_at id status = record {
  id = id;
  group_id = 1;
  status = status;
  progress_pct = 40;
  attempts = 1;
  started_at = some 5;
  completed_at = none;
  error_code = none;
  error_message = none;
}

abbrev group_at : GroupStatus → Group
group_at status = record {
  id = 1;
  status = status;
  started_at = some 5;
  completed_at = none;
  error_message = none;
}

abbrev running_db : Db
running_db = record {
  groups = group_at in_progress ∷ [];
  jobs = job_at 11 converting ∷ job_at 12 ready ∷ [];
}

abbrev broken_db : Db
broken_db = record {
  groups = group_at partial ∷ [];
  jobs = job_at 11 failed ∷ job_at 12 ready ∷ [];
}

group_status_of_lem_example :
    let statuses = failed ∷ ready ∷ [] in
    ((group_status_of statuses ≡ in_progress) ↔ (any is_in_flight statuses ≡ true))
    × ((group_status_of statuses ≡ group_ready) ↔ (all is_ready statuses ≡ true))
    × ((group_status_of statuses ≡ group_cancelled) ↔ (all is_cancelled statuses ≡ true))
    × ((group_status_of statuses ≡ partial) ↔ (
        (any is_in_flight statuses ≡ false)
        × (any is_ready statuses ≡ true)
        × (all is_ready statuses ≡ false)))
    × (is_terminal_group (group_status_of statuses) ≡ not (any is_in_flight statuses))
group_status_of_lem_example = group_status_of_lem (failed ∷ ready ∷ []) refl

cancel_conversion_lem_example :
    ((cancel_conversion 20 1 "stop" running_db).1 ≡ accepted)
    × (status_of_group 1 (cancel_conversion 20 1 "stop" running_db).0 ≡ some group_cancelled)
    × (holds has_ended 11 (cancel_conversion 20 1 "stop" running_db).0 ≡ true)
unfolding find
cancel_conversion_lem_example =
    cancel_conversion_lem 20 1 11 "stop" running_db (group_at in_progress) (job_at 11 converting)
      refl refl refl refl

retry_conversion_lem_example :
    ((retry_conversion 20 1 true broken_db).1 ≡ accepted)
    × (any (λ id. id == 11) (retry_conversion 20 1 true broken_db).2 ≡ true)
    × (holds (is_waiting_in 1) 11 (retry_conversion 20 1 true broken_db).0 ≡ true)
    × (status_of_group 1 (retry_conversion 20 1 true broken_db).0 ≡ some in_progress)
unfolding find
retry_conversion_lem_example =
    retry_conversion_lem 20 1 11 true broken_db (group_at partial) (job_at 11 failed) refl refl refl
      refl refl

retry_transient-strands_example :
    let lost = record_failure 20 (job_at 11 converting) "ERR_NFS_TIMEOUT" "timeout" running_db in
    let done = retry_transient 20 0 11 lost in
    (done.1 ≡ true)
    × (holds (is_waiting_in 1) 11 done.0 ≡ true)
    × (map_option is_terminal_group (status_of_group 1 done.0) ≡ some true)
unfolding find jobs_of is_transient bucket_of
retry_transient-strands_example =
    retry_transient-strands 20 (job_at 11 converting) (job_at 12 ready ∷ []) "ERR_NFS_TIMEOUT"
      "timeout" running_db refl refl refl 0 refl refl refl
