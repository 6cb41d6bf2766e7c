-- ===== src/Examples/Migrations.antt =====
-- Migrations that start, fail and cannot be deleted.
use shift_wise.Prelude.{map_option, ◌≡◌, refl, ◌≢◌, true, false, none, some, List, [], ◌∷◌}
use shift_wise.Rows.{update, find}
use shift_wise.Audit.Journal.{verify_event_chain, log_of}
use shift_wise.Audit.Journal.Integrity.{NumberedFrom}
use shift_wise.Migration.Status.{preparing, pending, validating, failed}
use shift_wise.Migration.Crud.{
  emit_classified_error, journal_status, stamp_status, fail_migration, get_migration,
  emit_state_transition, set_migration_status, migration_id_of, deleted, create_migration,
  delete_migration, pending_row, Db, Migration,
}
use shift_wise.Migration.Mirror.{status_at, shown_status}
use shift_wise.Migration.Endpoints.{fail, start_migration}
use shift_wise.Migration.History.{
  start, perform_all-shown_status, crash, advance, delete_migration-refused, perform_all-IsMirrored,
  create, perform_all-verify_event_chain, Request, empty_db, perform, perform_all,
}
use shift_wise.Migration.Outcome.{start_migration-diverges, fail_guarded}
use shift_wise.Examples.Hashing.{Chain, keeping}

abbrev created : List Request
created = create 1 7 "acme" "acme-vms" ∷ []

abbrev crashing : List Request
crashing =
    create 1 7 "acme" "acme-vms"
    ∷ start 10 1 (some "acme") (some "task-1")
    ∷ advance 20 1 preparing
    ∷ crash 30 1 "ERR_NFS" "no space"
    ∷ []

abbrev waiting_row : Migration
waiting_row = pending_row 1 7 "acme" "acme-vms"

abbrev crashed_row : Migration
crashed_row = record waiting_row {
  status = failed;
  celery_task_id = some "task-1";
  started_at = some 10;
  completed_at = some 30;
  success = some false;
  error_message = some "no space";
  error_code = some "ERR_NFS";
}

perform_all-verify_event_chain_example :
    (verify_event_chain keeping 1 (perform_all keeping crashing (empty_db keeping)).events
      ≡ (true, none))
    × NumberedFrom 1 (log_of 1 (perform_all keeping crashing (empty_db keeping)).events)
perform_all-verify_event_chain_example = perform_all-verify_event_chain keeping crashing 1

perform_all-shown_status_example :
    shown_status 1 (perform_all keeping crashing (empty_db keeping)).events ≡ some failed
unfolding perform_all perform create_migration start_migration fail set_migration_status find update
    get_migration fail_migration stamp_status journal_status emit_state_transition
    emit_classified_error
perform_all-shown_status_example =
    perform_all-shown_status keeping crashing 1 crashed_row (tt, (tt, (tt, (tt, tt)))) refl

delete_migration-refused_example :
    ((delete_migration 1 (some "acme") (perform_all keeping crashing (empty_db keeping))).1
      ≢ deleted)
    × ((delete_migration 1 (some "acme") (perform_all keeping crashing (empty_db keeping))).0
        ≡ perform_all keeping crashing (empty_db keeping))
delete_migration-refused_example =
    delete_migration-refused keeping crashing 1 (some "acme") (tt, (tt, (tt, (tt, tt))))

abbrev created_db : Db Chain
created_db = perform_all keeping created (empty_db keeping)

start_migration-diverges_example :
    (shown_status 1 (start_migration keeping 10 1 (some "acme") none created_db).0.events
      ≡ some validating)
    × (map_option
          (λ (row : Migration). row.status)
          (find migration_id_of 1
            (start_migration keeping 10 1 (some "acme") none created_db).0.migrations)
        ≡ some pending)
start_migration-diverges_example =
    start_migration-diverges keeping 10 1 created_db waiting_row (some "acme")
      (unfold perform_all perform create_migration find get_migration emit_state_transition in refl)
      refl

fail_guarded_example :
    (status_at 1 (fail keeping 10 1 "ERR_NFS" "no space" created_db) ≡ some failed)
    × (shown_status 1 (fail keeping 10 1 "ERR_NFS" "no space" created_db).events ≡ some failed)
fail_guarded_example =
    fail_guarded keeping 10 1 created_db waiting_row "ERR_NFS" "no space"
      (perform_all-IsMirrored keeping created (tt, tt))
      (unfold perform_all perform create_migration find emit_state_transition in refl)
