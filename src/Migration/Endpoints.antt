-- ===== src/Migration/Endpoints.antt =====
-- The endpoints of backend/app/api/v1/migrations.py that change a migration, and `_fail` of
-- backend/app/tasks/migration.py. What the broker and the cluster answer are arguments.
pub mod Rules
use shift_wise.Prelude.{if◌then◌else◌, or_else, ℕ, Option, none, some}
use shift_wise.Rows.{find}
use Prim.Native.String.{String}
use shift_wise.Rows.{find}
use shift_wise.Migration.Status.{
  Status, pending, validating, failed, cancelled, status_eq, is_active, is_protected,
}
use shift_wise.Audit.Event.{Hash}
use shift_wise.Migration.Crud.{
  Migration, Db, get_migration, write, set_migration_status, fail_migration, migration_id_of,
  present,
}

-- The HTTP status that a handler answers.
pub data Reply : Type 0 where
  ok_200 bad_request_400 not_found_404 unavailable_503 : Reply

abbrev pub set_task : String → Migration → Migration
set_task task_id row = record row { celery_task_id = some task_id }

-- Where the task cannot be queued, the row goes back to PENDING.
abbrev pub back_to_pending : Migration → Migration
back_to_pending row = record row { status = pending }

-- The reason is set on the row before the transition, so that the journal shows it.
abbrev pub set_reason : Option String → Migration → Migration
set_reason reason row = record row {
  error_message = some (or_else (present reason) "Annulée par l'utilisateur");
}

module _ {D : Type 0} where
  -- What follows the transition of `start_migration`.
  abbrev pub enqueue : ℕ → Option String → Db D → Db D × Reply
  enqueue id none db = (write id back_to_pending db, unavailable_503)
  enqueue id (some task_id) db = (write id (set_task task_id) db, ok_200)

module _ (h : Hash) where
  open h use {Digest}

  -- `start_migration`; `task` is the id of the queued task, `none` where the broker is unreachable.
  unfoldable pub start_migration :
      ℕ → ℕ → Option String → Option String → Db Digest → Db Digest × Reply
  start_migration now id tenant_id task db = elim (get_migration db id tenant_id) [
    | none ↦ (db, not_found_404)
    | some m ↦
        if status_eq m.status pending
        then enqueue id task (set_migration_status h now id validating db)
        else (db, bad_request_400)
  ]

  -- `cancel_migration`, up to the teardown of cluster resources, which changes no row.
  unfoldable pub cancel_migration :
      ℕ → ℕ → Option String → Option String → Db Digest → Db Digest × Reply
  cancel_migration now id tenant_id reason db = elim (get_migration db id tenant_id) [
    | none ↦ (db, not_found_404)
    | some m ↦
        if is_active m.status
        then (set_migration_status h now id cancelled (write id (set_reason reason) db), ok_200)
        else (db, bad_request_400)
  ]

  -- `_fail`, on the row that the lock returned.
  unfoldable pub fail : ℕ → ℕ → String → String → Db Digest → Db Digest
  fail now id code message db =
      let failing = set_migration_status h now id failed (fail_migration id code message db) in
      elim (find migration_id_of id db.migrations) [
        | none ↦ failing
        | some m ↦ if is_protected m.status then db else failing
      ]
