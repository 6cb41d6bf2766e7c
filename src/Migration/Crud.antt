-- ===== src/Migration/Crud.antt =====
-- backend/app/crud/migration.py with the emitters of backend/app/services/audit_log.py. A session
-- is the two tables `migrations` and `migration_events`; a function is one transaction, and `now`
-- is the clock that it reads.
pub mod Journalled
use shift_wise.Text.{Text}
use shift_wise.Prelude.{
  ltb, ◌==◌, if◌then◌else◌, or_else, is_some, is_empty, ℕ, ◌*◌, Bool, ◌&&◌, not, Option, none, some,
  List, [], ◌∷◌,
}
use Prim.Native.String.{String}
use text.Mathlib.Text.{◌==◌ as str_eq}
use shift_wise.Rows.{find, update}
use shift_wise.Migration.Status.{
  Status, pending, validating, completed, failed, cancelled, rolled_back, status_eq, is_active,
  is_terminal,
}
use shift_wise.Audit.Event.{Hash, Event, EventType, state_transition, stage_event, classified_error}
use shift_wise.Audit.Journal.{NewEvent, rows_of, record_event}

-- A percentage as an exact fraction, where the code has a float.
pub record Percentage : Type 0 where
  pub num : ℕ
  pub den : ℕ

pub record Migration : Type 0 where
  pub id : ℕ
  pub tenant_id : String
  pub vm_id : ℕ
  pub status : Status
  pub celery_task_id : Option String
  pub started_at : Option ℕ
  pub completed_at : Option ℕ
  pub progress_percentage : Percentage
  pub current_step : Option String
  pub current_step_number : ℕ
  pub success : Option Bool
  pub error_message : Option String
  pub error_code : Option String
  pub target_namespace : String
  pub target_vm_name : Option Text

abbrev pub migration_id_of : Migration → ℕ
migration_id_of m = m.id

pub record Db (D : Type 0) : Type 0 where
  pub migrations : List Migration
  pub events : List (Event D)

-- What `delete_migration` answers or raises.
pub data Deletion : Type 0 where
  deleted not_found still_active has_audit_trail : Deletion

abbrev pub remove : ℕ → List Migration → List Migration
remove id [] = []
remove id (m ∷ ms) = if m.id == id then ms else m ∷ remove id ms

-- `text or d`: the empty text counts as missing.
abbrev pub present : Option String → Option String
present none = none
present (some t) = if str_eq t "" then none else some t

module _ {D : Type 0} where
  -- `get_migration`: a row of another tenant is not found.
  unfoldable pub get_migration : Db D → ℕ → Option String → Option Migration
  get_migration db id tenant_id = elim (find migration_id_of id db.migrations) [
    | none ↦ none
    | some m ↦ elim tenant_id [
      | none ↦ some m
      | some tenant ↦ if str_eq m.tenant_id tenant then some m else none
    ]
  ]

  abbrev pub write : ℕ → (Migration → Migration) → Db D → Db D
  write id f db = record db { migrations = update migration_id_of id f db.migrations }

abbrev pub error_payload : Option String → Option (List (String × String))
error_payload none = none
error_payload (some code) = some (("error_code", code) ∷ [])

-- The writes of `set_migration_status` to the row.
unfoldable pub stamp_status : ℕ → Status → Migration → Migration
stamp_status now status m =
    let started : Option ℕ =
      if status_eq status validating && not (is_some m.started_at)
      then some now
      else m.started_at in
    if is_terminal status
    then record m {
      status = status;
      started_at = started;
      completed_at = some now;
      success = some (status_eq status completed);
    }
    else record m { status = status; started_at = started }

-- `max(0.0, min(100.0, progress))`
abbrev pub clamp : Percentage → Percentage
clamp p = if ltb (100 * p.den) p.num then record { num = 100; den = 1 } else p

-- The row that `create_migration` adds; the other columns of the request are not modelled.
abbrev pub pending_row : ℕ → ℕ → String → String → Migration
pending_row id vm_id tenant_id target_namespace = record {
  id = id;
  tenant_id = tenant_id;
  vm_id = vm_id;
  status = pending;
  celery_task_id = none;
  started_at = none;
  completed_at = none;
  progress_percentage = record { num = 0; den = 1 };
  current_step = none;
  current_step_number = 0;
  success = none;
  error_message = none;
  error_code = none;
  target_namespace = target_namespace;
  target_vm_name = none;
}

abbrev pub set_error : String → String → Migration → Migration
set_error error_code error_message m = record m {
  error_code = some error_code;
  error_message = some error_message;
}

-- `db.commit()` on a journal insertion that raised keeps the old tables; the actor types that the
-- emitters pass are all allowed.
module _ (h : Hash) where
  open h use {Digest}

  abbrev pub journal : NewEvent → Db Digest → Db Digest
  journal new db = record db { events = or_else (record_event h new db.events) db.events }

  -- `emit_state_transition` with `actor_id=None`
  unfoldable pub emit_state_transition :
      Migration
      → Option Status
      → Status
      → String
      → Option String
      → Option (List (String × String))
      → Db Digest
      → Db Digest
  emit_state_transition m from_status to_status actor_type message payload = journal (record {
    migration_id = m.id;
    tenant_id = m.tenant_id;
    event_type = state_transition;
    from_status = from_status;
    to_status = some to_status;
    actor_id = none;
    actor_type = actor_type;
    message = message;
    payload = payload;
  })

  -- `emit_stage_event` with `actor_id=None` and no payload
  unfoldable pub emit_stage_event : Migration → String → String → Db Digest → Db Digest
  emit_stage_event m message actor_type = journal (record {
    migration_id = m.id;
    tenant_id = m.tenant_id;
    event_type = stage_event;
    from_status = none;
    to_status = some m.status;
    actor_id = none;
    actor_type = actor_type;
    message = some message;
    payload = none;
  })

  -- `emit_classified_error`
  unfoldable pub emit_classified_error :
      Migration → String → String → String → Db Digest → Db Digest
  emit_classified_error m error_code message actor_type = journal (record {
    migration_id = m.id;
    tenant_id = m.tenant_id;
    event_type = classified_error;
    from_status = none;
    to_status = some m.status;
    actor_id = none;
    actor_type = actor_type;
    message = some message;
    payload = some (("error_code", error_code) ∷ []);
  })

  -- The journal entry of `set_migration_status`, on the row already written.
  unfoldable pub journal_status : Status → Migration → Db Digest → Db Digest
  journal_status old_status m =
      if status_eq old_status m.status
      then (λ db. db)
      else if status_eq m.status failed
      then emit_classified_error m (or_else (present m.error_code) "ERR_MIG_INTERNAL")
          (or_else (present m.error_message) "Migration failed") "worker"
      else emit_state_transition m (some old_status) m.status "worker" m.error_message
          (error_payload (present m.error_code))

  -- `set_migration_status`
  unfoldable pub set_migration_status : ℕ → ℕ → Status → Db Digest → Db Digest
  set_migration_status now id status db = elim (find migration_id_of id db.migrations) [
    | none ↦ db
    | some m ↦
        journal_status m.status (stamp_status now status m) (write id (stamp_status now status) db)
  ]

  -- `create_migration`; the id is the one that the database assigns.
  unfoldable pub create_migration : ℕ → ℕ → String → String → Db Digest → Db Digest
  create_migration id vm_id tenant_id target_namespace db =
      let m = pending_row id vm_id tenant_id target_namespace in
      emit_state_transition m none pending "system" (some "Migration created") none
        (record db { migrations = m ∷ db.migrations })

module _ {D : Type 0} where
  -- `fail_migration`
  unfoldable pub fail_migration : ℕ → String → String → Db D → Db D
  fail_migration id error_code error_message = write id (set_error error_code error_message)

  -- `update_migration_progress`
  unfoldable pub update_migration_progress : ℕ → Percentage → Option String → Option ℕ → Db D → Db D
  update_migration_progress id progress current_step step_number = write id λ m. record m {
    progress_percentage = clamp progress;
    current_step = elim current_step [ none ↦ m.current_step | some s ↦ some s ];
    current_step_number = or_else step_number m.current_step_number;
  }

  -- `delete_migration`: the foreign key of the journal is `ON DELETE NO ACTION`.
  unfoldable pub delete_migration : ℕ → Option String → Db D → Db D × Deletion
  delete_migration id tenant_id db = elim (get_migration db id tenant_id) [
    | none ↦ (db, not_found)
    | some m ↦
        if is_active m.status
        then (db, still_active)
        else if is_empty (rows_of id db.events)
        then (record db { migrations = remove id db.migrations }, deleted)
        else (db, has_audit_trail)
  ]
