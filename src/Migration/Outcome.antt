-- ===== src/Migration/Outcome.antt =====
-- What a failed start, a failure write and a final status leave behind.
use shift_wise.Prelude.{
  if◌then◌else◌, Bool-cases, map_option, ℕ, ◌≡◌, refl, inl, inr, true, false, Option, none, some,
  arith,
}
use Prim.Native.String.{String}
use shift_wise.Rows.{find, find-update}
use shift_wise.Migration.Status.{pending, validating, failed, status_eq, is_protected}
use shift_wise.Audit.Event.{Hash}
use shift_wise.Migration.Crud.{
  set_error, Migration, Db, get_migration, write, migration_id_of, set_migration_status,
  fail_migration,
}
use shift_wise.Migration.Mirror.{
  status_at, IsMirrored-shown_status, status_at-set_migration_status, IsMirrored, shown_status,
  write-IsMirrored, shown_status-set_migration_status, set_migration_status-IsMirrored,
}
use shift_wise.Migration.Endpoints.{start_migration, fail, back_to_pending}
use shift_wise.Migration.History.{get_migration-find}

module _ (h : Hash) (now id : ℕ) (db : Db (Hash.Digest h)) (m : Migration) where
  started :
      (tenant_id : Option String)
      → get_migration db id tenant_id ≡ some m
      → status_eq m.status pending ≡ true
      → (start_migration h now id tenant_id none db).0
        ≡ write id back_to_pending (set_migration_status h now id validating db)
  unfolding start_migration
  started tenant_id found waiting = rw (found, start_migration, waiting)

  failing :
      (code message : String)
      → find migration_id_of id db.migrations ≡ some m
      → is_protected m.status ≡ false
      → fail h now id code message db
        ≡ set_migration_status h now id failed (write id (set_error code message) db)
  unfolding fail fail_migration
  failing code message found exposed = rw (found, fail, exposed)

  -- A start that cannot reach the broker leaves the row of a waiting migration PENDING, while the
  -- newest journal entry shows VALIDATING.
  pub start_migration-diverges :
      (tenant_id : Option String)
      → get_migration db id tenant_id ≡ some m
      → m.status ≡ pending
      → (shown_status id (start_migration h now id tenant_id none db).0.events ≡ some validating)
        × (map_option
              (λ (row : Migration). row.status)
              (find migration_id_of id (start_migration h now id tenant_id none db).0.migrations)
            ≡ some pending)
  start_migration-diverges tenant_id found waiting =
      let there = get_migration-find db id tenant_id m found in
      let left = started tenant_id found (rw waiting) in
      let after = set_migration_status h now id validating db in
      (
        rw left (
            ground (
              arith,
              waiting,
              shown_status-set_migration_status h now id validating db m there id,
            )),
        rw left (
            ground (
              arith,
              status_at-set_migration_status h now id validating db m there,
              find-update migration_id_of id id back_to_pending after.migrations (λ r e. e),
            )),
      )

  fail-protected :
      (code message : String)
      → find migration_id_of id db.migrations ≡ some m
      → is_protected m.status ≡ true
      → fail h now id code message db ≡ db
  unfolding fail
  fail-protected code message found safe = rw (found, fail, safe)

  fail-exposed :
      (code message : String)
      → IsMirrored db
      → find migration_id_of id db.migrations ≡ some m
      → is_protected m.status ≡ false
      → (shown_status id (fail h now id code message db).events ≡ some failed)
        × (status_at id (fail h now id code message db) ≡ some failed)
  fail-exposed code message mirrored found exposed =
      let marked = write id (set_error code message) db in
      let written : find migration_id_of id marked.migrations ≡ some (set_error code message m) =
        rw (find-update migration_id_of id id (set_error code message) db.migrations (λ r e. e))
          (ground (arith, found)) in
      let status =
        status_at-set_migration_status h now id failed marked (set_error code message m) written in
      let shown =
        IsMirrored-shown_status (set_migration_status h now id failed marked) id failed
          (set_migration_status-IsMirrored h now id failed marked
            (write-IsMirrored id (set_error code message) db (λ r. (refl, refl)) mirrored))
          status in
      rw (failing code message found exposed) (shown, status)

  -- Where the newest entries of the journal show the rows, the failure handler keeps the status of
  -- a migration that is COMPLETED, CANCELLED or ROLLED_BACK and makes any other FAILED, and the
  -- newest entry of its journal shows the status that it leaves.
  pub fail_guarded :
      (code message : String)
      → IsMirrored db
      → find migration_id_of id db.migrations ≡ some m
      → let after = fail h now id code message db in
        let left = if is_protected m.status then m.status else failed in
        (status_at id after ≡ some left) × (shown_status id after.events ≡ some left)
  fail_guarded code message mirrored found = elim (Bool-cases (is_protected m.status)) [
    | inl safe ↦
        rw (fail-protected code message found safe, safe)
          (rw (found, status_at) refl, mirrored.shows id m found)
    | inr exposed ↦
        let done = fail-exposed code message mirrored found exposed in rw exposed (done.1, done.0)
  ]
