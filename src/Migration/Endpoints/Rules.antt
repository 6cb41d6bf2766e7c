-- ===== src/Migration/Endpoints/Rules.antt =====
-- What an endpoint keeps, from what its parts keep: a predicate on the tables holds behind the
-- endpoint if it holds behind each way through it.
use shift_wise.Prelude.{
  Bool-cases, Option-cases, is_empty, ℕ, ◌≡◌, inl, inr, Option, some, [], arith,
}
use Prim.Native.String.{String}
use shift_wise.Rows.{find}
use shift_wise.Migration.Status.{
  pending, validating, failed, cancelled, status_eq, is_active, is_protected,
}
use shift_wise.Audit.Event.{Hash}
use shift_wise.Audit.Journal.{rows_of}
use shift_wise.Migration.Crud.{
  Migration, Db, get_migration, write, set_migration_status, fail_migration, delete_migration,
  remove, migration_id_of,
}
use shift_wise.Migration.Endpoints.{start_migration, cancel_migration, fail, enqueue, set_reason}

module _ (h : Hash) where
  open h use {Digest}

  module _ (P : Db Digest → Type 0) (now id : ℕ) (db : Db Digest) (before : P db) where
    pub start_rule :
        (tenant_id task : Option String)
        → P (enqueue id task (set_migration_status h now id validating db)).0
        → P (start_migration h now id tenant_id task db).0
    unfolding start_migration
    start_rule tenant_id task queued = elim (Option-cases (get_migration db id tenant_id)) [
      | inl missing ↦ rw (missing, start_migration) before
      | inr (m, found) ↦ elim (Bool-cases (status_eq m.status pending)) [
        | inl waiting ↦ rw (found, start_migration, waiting) queued
        | inr other ↦ rw (found, start_migration, other) before
      ]
    ]

    pub cancel_rule :
        (tenant_id reason : Option String)
        → P (set_migration_status h now id cancelled (write id (set_reason reason) db))
        → P (cancel_migration h now id tenant_id reason db).0
    unfolding cancel_migration
    cancel_rule tenant_id reason stopped = elim (Option-cases (get_migration db id tenant_id)) [
      | inl missing ↦ rw (missing, cancel_migration) before
      | inr (m, found) ↦ elim (Bool-cases (is_active m.status)) [
        | inl active ↦ rw (found, cancel_migration, active) stopped
        | inr done ↦ rw (found, cancel_migration, done) before
      ]
    ]

    pub fail_rule :
        (code message : String)
        → P (set_migration_status h now id failed (fail_migration id code message db))
        → P (fail h now id code message db)
    unfolding fail
    fail_rule code message failing = elim (Option-cases (find migration_id_of id db.migrations)) [
      | inl missing ↦ rw (missing, fail) failing
      | inr (m, found) ↦ elim (Bool-cases (is_protected m.status)) [
        | inl safe ↦ rw (found, fail, safe) before
        | inr open_ ↦ rw (found, fail, open_) failing
      ]
    ]

    pub delete_rule :
        (tenant_id : Option String)
        → ((m : Migration)
            → get_migration db id tenant_id ≡ some m
            → rows_of id db.events ≡ []
            → P (record db { migrations = remove id db.migrations }))
        → P (delete_migration id tenant_id db).0
    unfolding delete_migration
    delete_rule tenant_id gone = elim (Option-cases (get_migration db id tenant_id)) [
      | inl missing ↦ rw (missing, delete_migration) before
      | inr (m, found) ↦ elim (Bool-cases (is_active m.status)) [
        | inl active ↦ rw (found, delete_migration, active) before
        | inr done ↦ elim (Bool-cases (is_empty (rows_of id db.events))) [
          | inl none_left ↦
              rw (found, delete_migration, done, none_left)
                (gone m found (ground (arith, none_left)))
          | inr kept ↦ rw (found, delete_migration, done, kept) before
        ]
      ]
    ]
