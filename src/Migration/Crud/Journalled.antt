-- ===== src/Migration/Crud/Journalled.antt =====
-- The journal under the functions of Migration.Crud.
use shift_wise.Prelude.{
  Bool-cases, Option-cases, ℕ, ◌≡◌, ◌⊎◌, inl, inr, true, none, some, List, ◌∷◌,
}
use shift_wise.Audit.Event.{Hash, Event}
use shift_wise.Audit.Journal.{NewEvent, log_of, record_event, verify_event_chain}
use shift_wise.Audit.Journal.Integrity.{
  NumberedFrom, record_event-verify_event_chain, record_event-NumberedFrom,
}
use Prim.Native.String.{String}
use shift_wise.Rows.{find}
use shift_wise.Migration.Status.{Status, failed, status_eq}
use shift_wise.Migration.Crud.{
  pending_row, emit_classified_error, emit_state_transition, Migration, Db, journal, journal_status,
  set_migration_status, create_migration, migration_id_of, stamp_status, write,
}

module _ (h : Hash) where
  open h use {Digest}

  -- Every log verifies and is numbered 1, 2, 3, ….
  pub record IsSound (es : List (Event Digest)) : Type 0 where
    pub verifies : (m : ℕ) → verify_event_chain h m es ≡ (true, none)
    pub numbered : (m : ℕ) → NumberedFrom 1 (log_of m es)

  journal-cases :
      (new : NewEvent) (db : Db Digest)
      → ((journal h new db).events ≡ db.events)
        ⊎ (record_event h new db.events ≡ some (journal h new db).events)
  journal-cases new db = elim (Option-cases (record_event h new db.events)) [
    | inl refused ↦ inl (rw refused)
    | inr (es, accepted) ↦ inr (rw accepted)
  ]

  pub journal-IsSound :
      (new : NewEvent) (db : Db Digest) → IsSound db.events → IsSound (journal h new db).events
  journal-IsSound new db s = elim (journal-cases new db) [
    | inl same ↦ rw same s
    | inr accepted ↦ record {
      verifies = λ m.
          (record_event-verify_event_chain h new db.events (journal h new db).events m accepted
            (s.verifies m)).1;
      numbered = λ m.
          record_event-NumberedFrom h new db.events (journal h new db).events m accepted
            (s.numbered m);
    }
  ]

  journal_status-IsSound :
      (old : Status) (m : Migration) (db : Db Digest)
      → IsSound db.events
      → IsSound (journal_status h old m db).events
  unfolding journal_status emit_state_transition emit_classified_error
  journal_status-IsSound old m db s = elim (Bool-cases (status_eq old m.status)) [
    | inl same ↦ rw same s
    | inr moved ↦ elim (Bool-cases (status_eq m.status failed)) [
      | inl e ↦ rw (moved, e) (journal-IsSound _ db s)
      | inr e ↦ rw (moved, e) (journal-IsSound _ db s)
    ]
  ]

  pub set_migration_status-IsSound :
      (now id : ℕ) (status : Status) (db : Db Digest)
      → IsSound db.events
      → IsSound (set_migration_status h now id status db).events
  unfolding set_migration_status
  set_migration_status-IsSound now id status db s =
      elim (Option-cases (find migration_id_of id db.migrations)) [
        | inl missing ↦ rw (missing, set_migration_status) s
        | inr (m, found) ↦
            rw (found, set_migration_status)
              (journal_status-IsSound m.status (stamp_status now status m)
                (write id (stamp_status now status) db) s)
      ]

  pub create_migration-IsSound :
      (id vm_id : ℕ) (tenant_id target_namespace : String) (db : Db Digest)
      → IsSound db.events
      → IsSound (create_migration h id vm_id tenant_id target_namespace db).events
  unfolding create_migration emit_state_transition
  create_migration-IsSound id vm_id tenant_id target_namespace db s =
      journal-IsSound _
        (record db { migrations = pending_row id vm_id tenant_id target_namespace ∷ db.migrations })
        s
