-- ===== src/Migration/Mirror.antt =====
-- The newest journal entry of a migration shows the status of its row.
use shift_wise.Prelude.{
  ◌==◌, if◌then◌else◌, Bool-cases, Option-cases, map_option, ℕ, ◌≡◌, refl, ◌∙◌, inl, inr, true,
  ◌&&◌, not, Option, none, some, List, [], ◌∷◌, ◌++◌, arith,
}
use Prim.Native.String.{String}
use shift_wise.Rows.{find, find-update, find-id}
use shift_wise.Migration.Status.{status_eq→eq, Status, pending, failed, status_eq}
use shift_wise.Audit.Event.{Hash, Event}
use shift_wise.Audit.Journal.{NewEvent, log_of, last?, new_row, record_event, is_allowed_actor}
use shift_wise.Audit.Journal.Integrity.{log_of-new_row}
use shift_wise.Migration.Crud.{
  Migration, Db, migration_id_of, write, pending_row, stamp_status, journal, journal_status,
  emit_state_transition, emit_classified_error, set_migration_status, create_migration,
}

module _ {D : Type 0} where
  abbrev to_status? : Option (Event D) → Option Status
  to_status? none = none
  to_status? (some e) = e.to_status

  -- The status that the newest entry of a migration shows.
  abbrev pub shown_status : ℕ → List (Event D) → Option Status
  shown_status id es = to_status? (last? (log_of id es))

  last?-append : (es : List (Event D)) (e : Event D) → last? (es ++ e ∷ []) ≡ some e
  last?-append [] e = refl
  last?-append (r ∷ es) e = rw (last?-append es e, last?)

  -- Every migration has a journal, and the newest entry shows the status of the row.
  pub record IsMirrored (db : Db D) : Type 0 where
    pub shows :
        (id : ℕ) (m : Migration)
        → find migration_id_of id db.migrations ≡ some m
        → shown_status id db.events ≡ some m.status

  -- The status of a row, if there is one.
  abbrev pub status_at : ℕ → Db D → Option Status
  status_at id db = map_option (λ (m : Migration). m.status) (find migration_id_of id db.migrations)

  pub IsMirrored-shown_status :
      (db : Db D) (id : ℕ) (status : Status)
      → IsMirrored db
      → status_at id db ≡ some status
      → shown_status id db.events ≡ some status
  IsMirrored-shown_status db id status mirrored p =
      elim (Option-cases (find migration_id_of id db.migrations)) [
        | inl missing ↦ ground (arith, missing)
        | inr (m, found) ↦ ground (arith, found, mirrored.shows id m found)
      ]

module _ (h : Hash) where
  open h use {Digest}

  shown_status-journal :
      (new : NewEvent) (db : Db Digest) (id : ℕ)
      → is_allowed_actor new.actor_type ≡ true
      → shown_status id (journal h new db).events
        ≡ (if new.migration_id == id then new.to_status else shown_status id db.events)
  unfolding record_event
  shown_status-journal new db id allowed =
      rw (allowed, log_of-new_row)
        (elim (Bool-cases (new.migration_id == id)) [
          | inl mine ↦ rw (mine, last?-append) (unfold new_row in refl)
          | inr other ↦ rw other
        ])

  shown_status-journal_status :
      (old : Status) (m : Migration) (db : Db Digest) (id : ℕ)
      → shown_status id (journal_status h old m db).events ≡ (
          if not (status_eq old m.status) && m.id == id
          then some m.status
          else shown_status id db.events)
  unfolding journal_status emit_state_transition emit_classified_error
  shown_status-journal_status old m db id = elim (Bool-cases (status_eq old m.status)) [
    | inl same ↦ rw same
    | inr moved ↦ elim (Bool-cases (status_eq m.status failed)) [
      | inl e ↦ rw (moved, e) (shown_status-journal _ db id refl)
      | inr e ↦ rw (moved, e) (shown_status-journal _ db id refl)
    ]
  ]

module _ {D : Type 0} where
  -- A write that keeps ids and statuses.
  pub write-IsMirrored :
      (id : ℕ) (f : Migration → Migration) (db : Db D)
      → ((m : Migration) → ((f m).id ≡ m.id) × ((f m).status ≡ m.status))
      → IsMirrored db
      → IsMirrored (write id f db)
  write-IsMirrored id f db keep mirrored = record {
    shows = λ k m p. elim (Option-cases (find migration_id_of k db.migrations)) [
      | inl missing ↦
          ground (
            arith,
            missing,
            find-update migration_id_of id k f db.migrations (λ r e. (keep r).0 ∙ e),
          )
      | inr (r, found) ↦ ground (
        arith,
        found,
        keep r,
        mirrored.shows k r,
        find-update migration_id_of id k f db.migrations (λ r e. (keep r).0 ∙ e),
      )
    ];
  }

stamp_status-fields :
    (now : ℕ) (status : Status) (m : Migration)
    → ((stamp_status now status m).id ≡ m.id) × ((stamp_status now status m).status ≡ status)
unfolding stamp_status
stamp_status-fields now status m = ground arith

module _ (h : Hash) where
  open h use {Digest}

  migrations-journal_status :
      (old : Status) (m : Migration) (db : Db Digest)
      → (journal_status h old m db).migrations ≡ db.migrations
  unfolding journal_status emit_state_transition emit_classified_error
  migrations-journal_status old m db = elim (Bool-cases (status_eq old m.status)) [
    | inl same ↦ rw same
    | inr moved ↦ elim (Bool-cases (status_eq m.status failed)) [
      | inl e ↦ rw (moved, e)
      | inr e ↦ rw (moved, e)
    ]
  ]

  module _ (now id : ℕ) (status : Status) (db : Db Digest) (r : Migration)
      (found : find migration_id_of id db.migrations ≡ some r) where
    -- The row of a migration once its status is set.
    pub find-set_migration_status :
        (k : ℕ)
        → find migration_id_of k (set_migration_status h now id status db).migrations ≡ (
            if id == k
            then map_option (stamp_status now status) (find migration_id_of k db.migrations)
            else find migration_id_of k db.migrations)
    unfolding set_migration_status
    find-set_migration_status k =
        rw (found, set_migration_status, migrations-journal_status)
          (find-update migration_id_of id k (stamp_status now status) db.migrations
            (λ m e. (stamp_status-fields now status m).0 ∙ e))

    pub shown_status-set_migration_status :
        (k : ℕ)
        → shown_status k (set_migration_status h now id status db).events ≡ (
            if not (status_eq r.status status) && id == k
            then some status
            else shown_status k db.events)
    unfolding set_migration_status
    shown_status-set_migration_status k =
        rw (found, set_migration_status)
          (ground (
            arith,
            stamp_status-fields now status r,
            find-id migration_id_of id db.migrations r found,
            shown_status-journal_status h r.status (stamp_status now status r)
                (write id (stamp_status now status) db) k,
          ))

    pub status_at-set_migration_status :
        status_at id (set_migration_status h now id status db) ≡ some status
    status_at-set_migration_status =
        ground (arith, find-set_migration_status id, found, stamp_status-fields now status r)

    set_found-IsMirrored : IsMirrored db → IsMirrored (set_migration_status h now id status db)
    set_found-IsMirrored mirrored = record {
      shows = λ k m p. elim (Option-cases (find migration_id_of k db.migrations)) [
        | inl missing ↦ ground (arith, missing, found, find-set_migration_status k)
        | inr (r', there) ↦ ground (
          arith,
          there,
          found,
          find-set_migration_status k,
          shown_status-set_migration_status k,
          mirrored.shows k r',
          stamp_status-fields now status r',
          status_eq→eq r.status status,
        )
      ];
    }

  pub set_migration_status-IsMirrored :
      (now id : ℕ) (status : Status) (db : Db Digest)
      → IsMirrored db
      → IsMirrored (set_migration_status h now id status db)
  set_migration_status-IsMirrored now id status db mirrored =
      elim (Option-cases (find migration_id_of id db.migrations)) [
        | inl missing ↦ unfold set_migration_status in (rw (missing, set_migration_status) mirrored)
        | inr (r, found) ↦ set_found-IsMirrored now id status db r found mirrored
      ]

  shown_status-create_migration :
      (id vm_id : ℕ) (tenant_id target_namespace : String) (db : Db Digest) (k : ℕ)
      → shown_status k (create_migration h id vm_id tenant_id target_namespace db).events
        ≡ (if id == k then some pending else shown_status k db.events)
  unfolding create_migration emit_state_transition
  shown_status-create_migration id vm_id tenant_id target_namespace db k =
      shown_status-journal h _
        (record db { migrations = pending_row id vm_id tenant_id target_namespace ∷ db.migrations })
        k refl

  pub create_migration-IsMirrored :
      (id vm_id : ℕ) (tenant_id target_namespace : String) (db : Db Digest)
      → IsMirrored db
      → IsMirrored (create_migration h id vm_id tenant_id target_namespace db)
  create_migration-IsMirrored id vm_id tenant_id target_namespace db mirrored = record {
    shows = λ k m p.
        rw shown_status-create_migration (
          unfold create_migration emit_state_transition find in ground (arith, mirrored.shows k m));
  }
