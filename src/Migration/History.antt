-- ===== src/Migration/History.antt =====
-- Sequences of transactions on the migrations, in the order in which the database commits them:
-- the API's, the worker's status writes and its failure handler.
use shift_wise.Prelude.{
  Option-cases, All, ℕ, ◌≡◌, refl, ◌≢◌, inl, inr, true, Option, none, some, List, [], ◌∷◌, arith,
}
use Prim.Native.String.{String}
use shift_wise.Rows.{find}
use shift_wise.Migration.Status.{cancelled, Status, validating, failed}
use shift_wise.Audit.Event.{Event, Hash}
use shift_wise.Audit.Journal.{ordered, verify_event_chain, rows_of, log_of}
use shift_wise.Migration.Crud.{
  Migration, Db, Percentage, deleted, get_migration, write, migration_id_of, set_migration_status,
  create_migration, fail_migration, update_migration_progress, delete_migration,
}
use shift_wise.Migration.Crud.Journalled.{
  IsSound, set_migration_status-IsSound, create_migration-IsSound,
}
use shift_wise.Audit.Journal.Integrity.{NumberedFrom}
use shift_wise.Migration.Mirror.{
  IsMirrored, shown_status, write-IsMirrored, set_migration_status-IsMirrored,
  create_migration-IsMirrored,
}
use shift_wise.Migration.Endpoints.Rules.{start_rule, cancel_rule, fail_rule, delete_rule}
use shift_wise.Migration.Endpoints.{
  enqueue, set_task, set_reason, start_migration, cancel_migration, fail,
}

-- The first number of each is the clock.
pub data Request : Type 0 where
  create : ℕ → ℕ → String → String → Request
  start : ℕ → ℕ → Option String → Option String → Request
  cancel : ℕ → ℕ → Option String → Option String → Request
  advance : ℕ → ℕ → Status → Request
  crash : ℕ → ℕ → String → String → Request
  progress : ℕ → Percentage → Option String → Option ℕ → Request
  delete : ℕ → Option String → Request

module _ {D : Type 0} where
  pub get_migration-find :
      (db : Db D) (id : ℕ) (tenant_id : Option String) (m : Migration)
      → get_migration db id tenant_id ≡ some m
      → find migration_id_of id db.migrations ≡ some m
  unfolding get_migration
  get_migration-find db id tenant_id m p = ground arith

  shown_status-nil : (id : ℕ) (es : List (Event D)) → rows_of id es ≡ [] → shown_status id es ≡ none
  unfolding log_of
  shown_status-nil id es p = rw (p, ordered)

module _ (h : Hash) where
  open h use {Digest}

  unfoldable pub perform : Request → Db Digest → Db Digest
  perform (create id vm_id tenant_id namespace) db =
      create_migration h id vm_id tenant_id namespace db
  perform (start now id tenant_id task) db = (start_migration h now id tenant_id task db).0
  perform (cancel now id tenant_id reason) db = (cancel_migration h now id tenant_id reason db).0
  perform (advance now id status) db = set_migration_status h now id status db
  perform (crash now id code message) db = fail h now id code message db
  perform (progress id percentage step number) db =
      update_migration_progress id percentage step number db
  perform (delete id tenant_id) db = (delete_migration id tenant_id db).0

  unfoldable pub perform_all : List Request → Db Digest → Db Digest
  perform_all [] db = db
  perform_all (r ∷ rs) db = perform_all rs (perform r db)

  abbrev pub empty_db : Db Digest
  empty_db = record { migrations = []; events = [] }

  abbrev HasSoundJournal : Db Digest → Type 0
  HasSoundJournal db = IsSound h db.events

  enqueue-IsSound :
      (id : ℕ) (task : Option String) (db : Db Digest)
      → IsSound h db.events
      → IsSound h (enqueue id task db).0.events
  enqueue-IsSound id none db s = s
  enqueue-IsSound id (some task_id) db s = s

  perform-IsSound :
      (r : Request) (db : Db Digest) → IsSound h db.events → IsSound h (perform r db).events
  unfolding perform fail_migration update_migration_progress
  perform-IsSound (create id vm_id tenant_id namespace) db s =
      create_migration-IsSound h id vm_id tenant_id namespace db s
  perform-IsSound (start now id tenant_id task) db s =
      start_rule h HasSoundJournal now id db s tenant_id task (
        enqueue-IsSound id task (set_migration_status h now id validating db)
          (set_migration_status-IsSound h now id validating db s))
  perform-IsSound (cancel now id tenant_id reason) db s =
      cancel_rule h HasSoundJournal now id db s tenant_id reason
        (set_migration_status-IsSound h now id cancelled (write id (set_reason reason) db) s)
  perform-IsSound (advance now id status) db s = set_migration_status-IsSound h now id status db s
  perform-IsSound (crash now id code message) db s =
      fail_rule h HasSoundJournal now id db s code message
        (set_migration_status-IsSound h now id failed (fail_migration id code message db) s)
  perform-IsSound (progress id percentage step number) db s = s
  perform-IsSound (delete id tenant_id) db s =
      delete_rule h HasSoundJournal 0 id db s tenant_id (λ m found none_left. s)

  perform_all-IsSound :
      (rs : List Request) (db : Db Digest)
      → IsSound h db.events
      → IsSound h (perform_all rs db).events
  unfolding perform_all
  perform_all-IsSound [] db s = s
  perform_all-IsSound (r ∷ rs) db s = perform_all-IsSound rs (perform r db) (perform-IsSound r db s)

  empty-IsSound : IsSound h []
  unfolding verify_event_chain log_of
  empty-IsSound = record { verifies = λ m. refl; numbered = λ m. tt }

  -- After any requests on an empty database, the journal of every migration passes the check of
  -- its chain and is numbered 1, 2, 3, … without a gap.
  pub perform_all-verify_event_chain :
      (rs : List Request) (m : ℕ)
      → (verify_event_chain h m (perform_all rs empty_db).events ≡ (true, none))
        × NumberedFrom 1 (log_of m (perform_all rs empty_db).events)
  perform_all-verify_event_chain rs m =
      let sound = perform_all-IsSound rs empty_db empty-IsSound in
      (sound.verifies m, sound.numbered m)

  -- The broker was reached, where the request needs it.
  abbrev pub ReachesBroker : Request → Type 0
  ReachesBroker (start now id tenant_id none) = ⊥
  ReachesBroker _ = Unit

  -- A migration of a mirrored database has journal entries.
  mirrored_has_rows :
      (db : Db Digest) (id : ℕ) (tenant_id : Option String) (m : Migration)
      → IsMirrored db
      → get_migration db id tenant_id ≡ some m
      → rows_of id db.events ≢ []
  mirrored_has_rows db id tenant_id m mirrored found none_left = cc (
    mirrored.shows id m (get_migration-find db id tenant_id m found),
    shown_status-nil id db.events none_left,
  )

  perform-IsMirrored :
      (r : Request) (db : Db Digest) → ReachesBroker r → IsMirrored db → IsMirrored (perform r db)
  unfolding perform fail_migration update_migration_progress
  perform-IsMirrored (create id vm_id tenant_id namespace) db b mirrored =
      create_migration-IsMirrored h id vm_id tenant_id namespace db mirrored
  perform-IsMirrored (start now id tenant_id none) db b mirrored = absurd b
  perform-IsMirrored (start now id tenant_id (some task_id)) db b mirrored =
      start_rule h IsMirrored now id db mirrored tenant_id (some task_id) (
        write-IsMirrored id (set_task task_id) (set_migration_status h now id validating db)
          (λ m. (refl, refl)) (set_migration_status-IsMirrored h now id validating db mirrored))
  perform-IsMirrored (cancel now id tenant_id reason) db b mirrored =
      cancel_rule h IsMirrored now id db mirrored tenant_id reason (
        set_migration_status-IsMirrored h now id cancelled (write id (set_reason reason) db)
          (write-IsMirrored id (set_reason reason) db (λ m. (refl, refl)) mirrored))
  perform-IsMirrored (advance now id status) db b mirrored =
      set_migration_status-IsMirrored h now id status db mirrored
  perform-IsMirrored (crash now id code message) db b mirrored =
      fail_rule h IsMirrored now id db mirrored code message (
        set_migration_status-IsMirrored h now id failed (fail_migration id code message db)
          (write-IsMirrored id _ db (λ m. (refl, refl)) mirrored))
  perform-IsMirrored (progress id percentage step number) db b mirrored =
      write-IsMirrored id _ db (λ m. (refl, refl)) mirrored
  perform-IsMirrored (delete id tenant_id) db b mirrored =
      delete_rule h IsMirrored 0 id db mirrored tenant_id
        (λ m found none_left. absurd (mirrored_has_rows db id tenant_id m mirrored found none_left))

  refused :
      (db : Db Digest) (id : ℕ) (tenant_id : Option String)
      → IsMirrored db
      → ((delete_migration id tenant_id db).1 ≢ deleted)
        × ((delete_migration id tenant_id db).0 ≡ db)
  unfolding delete_migration
  refused db id tenant_id mirrored = elim (Option-cases (get_migration db id tenant_id)) [
    | inl missing ↦ (ground (arith, missing), ground (arith, missing))
    | inr (m, found) ↦
        let busy = mirrored_has_rows db id tenant_id m mirrored found in
        (ground (arith, found, busy), ground (arith, found, busy))
  ]

  perform_all-IsMirrored_from :
      (rs : List Request) (db : Db Digest)
      → All ReachesBroker rs
      → IsMirrored db
      → IsMirrored (perform_all rs db)
  unfolding perform_all
  perform_all-IsMirrored_from [] db b mirrored = mirrored
  perform_all-IsMirrored_from (r ∷ rs) db b mirrored =
      perform_all-IsMirrored_from rs (perform r db) b.1 (perform-IsMirrored r db b.0 mirrored)

  pub perform_all-IsMirrored :
      (rs : List Request) → All ReachesBroker rs → IsMirrored (perform_all rs empty_db)
  perform_all-IsMirrored rs b =
      perform_all-IsMirrored_from rs empty_db b
        (record { shows = λ id m p. absurd (unfold find in cc p) })

  -- After any requests on an empty database in which every start reaches the broker, the newest
  -- journal entry of each migration shows the status of its row.
  pub perform_all-shown_status :
      (rs : List Request) (id : ℕ) (m : Migration)
      → All ReachesBroker rs
      → find migration_id_of id (perform_all rs empty_db).migrations ≡ some m
      → shown_status id (perform_all rs empty_db).events ≡ some m.status
  perform_all-shown_status rs id m b found = (perform_all-IsMirrored rs b).shows id m found

  -- After such requests no migration can be deleted, whoever asks: the answer is never that a row was deleted, and
  -- the tables stay as they are.
  pub delete_migration-refused :
      (rs : List Request) (id : ℕ) (tenant_id : Option String)
      → All ReachesBroker rs
      → ((delete_migration id tenant_id (perform_all rs empty_db)).1 ≢ deleted)
        × ((delete_migration id tenant_id (perform_all rs empty_db)).0 ≡ perform_all rs empty_db)
  delete_migration-refused rs id tenant_id b =
      refused (perform_all rs empty_db) id tenant_id (perform_all-IsMirrored rs b)
