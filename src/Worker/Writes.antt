-- ===== src/Worker/Writes.antt =====
-- What the writes of a run of `run_migration` do to the status of its row.
use Prim.Native.String.{String}
use shift_wise.Prelude.{
  if◌then◌else◌, Bool-cases, Option-cases, all, ℕ, ◌+◌, ◌≡◌, refl, ◌∙◌, inl, inr, true, false,
  Option, some, List, [], ◌∷◌, arith,
}
use shift_wise.Rows.{find, find-update}
use shift_wise.Audit.Event.{Hash}
use shift_wise.Migration.Status.{Status, is_terminal, failed}
use shift_wise.Migration.Crud.{
  Migration, Db, Percentage, migration_id_of, set_migration_status, update_migration_progress,
  emit_stage_event, fail_migration, write, set_error,
}
use shift_wise.Migration.Mirror.{status_at, status_at-set_migration_status}
use shift_wise.Migration.Endpoints.{fail}
use shift_wise.Worker.Steps.{
  Step, set_status, progress, stage, name_vm, attempt, set_target, failure_of, is_due, emit_stage,
  perform, run_steps, keeps_active,
}

module _ (h : Hash) (id : ℕ) where
  open h use {Digest}

  pub status_at-set :
      (now : ℕ) (status old : Status) (db : Db Digest)
      → status_at id db ≡ some old
      → status_at id (set_migration_status h now id status db) ≡ some status
  status_at-set now status old db there =
      elim (Option-cases (find migration_id_of id db.migrations)) [
        | inl missing ↦ absurd (ground (arith, missing))
        | inr (m, found) ↦ status_at-set_migration_status h now id status db m found
      ]

  status_at-write :
      (f : Migration → Migration) (db : Db Digest)
      → ((m : Migration) → ((f m).id ≡ m.id) × ((f m).status ≡ m.status))
      → status_at id (write id f db) ≡ status_at id db
  status_at-write f db keep = elim (Option-cases (find migration_id_of id db.migrations)) [
    | inl missing ↦ ground (
      arith,
      missing,
      find-update migration_id_of id id f db.migrations (λ m e. ground (arith, (keep m).0)),
    )
    | inr (m, found) ↦ ground (
      arith,
      found,
      keep m,
      find-update migration_id_of id id f db.migrations (λ m e. ground (arith, (keep m).0)),
    )
  ]

  pub status_at-progress :
      (percentage : Percentage) (current_step : String) (step_number : ℕ) (db : Db Digest)
      → status_at id
          (update_migration_progress id percentage (some current_step) (some step_number) db)
        ≡ status_at id db
  unfolding update_migration_progress
  status_at-progress percentage current_step step_number db =
      status_at-write _ db (λ m. (refl, refl))

  status_at-emit_stage :
      (message : String) (db : Db Digest)
      → status_at id (emit_stage h id message db) ≡ status_at id db
  unfolding emit_stage emit_stage_event
  status_at-emit_stage message db = ground arith

  pub status_at-fail :
      (now : ℕ) (code message : String) (old : Status) (db : Db Digest)
      → status_at id db ≡ some old
      → is_terminal old ≡ false
      → status_at id (fail h now id code message db) ≡ some failed
  unfolding fail fail_migration
  status_at-fail now code message old db there active =
      let marked = write id (set_error code message) db in
      ground (
        arith,
        status_at-write (set_error code message) db (λ m. (refl, refl)),
        status_at-set now failed old marked,
      )

  status_at-perform :
      (now : ℕ) (step : Step) (db : Db Digest) (old : Status)
      → keeps_active step ≡ true
      → status_at id db ≡ some old
      → is_terminal old ≡ false
      → (new : Status) × (status_at id (perform h id now step db) ≡ some new)
        × (is_terminal new ≡ false)
  unfolding perform
  status_at-perform now (set_status status) db old keeps there active =
      (status, status_at-set now status old db there, ground arith)
  status_at-perform now (progress percentage current_step step_number) db old keeps there active =
      (old, status_at-progress percentage current_step step_number db ∙ there, active)
  status_at-perform now (stage message) db old keeps there active =
      (old, status_at-emit_stage message db ∙ there, active)
  status_at-perform now (name_vm name fallback) db old keeps there active =
      (old, status_at-write (set_target name fallback) db (λ m. (refl, refl)) ∙ there, active)
  status_at-perform now (attempt failure) db old keeps there active = (old, there, active)

  -- The row is there and not finished.
  abbrev pub Active : Db Digest → Type 0
  Active db = (new : Status) × (status_at id db ≡ some new) × (is_terminal new ≡ false)

  pub run_steps-Active :
      (clock : ℕ → ℕ) (limit : Option ℕ) (n : ℕ) (steps : List Step) (db : Db Digest)
      → all keeps_active steps ≡ true
      → Active db
      → Active ((run_steps h id clock limit n steps db).0)
  unfolding run_steps
  run_steps-Active clock limit n [] db keeps live = live
  run_steps-Active clock limit n (step ∷ steps) db keeps (old, there, active) =
      let now = status_at-perform (clock n) step db old (ground arith) there active in
      let rest =
        run_steps-Active clock limit (n + 1) steps (perform h id (clock n) step db) (ground arith)
          now in
      elim (Bool-cases (is_due limit n)) [
        | inl due ↦ rw (due, if◌then◌else◌) (old, there, active)
        | inr on ↦ elim (Option-cases (failure_of step)) [
          | inr (failure, fails) ↦ rw (on, fails) (old, there, active)
          | inl well ↦ rw (on, well) rest
        ]
      ]
