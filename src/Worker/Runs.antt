-- ===== src/Worker/Runs.antt =====
-- How a run of `run_migration` ends.

use shift_wise.Prelude.{
  leb, if◌then◌else◌, length, any, ℕ, ◌+◌, ◌≡◌, refl, ap, ◌∙◌, Bool, false, ◌&&◌, not, Option, none,
  some, List, [], ◌∷◌, arith,
}
use shift_wise.Rows.{find}
use shift_wise.Audit.Event.{Hash}
use shift_wise.Migration.Status.{Status, is_terminal, completed, failed}
use shift_wise.Migration.Crud.{Migration, Db, migration_id_of, set_migration_status}
use shift_wise.Migration.Mirror.{status_at}
use shift_wise.Worker.Steps.{
  Raised, raised, soft_time_limit, Step, perform, run_steps, raises, steps_before,
}
use shift_wise.Worker.Active.{pipeline-active}
use shift_wise.Worker.Pipeline.{
  Services, Outcome, returned, time_limit_exceeded, pipeline, conclude, run_migration,
}
use shift_wise.Worker.Success.{succeeds, pipeline-raises}
use shift_wise.Worker.Writes.{status_at-set, status_at-progress, status_at-fail, run_steps-Active}

-- What a run ends with, by what its steps raise.
abbrev ends_as : Option Raised → Outcome
ends_as none = returned completed
ends_as (some (raised e)) = returned failed
ends_as (some soft_time_limit) = time_limit_exceeded

-- The status in which a delivery that ends so leaves the row.
abbrev pub settled : Outcome → Status
settled (returned status) = status
settled time_limit_exceeded = failed

-- Whether the time limit passes before that many steps are over.
abbrev pub exceeds : Option ℕ → ℕ → Bool
exceeds none n = false
exceeds (some limit) n = leb limit n

-- What a delivery ends with.
abbrev pub outcome_of : Option ℕ → Services → Outcome
outcome_of limit s =
    if exceeds limit (steps_before (pipeline s))
    then time_limit_exceeded
    else returned (if succeeds s then completed else failed)

-- Whether the time limit passes within `k` more steps after step `n`.
abbrev within : Option ℕ → ℕ → ℕ → Bool
within none n k = false
within (some limit) n k = leb n limit && leb limit (n + k)

module _ (h : Hash) (id : ℕ) where
  open h use {Digest}

  run_steps-raised :
      (clock : ℕ → ℕ) (limit : Option ℕ) (n : ℕ) (steps : List Step) (db : Db Digest)
      → ends_as ((run_steps h id clock limit n steps db).1) ≡ (
          if within limit n (steps_before steps)
          then time_limit_exceeded
          else returned (if any raises steps then failed else completed))
  unfolding run_steps
  run_steps-raised clock none n [] db = refl
  run_steps-raised clock (some limit) n [] db = ground arith
  run_steps-raised clock none n (step ∷ steps) db =
      let next = perform h id (clock n) step db in
      ground (arith, run_steps-raised clock none (n + 1) steps next)
  run_steps-raised clock (some limit) n (step ∷ steps) db =
      let next = perform h id (clock n) step db in
      ground (arith, run_steps-raised clock (some limit) (n + 1) steps next)

  conclude-settled :
      (now : ℕ) (r : Option Raised) (old : Status) (db : Db Digest)
      → status_at id db ≡ some old
      → is_terminal old ≡ false
      → ((conclude h id now r db).1 ≡ ends_as r)
        × (status_at id ((conclude h id now r db).0) ≡ some (settled (ends_as r)))
  unfolding conclude
  conclude-settled now none old db there active = (
    refl,
    status_at-progress h id _ _ _ (set_migration_status h now id completed db)
        ∙ status_at-set h id now completed old db there,
  )
  conclude-settled now (some (raised e)) old db there active =
      (refl, status_at-fail h id now e.code e.message old db there active)
  conclude-settled now (some soft_time_limit) old db there active =
      (refl, status_at-fail h id now "ERR_TIMEOUT" "Soft time limit exceeded" old db there active)

outcome_of-within :
    (limit : Option ℕ) (k : ℕ) (raising well : Bool) (o : Outcome)
    → o ≡ (
        if within limit 0 k
        then time_limit_exceeded
        else returned (if raising then failed else completed))
    → raising ≡ not well
    → o ≡ (
        if exceeds limit k
        then time_limit_exceeded
        else returned (if well then completed else failed))
outcome_of-within none k raising well o is opposite = ground arith
outcome_of-within (some limit) k raising well o is opposite = ground arith

outcome_of-raised :
    (h : Hash) (id : ℕ) (clock : ℕ → ℕ) (limit : Option ℕ) (s : Services) (db : Db (Hash.Digest h))
    → ends_as ((run_steps h id clock limit 0 (pipeline s) db).1) ≡ outcome_of limit s
outcome_of-raised h id clock limit s db =
    outcome_of-within limit (steps_before (pipeline s)) (any raises (pipeline s)) (succeeds s) _
      (run_steps-raised h id clock limit 0 (pipeline s) db) (pipeline-raises s)

-- A delivery of the task for a migration that is there and not finished always finishes it. It
-- returns COMPLETED when the VM may be migrated, its conversions end READY with an image, and no
-- service fails on what it is asked; it returns FAILED otherwise. Only where the soft time limit
-- passes before the first failure, or before the end, does it raise instead. The row is left in
-- the status that it returns, and FAILED where it raises.
pub run_migration-finishes :
    (h : Hash) (id : ℕ) (clock : ℕ → ℕ) (limit : Option ℕ) (s : Services) (db : Db (Hash.Digest h))
    (m : Migration)
    → find migration_id_of id db.migrations ≡ some m
    → is_terminal m.status ≡ false
    → ((run_migration h id clock limit s db).1 ≡ outcome_of limit s)
      × (status_at id ((run_migration h id clock limit s db).0)
          ≡ some (settled (outcome_of limit s)))
unfolding run_migration
run_migration-finishes h id clock limit s db m found active =
    let r = run_steps h id clock limit 0 (pipeline s) db in
    let (new, there, still) =
      run_steps-Active h id clock limit 0 (pipeline s) db (pipeline-active s)
        (m.status, ground (arith, found), active) in
    let (answer, left) =
      conclude-settled h id (clock (length (pipeline s))) (r.1) new (r.0) there still in
    let raised : ends_as (r.1) ≡ outcome_of limit s = outcome_of-raised h id clock limit s db in
    rw (found, run_migration, active) (answer ∙ raised, left ∙ ap (λ o. some (settled o)) raised)
