-- ===== src/Conversion/Moves.antt =====
-- The stages of `run_job` of backend/app/services/converter/service.py, as the writes and the calls
-- that can raise, in order. Sizes are numbers of bytes; the columns of a job that only name its files
-- are not modelled.
use Prim.Native.String.{String}
use shift_wise.Prelude.{
  ltb, ◌==◌, if◌then◌else◌, or_else, is_some, ℕ, ◌+◌, ◌*◌, ◌/◌, max, min, Bool, true, false, ◌&&◌,
  not, Option, none, some, List, [], ◌∷◌, ◌++◌,
}
use shift_wise.Text.{Text}
use shift_wise.Conversion.Crud.{
  JobStatus, staging, converting, verifying, in_progress, Job, Db, set_job_status, set_group_status,
}
use shift_wise.Conversion.Errors.{classify_k8s_failure}
use shift_wise.Conversion.Plan.{Tool, passthrough, qemu_img, virt_v2v}

-- The code and the message of a `ConversionError`.
pub record Error : Type 0 where
  pub code : String
  pub message : String

abbrev raised : String → String → Option Error
raised code message = some (record { code = code; message = message })

pub data Move : Type 0 where
  job_status : JobStatus → ℕ → Move
  group_in_progress : Move
  call : Option Error → Move

-- How the copy of a staged file goes: it raises, leaving what it leaves; or the sizes cannot be
-- read; or it writes that many bytes, and then the staged file may be removed or not.
pub data Copy : Type 0 where
  copy_fails : Option ℕ → Copy
  stat_fails : Option ℕ → Copy
  copies : ℕ → Bool → Copy

-- The sizes of the staged file and of the output, where they are.
pub record Files : Type 0 where
  pub staged : Option ℕ
  pub output : Option ℕ

-- `_passthrough` on a staged file of a size.
unfoldable pub passthrough_copy : Copy → ℕ → Files × Option Error
passthrough_copy (copy_fails left) size =
    (record { staged = some size; output = left }, raised "ERR_INTERNAL" "passthrough copy failed")
passthrough_copy (stat_fails left) size = (
  record { staged = some size; output = left },
  raised "ERR_OUTPUT_INVALID" "passthrough verify failed",
)
passthrough_copy (copies written removed) size =
    if not (written == size)
    then (
      record { staged = some size; output = some written },
      raised "ERR_OUTPUT_INVALID" "passthrough size mismatch",
    )
    else (record { staged = (if removed then none else some size); output = some written }, none)

-- What the stages meet. A progress callback is given the bytes done and their total.
pub record Work : Type 0 where
  -- Whether the VM has a hypervisor and the group is there.
  pub has_source : Bool
  pub has_group : Bool
  pub source_size : ℕ
  -- The space that is asked for, and what is free.
  pub required : ℕ
  pub free : ℕ
  pub pulled : List (ℕ × ℕ)
  pub pull : Option Error
  -- The size of the staged file, if it is there.
  pub staged : Option ℕ
  pub tool : Tool
  pub copy : Copy
  -- The reason and the exit code of a job in the cluster that failed.
  pub job_failure : Option (Text × Option ℕ)
  -- The size of the output, if it is there.
  pub output : Option ℕ

abbrev when : Bool → String → String → Option Error
when true code message = raised code message
when false code message = none

-- `int(min(limit, (done / max(total, 1)) * 50))`
abbrev pub staging_pct : ℕ → ℕ × ℕ → ℕ
staging_pct limit (done, total) = min limit (done * 50 / max total 1)

unfoldable pub pull_moves : List (ℕ × ℕ) → List Move
pull_moves [] = []
pull_moves (turn ∷ turns) = job_status staging (staging_pct 99 turn) ∷ pull_moves turns

-- `_stage`
abbrev pub stage_moves : Work → List Move
stage_moves w =
    job_status staging 0
      ∷ group_in_progress
      ∷ call (when (not w.has_source) "ERR_VM_NOT_FOUND" "VM or its hypervisor is gone")
      ∷ call (when (not w.has_group) "ERR_INTERNAL" "group disappeared mid-flight")
      ∷ call (
          when (not (w.required == 0) && ltb w.free w.required) "ERR_NFS_INSUFFICIENT_SPACE"
            "not enough space")
      ∷ pull_moves w.pulled
    ++ call w.pull ∷ []

-- `_run_in_cluster`, where the tool is known
abbrev pub cluster_error : Option (Text × Option ℕ) → Option Error
cluster_error none = none
cluster_error (some (reason, exit_code)) =
    raised (classify_k8s_failure reason exit_code) "converter Job failed"

abbrev pub tool_error : Work → ℕ → Option Error
tool_error w size = elim w.tool [
  | passthrough ↦ (passthrough_copy w.copy size).1
  | qemu_img ↦ cluster_error w.job_failure
  | virt_v2v ↦ cluster_error w.job_failure
]

-- `_convert`
abbrev pub convert_moves : Work → List Move
convert_moves w =
    job_status converting 50
    ∷ call (when (not (is_some w.staged)) "ERR_INTERNAL" "staged file missing")
    ∷ call (tool_error w (or_else w.staged 0))
    ∷ []

-- The tests of `_verify`: an output of less than a twentieth of the source is refused.
unfoldable pub output_error : Option ℕ → ℕ → Option Error
output_error none source_size = raised "ERR_OUTPUT_INVALID" "output missing"
output_error (some size) source_size =
    if size == 0
    then raised "ERR_OUTPUT_INVALID" "output file is empty"
    else when (ltb 0 source_size && ltb size (source_size * 5 / 100)) "ERR_OUTPUT_INVALID"
        "output too small"

-- `_verify`
abbrev pub verify_moves : Work → List Move
verify_moves w = job_status verifying 95 ∷ call (output_error w.output w.source_size) ∷ []

-- The stages where `CONVERTER_SOURCE_CONVERT_SFTP` is off, as it is by default.
unfoldable pub moves_of : Work → List Move
moves_of w = stage_moves w ++ convert_moves w ++ verify_moves w

abbrev pub fails : Move → Bool
fails (call (some error)) = true
fails _ = false

-- The moves of a job up to the first exception; `clock` gives the time of each.
unfoldable pub run_moves : (ℕ → ℕ) → ℕ → Job → List Move → Db → Db × Option Error
run_moves clock n job [] db = (db, none)
run_moves clock n job (job_status status pct ∷ moves) db =
    run_moves clock (n + 1) job moves
      (set_job_status (clock n) job.id status none none (some pct) db)
run_moves clock n job (group_in_progress ∷ moves) db =
    run_moves clock (n + 1) job moves (set_group_status (clock n) job.group_id in_progress none db)
run_moves clock n job (call none ∷ moves) db = run_moves clock (n + 1) job moves db
run_moves clock n job (call (some error) ∷ moves) db = (db, some error)
