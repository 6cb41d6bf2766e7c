-- ===== src/Worker/Success.antt =====
-- When the calls of a run of `run_migration` all go well.
use Prim.Native.String.{String}
use shift_wise.Prelude.{
  ◌==◌, or_else, is_some, length, any, all, ℕ, ◌+◌, ◌≡◌, refl, ◌∙◌, Bool, true, false, ◌&&◌, ◌||◌,
  not, Option, none, some, List, [], ◌∷◌, ◌++◌, arith,
}
use shift_wise.Migration.Crud.{present}
use shift_wise.Worker.Waiting.{Wait, ready, vanished, ended, timed_out}
use shift_wise.Worker.Steps.{Failure, Step, raises, attempt}
use shift_wise.Worker.Pipeline.{
  Services, DiskJob, pipeline, wait_steps, adapter_steps, populate_steps, completed_jobs,
  insert_job, conversion_steps, adaptation_steps, migrator_steps, conversion_end, adaptation_end,
  migrator_end, none_ready, validation, wait_failure,
}

abbrev is_clear : Option Failure → Bool
is_clear failure = not (is_some failure)

abbrev is_ready_group : Wait → Bool
is_ready_group ready = true
is_ready_group vanished = false
is_ready_group (ended s) = false
is_ready_group timed_out = false

-- A job whose image the services take.
abbrev pub is_usable : DiskJob → Bool
is_usable job = job.is_ready && is_some (present job.output_path)

-- The boot disk of a job is adapted, and every disk is copied.
abbrev pub goes_well : Services → DiskJob → Bool
goes_well s job =
    not (is_usable job)
    || (is_clear (s.populate job.disk_index)
        && (not (job.disk_index == 0) || is_clear (s.adapt_one job.disk_index)))

-- The VM may be migrated, the conversions end READY with at least one image, and no service fails on
-- what is asked of it.
abbrev pub succeeds : Services → Bool
succeeds s =
    or_else s.vm false
    && is_clear s.create_group
    && is_clear s.enqueue
    && is_ready_group s.wait
    && is_clear s.namespace
    && is_clear s.adapter_context
    && is_clear s.migrator_context
    && any is_usable s.jobs
    && all (goes_well s) s.jobs
    && is_clear s.create_vm
    && is_clear s.verify_running
    && is_clear s.stamp

any-raises-append : (xs ys : List Step) → any raises (xs ++ ys) ≡ (any raises xs || any raises ys)
any-raises-append [] ys = refl
any-raises-append (x ∷ xs) ys = ground (arith, any-raises-append xs ys)

wait_steps-raises : (turns : List (ℕ × ℕ)) → any raises (wait_steps turns) ≡ false
wait_steps-raises [] = refl
wait_steps-raises ((total, n) ∷ turns) = wait_steps-raises turns

abbrev adapts : (ℕ → Option Failure) → DiskJob → Bool
adapts adapt_one job = not (job.disk_index == 0) || is_clear (adapt_one job.disk_index)

abbrev copies : (ℕ → Option Failure) → DiskJob → Bool
copies populate job = is_clear (populate job.disk_index)

adapter_steps-raises :
    (adapt_one : ℕ → Option Failure) (n i : ℕ) (jobs : List DiskJob)
    → any raises (adapter_steps adapt_one n i jobs) ≡ not (all (adapts adapt_one) jobs)
unfolding adapter_steps
adapter_steps-raises adapt_one n i [] = refl
adapter_steps-raises adapt_one n i (job ∷ jobs) =
    ground (arith, adapter_steps-raises adapt_one n (i + 1) jobs)

populate_steps-raises :
    (populate : ℕ → Option Failure) (n i : ℕ) (jobs : List DiskJob)
    → any raises (populate_steps populate n i jobs) ≡ not (all (copies populate) jobs)
unfolding populate_steps
populate_steps-raises populate n i [] = refl
populate_steps-raises populate n i (job ∷ jobs) =
    ground (arith, populate_steps-raises populate n (i + 1) jobs)

all-insert_job :
    (p : DiskJob → Bool) (job : DiskJob) (jobs : List DiskJob)
    → all p (insert_job job jobs) ≡ (p job && all p jobs)
unfolding insert_job
all-insert_job p job [] = refl
all-insert_job p job (j ∷ jobs) = ground (arith, all-insert_job p job jobs)

all-completed_jobs :
    (p : DiskJob → Bool) (jobs : List DiskJob)
    → all p (completed_jobs jobs) ≡ all (λ job. not (is_usable job) || p job) jobs
unfolding completed_jobs
all-completed_jobs p [] = refl
all-completed_jobs p (job ∷ jobs) =
    ground (arith, all-completed_jobs p jobs, all-insert_job p job (completed_jobs jobs))

abbrev never : DiskJob → Bool
never job = false

none_ready-raises :
    (code : String) (jobs : List DiskJob) → raises (attempt (none_ready code jobs)) ≡ all never jobs
none_ready-raises code [] = refl
none_ready-raises code (job ∷ jobs) = refl

all-unusable :
    (jobs : List DiskJob)
    → all (λ job. not (is_usable job) || never job) jobs ≡ not (any is_usable jobs)
all-unusable [] = refl
all-unusable (job ∷ jobs) = ground (arith, all-unusable jobs)

all-goes_well :
    (s : Services) (jobs : List DiskJob)
    → all (goes_well s) jobs ≡ (
        all (λ job. not (is_usable job) || adapts s.adapt_one job) jobs
        && all (λ job. not (is_usable job) || copies s.populate job) jobs)
all-goes_well s [] = refl
all-goes_well s (job ∷ jobs) = ground (arith, all-goes_well s jobs)

wait_failure-raises : (w : Wait) → raises (attempt (wait_failure w)) ≡ not (is_ready_group w)
wait_failure-raises ready = refl
wait_failure-raises vanished = refl
wait_failure-raises (ended s) = refl
wait_failure-raises timed_out = refl

validation-raises : (vm : Option Bool) → raises (attempt (validation vm)) ≡ not (or_else vm false)
validation-raises none = refl
validation-raises (some true) = refl
validation-raises (some false) = refl

module _ (s : Services) where
  none_ready-unusable :
      (code : String)
      → raises (attempt (none_ready code (completed_jobs s.jobs))) ≡ not (any is_usable s.jobs)
  none_ready-unusable code =
      none_ready-raises code (completed_jobs s.jobs)
      ∙ all-completed_jobs never s.jobs
      ∙ all-unusable s.jobs

  conversion_steps-raises :
      any raises (conversion_steps s)
      ≡ not (
          or_else s.vm false
          && is_clear s.create_group
          && is_clear s.enqueue
          && is_ready_group s.wait)
  conversion_steps-raises = ground (
    arith,
    any-raises-append (wait_steps s.waiting) (conversion_end s),
    wait_steps-raises s.waiting,
    wait_failure-raises s.wait,
    validation-raises s.vm,
  )

  adaptation_steps-raises :
      any raises (adaptation_steps s)
      ≡ not (
          is_clear s.namespace
          && is_clear s.adapter_context
          && any is_usable s.jobs
          && all (λ job. not (is_usable job) || adapts s.adapt_one job) s.jobs)
  adaptation_steps-raises =
      let jobs = completed_jobs s.jobs in
      ground (
        arith,
        none_ready-unusable "ERR_ADAPT_QCOW2_MISSING",
        any-raises-append (adapter_steps s.adapt_one (length jobs) 1 jobs) adaptation_end,
        adapter_steps-raises s.adapt_one (length jobs) 1 jobs,
        all-completed_jobs (adapts s.adapt_one) s.jobs,
      )

  migrator_steps-raises :
      any raises (migrator_steps s)
      ≡ not (
          is_clear s.migrator_context
          && any is_usable s.jobs
          && all (λ job. not (is_usable job) || copies s.populate job) s.jobs
          && is_clear s.create_vm
          && is_clear s.verify_running
          && is_clear s.stamp)
  migrator_steps-raises =
      let jobs = completed_jobs s.jobs in
      ground (
        arith,
        none_ready-unusable "ERR_MIG_QCOW2_MISSING",
        any-raises-append (populate_steps s.populate (length jobs) 1 jobs) (migrator_end s),
        populate_steps-raises s.populate (length jobs) 1 jobs,
        all-completed_jobs (copies s.populate) s.jobs,
      )

  pub pipeline-raises : any raises (pipeline s) ≡ not (succeeds s)
  unfolding pipeline
  pipeline-raises = ground (
    arith,
    any-raises-append (conversion_steps s ++ adaptation_steps s) (migrator_steps s),
    any-raises-append (conversion_steps s) (adaptation_steps s),
    conversion_steps-raises,
    adaptation_steps-raises,
    migrator_steps-raises,
    all-goes_well s s.jobs,
  )
