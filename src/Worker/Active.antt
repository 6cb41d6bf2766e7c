-- ===== src/Worker/Active.antt =====
-- The steps before COMPLETED set no terminal status.

use shift_wise.Prelude.{
  length, all, ℕ, ◌+◌, ◌≡◌, refl, Bool, true, Option, List, [], ◌∷◌, ◌++◌, arith,
}
use shift_wise.Worker.Steps.{Failure, Step, keeps_active}
use shift_wise.Worker.Pipeline.{
  Services, DiskJob, pipeline, wait_steps, adapter_steps, populate_steps, completed_jobs,
  conversion_steps, adaptation_steps, migrator_steps,
}

all-append :
    (p : Step → Bool) (xs ys : List Step)
    → all p xs ≡ true
    → all p ys ≡ true
    → all p (xs ++ ys) ≡ true
all-append p [] ys h k = k
all-append p (x ∷ xs) ys h k = ground (arith, all-append p xs ys)

wait_steps-active : (turns : List (ℕ × ℕ)) → all keeps_active (wait_steps turns) ≡ true
wait_steps-active [] = refl
wait_steps-active ((total, n) ∷ turns) = wait_steps-active turns

adapter_steps-active :
    (adapt_one : ℕ → Option Failure) (n i : ℕ) (jobs : List DiskJob)
    → all keeps_active (adapter_steps adapt_one n i jobs) ≡ true
unfolding adapter_steps
adapter_steps-active adapt_one n i [] = refl
adapter_steps-active adapt_one n i (job ∷ jobs) = adapter_steps-active adapt_one n (i + 1) jobs

populate_steps-active :
    (populate : ℕ → Option Failure) (n i : ℕ) (jobs : List DiskJob)
    → all keeps_active (populate_steps populate n i jobs) ≡ true
unfolding populate_steps
populate_steps-active populate n i [] = refl
populate_steps-active populate n i (job ∷ jobs) = populate_steps-active populate n (i + 1) jobs

module _ (s : Services) where
  conversion_steps-active : all keeps_active (conversion_steps s) ≡ true
  conversion_steps-active =
      all-append keeps_active (wait_steps s.waiting) _ (wait_steps-active s.waiting) refl

  adaptation_steps-active : all keeps_active (adaptation_steps s) ≡ true
  adaptation_steps-active =
      let jobs = completed_jobs s.jobs in
      all-append keeps_active (adapter_steps s.adapt_one (length jobs) 1 jobs) _
        (adapter_steps-active s.adapt_one (length jobs) 1 jobs) refl

  migrator_steps-active : all keeps_active (migrator_steps s) ≡ true
  migrator_steps-active =
      let jobs = completed_jobs s.jobs in
      all-append keeps_active (populate_steps s.populate (length jobs) 1 jobs) _
        (populate_steps-active s.populate (length jobs) 1 jobs) refl

  pub pipeline-active : all keeps_active (pipeline s) ≡ true
  unfolding pipeline
  pipeline-active =
      all-append keeps_active (conversion_steps s ++ adaptation_steps s) (migrator_steps s)
        (all-append keeps_active (conversion_steps s) (adaptation_steps s) conversion_steps-active
          adaptation_steps-active)
        migrator_steps-active
