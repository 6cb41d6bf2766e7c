-- ===== src/Compat/Analyzer/Soundness.antt =====
-- What an analysis leaves on the row of a VM, whatever the model predicts.
use shift_wise.Prelude.{
  Option-cases, any, ℕ, ◌≡◌, refl, ap, ◌∙◌, inl, inr, Bool, true, false, ◌||◌, not, Option, none,
  some, List, arith,
}
use shift_wise.Rows.{find, find-update, find-id}
use shift_wise.Compat.Rules.{RuleResult, VmFacts, evaluate_all}
use shift_wise.Compat.Aggregate.{incompatible, aggregate}
use shift_wise.Compat.Grading.{blocks, grade-aggregate, blockers-aggregate}
use shift_wise.Compat.Analyzer.{
  analyze_vm, vm_id_of, find, start_analysis, analyze_locked, Label, grade_label, other_label,
  Model, Decision, Vm, decide_grade, decide_by_model, facts_of, analyze_row, can_migrate,
  is_unknown, is_analyzing, is_incompatible,
}

by_model_sound :
    (threshold : ℕ) (rules : List RuleResult) (label : Label) (confidence : ℕ)
    → is_incompatible (decide_by_model threshold (aggregate rules) (label, confidence)).grade
      ≡ any blocks rules
unfolding decide_by_model
by_model_sound threshold rules (grade_label incompatible) confidence =
    ground (arith, grade-aggregate rules, blockers-aggregate rules)
by_model_sound threshold rules (grade_label _) confidence =
    ground (arith, grade-aggregate rules, blockers-aggregate rules)
by_model_sound threshold rules (other_label _) confidence =
    ground (arith, grade-aggregate rules, blockers-aggregate rules)

-- The grade that is decided names a blocker exactly when the rules report one: the model refines
-- COMPATIBLE and PARTIAL, and never hides or invents a blocker.
pub decide_grade_sound :
    (model : Option Model) (threshold : ℕ) (rules : List RuleResult) (facts : VmFacts)
    (d : Decision)
    → decide_grade model threshold facts (aggregate rules) ≡ some d
    → is_incompatible d.grade ≡ any blocks rules
unfolding decide_grade
decide_grade_sound none threshold rules facts d h =
    ground (arith, grade-aggregate rules, blockers-aggregate rules)
decide_grade_sound (some predict) threshold rules facts d h = elim (Option-cases (predict facts)) [
  | inl failed ↦ cc failed
  | inr (p, answered) ↦ ground (arith, answered, by_model_sound threshold rules p.0 p.1)
]

abbrev is_fresh : Bool → Vm → Bool
is_fresh force vm = force || is_unknown vm.compatibility_status

analyze_row_sound :
    (model : Option Model) (threshold now : ℕ) (vm vm' : Vm)
    → analyze_row model threshold now vm ≡ some vm'
    → (can_migrate vm' ≡ not (any blocks (evaluate_all (facts_of vm))))
      × (is_analyzing vm'.status ≡ false)
      × (vm'.id ≡ vm.id)
unfolding analyze_row
analyze_row_sound model threshold now vm vm' h =
    elim (Option-cases
      (decide_grade model threshold (facts_of vm) (aggregate (evaluate_all (facts_of vm))))) [
        | inl failed ↦ cc failed
        | inr (d, decided) ↦ ground (
          arith,
          decided,
          decide_grade_sound model threshold (evaluate_all (facts_of vm)) (facts_of vm) d,
        )
      ]

facts_of-start_analysis : (vm : Vm) → facts_of (start_analysis vm) ≡ facts_of vm
unfolding facts_of
facts_of-start_analysis vm = refl

-- What one analysis leaves on the row that it locked.
record Analyzed (vm left : Vm) (reply : Option Vm) : Type 0 where
  same_id : left.id ≡ vm.id
  settled : is_analyzing left.status ≡ false
  returned :
      (vm' : Vm)
      → reply ≡ some vm'
      → (left ≡ vm') × (can_migrate vm' ≡ not (any blocks (evaluate_all (facts_of vm))))

analyze_locked_lem :
    (model : Option Model) (threshold now : ℕ) (force : Bool) (vm : Vm)
    → is_fresh force vm ≡ true
    → Analyzed vm
        (analyze_locked model threshold now force vm).0
        (analyze_locked model threshold now force vm).1
unfolding analyze_locked
analyze_locked_lem model threshold now force vm fresh =
    elim (Option-cases (analyze_row model threshold now (start_analysis vm))) [
      | inl failed ↦ record {
        same_id = ground (arith, failed);
        settled = ground (arith, failed);
        returned = λ vm' h. ground (arith, failed);
      }
      | inr (vm', done) ↦
          let sound = analyze_row_sound model threshold now (start_analysis vm) vm' done in
          record {
            same_id = ground (arith, done, sound);
            settled = ground (arith, done, sound);
            returned = λ v h. ground (arith, done, sound, facts_of-start_analysis vm);
          }
    ]

module _ (model : Option Model) (threshold now : ℕ) (force : Bool) (vms : List Vm) (vm_id : ℕ)
    (vm : Vm) (found : find vm_id_of vm_id vms ≡ some vm) (fresh : is_fresh force vm ≡ true) where
  left : Vm
  left = (analyze_locked model threshold now force vm).0

  left_lem : find vm_id_of vm_id (analyze_vm model threshold now force vms vm_id).0 ≡ some left
  unfolding analyze_vm left
  left_lem =
      let row = analyze_locked_lem model threshold now force vm fresh in
      ground (
        arith,
        found,
        find-update vm_id_of vm_id vm_id (λ _. (analyze_locked model threshold now force vm).0) vms
            (λ _ _. row.same_id ∙ find-id vm_id_of vm_id vms vm found),
      )

  -- A fresh analysis of a VM that exists never leaves its row in ANALYZING, also when the model
  -- raises or answers a label that is no grade.
  pub analyze_vm_settles :
      (row : Vm) × (find vm_id_of vm_id (analyze_vm model threshold now force vms vm_id).0
        ≡ some row)
      × (is_analyzing row.status ≡ false)
  unfolding left
  analyze_vm_settles =
      (left, left_lem, (analyze_locked_lem model threshold now force vm fresh).settled)

  -- Where a fresh analysis returns a row, that row is stored, and it can be migrated exactly when
  -- no rule of severity BLOCKER failed, whatever the model predicted.
  pub analyze_vm_sound :
      (vm' : Vm)
      → (analyze_vm model threshold now force vms vm_id).1 ≡ some vm'
      → (find vm_id_of vm_id (analyze_vm model threshold now force vms vm_id).0 ≡ some vm')
        × (can_migrate vm' ≡ not (any blocks (evaluate_all (facts_of vm))))
  unfolding left
  analyze_vm_sound vm' h =
      let r =
        (analyze_locked_lem model threshold now force vm fresh).returned vm'
          (unfold analyze_vm in ground (arith, found)) in
      (left_lem ∙ ap some r.0, r.1)
