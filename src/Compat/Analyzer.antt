-- ===== src/Compat/Analyzer.antt =====
-- backend/app/services/analyzer.py over a table of VMs. The estimator is a parameter: `none` is
-- the degraded mode, and a prediction that raises is `none`. Confidence and threshold are numbers
-- on one fixed scale. A raised exception is `none` here, and `analyze_vm` handles it.
pub mod Soundness
use shift_wise.Prelude.{
  leb, if◌then◌else◌, or_else, is_some, map_option, bool_ne, length, is_empty, ℕ, Bool, true, false,
  ◌&&◌, not, Option, none, some, List,
}
use shift_wise.Rows.{find, update}
use shift_wise.Text.{Text, codes}
use shift_wise.Compat.Rules.{Message, RuleResult, VmFacts, evaluate_all}
use shift_wise.Compat.Aggregate.{
  Grade, compatible, partial, incompatible, Strategy, Verdict, aggregate, recommend_strategy,
}

-- `VMStatus` and `CompatibilityStatus` of backend/app/models/virtual_machine.py.
pub data VmStatus : Type 0 where
  discovered analyzing compatible_vm incompatible_vm partial_vm : VmStatus
  migrating migrated failed_vm archived : VmStatus

pub data Compatibility : Type 0 where
  graded : Grade → Compatibility
  unknown : Compatibility

-- A class of the model: one of the three grades, or a label that no map of the module knows.
pub data Label : Type 0 where
  grade_label : Grade → Label
  other_label : Text → Label

pub data Engine : Type 0 where
  rules_engine model_engine : Engine

abbrev pub Model : Type 0
Model = VmFacts → Option (Label × ℕ)

pub record Decision : Type 0 where
  pub grade : Label
  pub engine : Engine
  pub confidence : ℕ
  pub model_grade : Option Label
  -- what the text of `override_reason` shows: the prediction, its confidence and the blockers
  pub override_reason : Option (Label × ℕ × ℕ)

pub record Details : Type 0 where
  pub score : ℕ
  pub grade : Label
  pub engine : Engine
  pub confidence : Option ℕ
  pub model_grade : Option Label
  pub override_reason : Option (Label × ℕ × ℕ)
  pub rules : List RuleResult
  pub blockers : List Message
  pub warnings : List Message
  pub recommended_strategy : Option Strategy
  pub analyzed_at : ℕ

pub record Vm : Type 0 where
  pub id : ℕ
  pub os_type : Option Text
  pub os_name : Option Text
  pub os_version : Option Text
  pub hypervisor_type : Option Text
  pub cpu_cores : Option ℕ
  pub memory_mb : Option ℕ
  pub disk_gb : Option ℕ
  pub status : VmStatus
  pub compatibility_status : Compatibility
  pub compatibility_details : Option Details

abbrev pub is_incompatible : Label → Bool
is_incompatible (grade_label incompatible) = true
is_incompatible _ = false

-- The branches once the model has answered.
decide_by_model : ℕ → Verdict → Label × ℕ → Decision
decide_by_model threshold rules_agg (label, confidence) =
    let by_rules = λ (reason : Option (Label × ℕ × ℕ)).
      (let d : Decision = record {
        grade = grade_label rules_agg.grade;
        engine = rules_engine;
        confidence = confidence;
        model_grade = some label;
        override_reason = reason;
      } in
        d) in
    if leb threshold confidence
    then if bool_ne (is_incompatible label) (not (is_empty rules_agg.blockers))
      then by_rules (some (label, confidence, length rules_agg.blockers))
      else record {
        grade = label;
        engine = model_engine;
        confidence = confidence;
        model_grade = some label;
        override_reason = none;
      }
    else by_rules none

-- `_decide_grade`
unfoldable pub decide_grade : Option Model → ℕ → VmFacts → Verdict → Option Decision
unfolding decide_by_model
decide_grade none threshold facts rules_agg = some (record {
  grade = grade_label rules_agg.grade;
  engine = rules_engine;
  confidence = 0;
  model_grade = none;
  override_reason = none;
})
decide_grade (some predict) threshold facts rules_agg =
    map_option (decide_by_model threshold rules_agg) (predict facts)

-- `vm_dict`: no `disk_format` key.
unfoldable pub facts_of : Vm → VmFacts
facts_of vm = record {
  os_type = some (or_else vm.os_type (codes "unknown"));
  os_name = vm.os_name;
  os_version = vm.os_version;
  hypervisor_type = some (or_else vm.hypervisor_type (codes "unknown"));
  disk_format = none;
  cpu_cores = vm.cpu_cores;
  memory_mb = vm.memory_mb;
  disk_gb = vm.disk_gb;
}

-- `recommend_strategy(score=rules_agg["score"], has_blocker=bool(rules_agg["blockers"]))`
unfoldable pub recommended : VmFacts → Option Strategy
recommended facts =
    let agg = aggregate (evaluate_all facts) in
    recommend_strategy agg.score (not (is_empty agg.blockers))

-- `_STATUS_MAP`
abbrev pub status_of_grade : Grade → VmStatus
status_of_grade compatible = compatible_vm
status_of_grade partial = partial_vm
status_of_grade incompatible = incompatible_vm

details_of : Option Model → ℕ → VmFacts → Decision → Details
details_of model now facts decision =
    let agg = aggregate (evaluate_all facts) in
    record {
      score = agg.score;
      grade = decision.grade;
      engine = decision.engine;
      confidence = if is_some model then some decision.confidence else none;
      model_grade = decision.model_grade;
      override_reason = decision.override_reason;
      rules = evaluate_all facts;
      blockers = agg.blockers;
      warnings = agg.warnings;
      recommended_strategy = recommended facts;
      analyzed_at = now;
    }

-- The writes of a successful analysis; `_GRADE_MAP[grade]` raises on a label that is no grade.
store_grade : Label → Details → Vm → Option Vm
store_grade (other_label text) details vm = none
store_grade (grade_label grade) details vm = some (record vm {
  compatibility_status = graded grade;
  compatibility_details = some details;
  status = status_of_grade grade;
})

-- From the first commit to the second, on the row that the lock returned.
analyze_row : Option Model → ℕ → ℕ → Vm → Option Vm
unfolding store_grade details_of decide_grade recommended
analyze_row model threshold now vm =
    let facts = facts_of vm in
    elim (decide_grade model threshold facts (aggregate (evaluate_all facts))) [
      | none ↦ none
      | some decision ↦ store_grade decision.grade (details_of model now facts decision) vm
    ]

abbrev pub is_unknown : Compatibility → Bool
is_unknown unknown = true
is_unknown _ = false

abbrev pub is_analyzing : VmStatus → Bool
is_analyzing analyzing = true
is_analyzing _ = false

-- The handler of `except Exception`: an interrupted analysis goes back to DISCOVERED.
abbrev recover : Vm → Vm
recover vm = if is_analyzing vm.status then record vm { status = discovered } else vm

abbrev pub vm_id_of : Vm → ℕ
vm_id_of vm = vm.id

abbrev pub start_analysis : Vm → Vm
start_analysis vm = record vm { status = analyzing }

-- `analyze_vm` on the locked row: the row that is left, and the dict that is returned.
unfoldable pub analyze_locked : Option Model → ℕ → ℕ → Bool → Vm → Vm × Option Vm
unfolding analyze_row
analyze_locked model threshold now force vm =
    if not force && not (is_unknown vm.compatibility_status)
    then (vm, some vm)
    else elim (analyze_row model threshold now (start_analysis vm)) [
      | none ↦ (recover (start_analysis vm), none)
      | some vm' ↦ (vm', some vm')
    ]

-- `analyze_vm`
unfoldable pub analyze_vm : Option Model → ℕ → ℕ → Bool → List Vm → ℕ → List Vm × Option Vm
unfolding analyze_locked
analyze_vm model threshold now force vms vm_id = elim (find vm_id_of vm_id vms) [
  | none ↦ (vms, none)
  | some vm ↦
      let (vm', reply) = analyze_locked model threshold now force vm in
      (update vm_id_of vm_id (λ _. vm') vms, reply)
]

-- `can_migrate` of backend/app/models/virtual_machine.py.
abbrev has_migrable_grade : Compatibility → Bool
has_migrable_grade (graded incompatible) = false
has_migrable_grade (graded _) = true
has_migrable_grade unknown = false

abbrev is_migrable_status : VmStatus → Bool
is_migrable_status analyzing = false
is_migrable_status migrating = false
is_migrable_status migrated = false
is_migrable_status archived = false
is_migrable_status _ = true

abbrev pub can_migrate : Vm → Bool
can_migrate vm = has_migrable_grade vm.compatibility_status && is_migrable_status vm.status
