-- ===== src/Examples/Vms.antt =====
-- Two Linux guests, on KVM and on vSphere, through the analysis.
use shift_wise.Prelude.{or_else, any, ℕ, ◌≡◌, refl, false, not, Option, none, some, [], ◌∷◌}
use shift_wise.Rows.{find}
use shift_wise.Text.{strip, lower, contains, starts_with, one_of, text_eq, codes}
use shift_wise.Compat.Rules.{
  norm, extract_linux_major, infer_disk_format, default_format, rule_os_supported, rule_cpu_min,
  rule_memory_min, rule_disk_min, rule_guest_adaptation, rule_driver_injection, norm,
  rule_disk_format, VmFacts, evaluate_all,
}
use shift_wise.Compat.Aggregate.{aggregate_loop, recommend_strategy, compatible, partial, aggregate}
use shift_wise.Compat.Analyzer.{
  analyze_locked, decide_grade, model_engine, can_migrate, analyze_vm, recommended, Label, vm_id_of,
  facts_of, grade_label, Vm, Decision, discovered, unknown,
}
use shift_wise.Compat.Grading.{total_cost, warns, messages, blocks, expected, aggregate_lem}
use shift_wise.Compat.Analyzer.Soundness.{analyze_vm_sound}

abbrev kvm_vm : Vm
kvm_vm = record {
  id = 3;
  os_type = some (codes "linux");
  os_name = some (codes "Ubuntu Server");
  os_version = some (codes "22.04");
  hypervisor_type = some (codes "kvm");
  cpu_cores = some 2;
  memory_mb = some 4096;
  disk_gb = some 40;
  status = discovered;
  compatibility_status = unknown;
  compatibility_details = none;
}

abbrev kvm_facts : VmFacts
kvm_facts = facts_of kvm_vm

abbrev vsphere_facts : VmFacts
vsphere_facts = record kvm_facts { hypervisor_type = some (codes "vsphere") }

abbrev cautious : VmFacts → Option (Label × ℕ)
cautious facts = some (grade_label partial, 90)

kvm-compatible : (aggregate (evaluate_all kvm_facts)).grade ≡ compatible
unfolding aggregate aggregate_loop evaluate_all facts_of norm strip lower contains starts_with
    one_of text_eq extract_linux_major infer_disk_format default_format rule_os_supported
    rule_cpu_min rule_memory_min rule_disk_min rule_disk_format rule_guest_adaptation
    rule_driver_injection
kvm-compatible = refl

vsphere-partial : (aggregate (evaluate_all vsphere_facts)).grade ≡ partial
unfolding aggregate aggregate_loop evaluate_all facts_of norm strip lower contains starts_with
    one_of text_eq extract_linux_major infer_disk_format default_format rule_os_supported
    rule_cpu_min rule_memory_min rule_disk_min rule_disk_format rule_guest_adaptation
    rule_driver_injection
vsphere-partial = refl

kvm_found : find vm_id_of 3 (kvm_vm ∷ []) ≡ some kvm_vm
unfolding find
kvm_found = refl

abbrev analyzed : Vm
analyzed = or_else (analyze_vm (some cautious) 70 50 false (kvm_vm ∷ []) 3).1 kvm_vm

analyze_vm_sound_example :
    (find vm_id_of 3 (analyze_vm (some cautious) 70 50 false (kvm_vm ∷ []) 3).0 ≡ some analyzed)
    × (can_migrate analyzed ≡ not (any blocks (evaluate_all kvm_facts)))
unfolding analyze_vm analyze_locked decide_grade recommended recommend_strategy find aggregate
    aggregate_loop evaluate_all facts_of norm strip lower contains starts_with one_of text_eq
    extract_linux_major infer_disk_format default_format rule_os_supported rule_cpu_min
    rule_memory_min rule_disk_min rule_disk_format rule_guest_adaptation rule_driver_injection
analyze_vm_sound_example =
    analyze_vm_sound (some cautious) 70 50 false (kvm_vm ∷ []) 3 kvm_vm kvm_found refl analyzed refl

abbrev decided_partial : Decision
decided_partial = record {
  grade = grade_label partial;
  engine = model_engine;
  confidence = 90;
  model_grade = some (grade_label partial);
  override_reason = none;
}

aggregate_lem_example :
    aggregate (evaluate_all vsphere_facts)
    ≡ expected
        (messages blocks (evaluate_all vsphere_facts))
        (messages warns (evaluate_all vsphere_facts))
        (total_cost (evaluate_all vsphere_facts))
aggregate_lem_example = aggregate_lem (evaluate_all vsphere_facts)
