-- ===== src/Compat/Bands.antt =====
-- Which VMs land in which strategy band, over the seven rules together.
use shift_wise.Prelude.{
  if◌then◌else◌, Bool-cases, is_some, any, is_empty, ℕ, ◌-◌, ◌≤◌, ◌≡◌, refl, ◌⊎◌, inl, inr, Bool,
  true, false, some, arith,
}
use shift_wise.Text.{Text, codes, text_eq, text_eq→eq, one_of}
use shift_wise.Compat.Rules.{
  VmFacts, norm, default_format, infer_disk_format, virtio_native_hypervisors, convertible_formats,
  blocker_formats, native_formats, rule_disk_format, rule_guest_adaptation, evaluate_all,
}
use shift_wise.Compat.Aggregate.{
  Grade, compatible, partial, incompatible, direct, conversion, aggregate, recommend_strategy,
}
use shift_wise.Compat.Rules.Costs.{score_floor, silent_score}
use shift_wise.Compat.Grading.{
  grade-aggregate, blocks, cost, total_cost, blockers-aggregate, score-aggregate,
}
use shift_wise.Compat.Analyzer.{recommended}

abbrev pub is_incompatible_grade : Grade → Bool
is_incompatible_grade incompatible = true
is_incompatible_grade _ = false

abbrev score_of : VmFacts → ℕ
score_of vm = 100 - total_cost (evaluate_all vm)

recommended_lem :
    (vm : VmFacts)
    → recommended vm ≡ recommend_strategy (score_of vm) (any blocks (evaluate_all vm))
unfolding recommended
recommended_lem vm =
    ground (arith, blockers-aggregate (evaluate_all vm), score-aggregate (evaluate_all vm))

-- Sources that need no adaptation have a default format that needs no conversion.
virtio_format-native :
    (htype : Text)
    → one_of htype virtio_native_hypervisors ≡ true
    → one_of (default_format htype) native_formats ≡ true
unfolding one_of default_format
virtio_format-native htype h = elim (Bool-cases (text_eq htype (codes "kvm"))) [
  | inl e ↦ rw (text_eq→eq htype _ e)
  | inr a ↦ elim (Bool-cases (text_eq htype (codes "proxmox"))) [
    | inl e ↦ rw (text_eq→eq htype _ e)
    | inr b ↦ elim (Bool-cases (text_eq htype (codes "ovirt"))) [
      | inl e ↦ rw (text_eq→eq htype _ e)
      | inr c ↦ ground arith
    ]
  ]
]

native-ne_convertible :
    (fmt : Text)
    → one_of fmt native_formats ≡ true
    → (one_of fmt convertible_formats ≡ false) × (one_of fmt blocker_formats ≡ false)
unfolding one_of
native-ne_convertible fmt h = elim (Bool-cases (text_eq fmt (codes "qcow2"))) [
  | inl e ↦ rw (text_eq→eq fmt _ e) (refl, refl)
  | inr a ↦ elim (Bool-cases (text_eq fmt (codes "raw"))) [
    | inl e ↦ rw (text_eq→eq fmt _ e) (refl, refl)
    | inr b ↦ ground arith
  ]
]

virtio_format-passes :
    (vm : VmFacts)
    → is_empty (norm vm.disk_format) ≡ true
    → one_of (norm vm.hypervisor_type) virtio_native_hypervisors ≡ true
    → (rule_disk_format vm).passed ≡ true
unfolding rule_disk_format infer_disk_format
virtio_format-passes vm inferred virtio =
    let native = virtio_format-native (norm vm.hypervisor_type) virtio in
    ground (
      arith,
      inferred,
      native,
      native-ne_convertible (default_format (norm vm.hypervisor_type)) native,
    )

adaptation_cost :
    (vm : VmFacts)
    → one_of (norm vm.hypervisor_type) virtio_native_hypervisors ≡ false
    → cost (rule_guest_adaptation vm) ≡ 20
unfolding rule_guest_adaptation
adaptation_cost vm h = ground arith

format_cost :
    (vm : VmFacts) → (rule_disk_format vm).passed ≡ false → 15 ≤ cost (rule_disk_format vm)
unfolding rule_disk_format
format_cost vm h = ground arith

good_score :
    (vm : VmFacts)
    → (recommended vm ≡ some direct) ⊎ (recommended vm ≡ some conversion)
    → total_cost (evaluate_all vm) ≤ 30
unfolding recommend_strategy
good_score vm h = ground (arith, recommended_lem vm)

-- Where the format is inferred from the hypervisor, as `analyze_vm` does, the strategies DIRECT
-- and CONVERSION are recommended only for VMs whose disk format passes its rule.
pub conversion_band-native :
    (vm : VmFacts)
    → is_empty (norm vm.disk_format) ≡ true
    → (recommended vm ≡ some direct) ⊎ (recommended vm ≡ some conversion)
    → (rule_disk_format vm).passed ≡ true
unfolding evaluate_all
conversion_band-native vm inferred good =
    elim (Bool-cases (one_of (norm vm.hypervisor_type) virtio_native_hypervisors)) [
      | inl virtio ↦ virtio_format-passes vm inferred virtio
      | inr other ↦ elim (Bool-cases (rule_disk_format vm).passed) [
        | inl passed ↦ passed
        | inr failed ↦
            absurd
              (omega (arith, good_score vm good, adaptation_cost vm other, format_cost vm failed))
      ]
    ]

-- A VM graded COMPATIBLE keeps the full score and is recommended a DIRECT migration.
pub compatible-direct :
    (vm : VmFacts)
    → (aggregate (evaluate_all vm)).grade ≡ compatible
    → ((aggregate (evaluate_all vm)).score ≡ 100) × (recommended vm ≡ some direct)
unfolding recommend_strategy
compatible-direct vm h = ground (
  arith,
  grade-aggregate (evaluate_all vm),
  score-aggregate (evaluate_all vm),
  recommended_lem vm,
  silent_score vm,
)

-- A strategy is recommended exactly for the VMs that are not graded INCOMPATIBLE.
pub recommended-is_some :
    (vm : VmFacts)
    → is_some (recommended vm)
      ≡ (if is_incompatible_grade (aggregate (evaluate_all vm)).grade then false else true)
unfolding recommend_strategy
recommended-is_some vm = ground (arith, grade-aggregate (evaluate_all vm), recommended_lem vm)

-- A VM graded PARTIAL scores between 25 and 100.
pub partial-score :
    (vm : VmFacts)
    → (aggregate (evaluate_all vm)).grade ≡ partial
    → (25 ≤ (aggregate (evaluate_all vm)).score) × ((aggregate (evaluate_all vm)).score ≤ 100)
partial-score vm h =
    ground
      (arith, grade-aggregate (evaluate_all vm), score-aggregate (evaluate_all vm), score_floor vm)
