-- ===== src/Compat/Rules/Costs.antt =====
-- What each rule can cost where it does not block.
use shift_wise.Prelude.{
  if◌then◌else◌, any, ℕ, ◌≤◌, ◌≡◌, Bool, true, false, ◌&&◌, Option, List, [], ◌∷◌, ◌++◌, arith,
}
use shift_wise.Text.{Text, one_of, text_eq, codes, strip}
use shift_wise.Compat.Rules.{
  extract_linux_major, norm, one_of, unknown_os_soft_hypervisors, windows_supported_names,
  linux_distros, evaluate_all, VmFacts, RuleResult, os_rule, distro_loop, windows_loop,
  rule_os_supported, rule_cpu_min, rule_memory_min, rule_disk_min, rule_disk_format,
  rule_guest_adaptation, rule_driver_injection,
}
use shift_wise.Compat.Grading.{blocks, warns, cost, total_cost}

-- A rule that blocks nothing costs at most `n`, and nothing at all if it does not warn either.
pub record CostsAtMost (n : ℕ) (rule : RuleResult) : Type 0 where
  pub bounded : blocks rule ≡ false → cost rule ≤ n
  pub silent : blocks rule ≡ false → warns rule ≡ false → cost rule ≡ 0

distro_loop-cost :
    (combined : Text) (actual : Option ℕ) (fallback : RuleResult) (distros : List (Text × ℕ))
    → CostsAtMost 10 fallback
    → CostsAtMost 10 (distro_loop combined actual fallback distros)
unfolding distro_loop
distro_loop-cost combined actual fallback [] h = h
distro_loop-cost combined actual fallback ((distro, min_major) ∷ rest) h =
    ground (arith, distro_loop-cost combined actual fallback rest h)

windows_loop-cost :
    (combined : Text) (names : List Text) → CostsAtMost 10 (windows_loop combined names)
unfolding windows_loop
windows_loop-cost combined [] = ground arith
windows_loop-cost combined (name ∷ rest) = ground (arith, windows_loop-cost combined rest)

CostsAtMost-if :
    {n : ℕ} (test : Bool) (r s : RuleResult)
    → CostsAtMost n r
    → CostsAtMost n s
    → CostsAtMost n (if test then r else s)
CostsAtMost-if true r s h k = h
CostsAtMost-if false r s h k = k

os_rule-cost :
    (os_type combined : Text) (actual : Option ℕ) (htype : Text)
    → CostsAtMost 10 (os_rule os_type combined actual htype)
unfolding os_rule
os_rule-cost os_type combined actual htype =
    let soft_hv = one_of htype unknown_os_soft_hypervisors in
    CostsAtMost-if (text_eq os_type (codes "unknown") && soft_hv) _ _ (ground arith) (
      CostsAtMost-if (text_eq os_type (codes "linux")) _ _
        (distro_loop-cost combined actual _ linux_distros
          (CostsAtMost-if soft_hv _ _ (ground arith) (ground arith)))
        (CostsAtMost-if (text_eq os_type (codes "windows")) _ _
          (windows_loop-cost combined windows_supported_names)
          (CostsAtMost-if soft_hv _ _ (ground arith) (ground arith))))

module _ (vm : VmFacts) where
  pub rule_os_supported-cost : CostsAtMost 10 (rule_os_supported vm)
  unfolding rule_os_supported
  rule_os_supported-cost =
      os_rule-cost (norm vm.os_type) (strip (norm vm.os_name ++ (codes " " ++ norm vm.os_version)))
        (extract_linux_major (norm vm.os_name) (norm vm.os_version)) (norm vm.hypervisor_type)

  pub rule_cpu_min-cost : CostsAtMost 0 (rule_cpu_min vm)
  unfolding rule_cpu_min
  rule_cpu_min-cost = ground arith

  pub rule_memory_min-cost : CostsAtMost 10 (rule_memory_min vm)
  unfolding rule_memory_min
  rule_memory_min-cost = ground arith

  pub rule_disk_min-cost : CostsAtMost 5 (rule_disk_min vm)
  unfolding rule_disk_min
  rule_disk_min-cost = ground arith

  pub rule_disk_format-cost : CostsAtMost 15 (rule_disk_format vm)
  unfolding rule_disk_format
  rule_disk_format-cost = ground arith

  pub rule_guest_adaptation-cost : CostsAtMost 20 (rule_guest_adaptation vm)
  unfolding rule_guest_adaptation
  rule_guest_adaptation-cost = ground arith

  pub rule_driver_injection-cost : CostsAtMost 15 (rule_driver_injection vm)
  unfolding rule_driver_injection
  rule_driver_injection-cost = ground arith

-- A VM that no rule blocks keeps 25 points of its score at least.
pub score_floor :
    (vm : VmFacts) → any blocks (evaluate_all vm) ≡ false → total_cost (evaluate_all vm) ≤ 75
unfolding evaluate_all
score_floor vm h = ground (
  arith,
  rule_os_supported-cost vm,
  rule_cpu_min-cost vm,
  rule_memory_min-cost vm,
  rule_disk_min-cost vm,
  rule_disk_format-cost vm,
  rule_guest_adaptation-cost vm,
  rule_driver_injection-cost vm,
)

pub silent_score :
    (vm : VmFacts)
    → any blocks (evaluate_all vm) ≡ false
    → any warns (evaluate_all vm) ≡ false
    → total_cost (evaluate_all vm) ≡ 0
unfolding evaluate_all
silent_score vm h w = ground (
  arith,
  rule_os_supported-cost vm,
  rule_cpu_min-cost vm,
  rule_memory_min-cost vm,
  rule_disk_min-cost vm,
  rule_disk_format-cost vm,
  rule_guest_adaptation-cost vm,
  rule_driver_injection-cost vm,
)
