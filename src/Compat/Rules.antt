-- ===== src/Compat/Rules.antt =====
-- The seven rules of backend/app/services/compatibility_rules.py. A rule's dict is a record, and
-- its message is a constructor that carries what the f-string shows.
pub mod Costs
use shift_wise.Prelude.{
  ltb, leb, ◌==◌, if◌then◌else◌, or_else, is_empty, ℕ, ◌+◌, ◌-◌, ◌*◌, Bool, true, false, ◌&&◌,
  Option, none, some, List, [], ◌∷◌, ◌++◌,
}
use shift_wise.Text.{Text, codes, text_eq, one_of, contains, strip, lower, is_digit}

pub data Severity : Type 0 where
  blocker warning info : Severity

pub data RuleId : Type 0 where
  os_supported cpu_min memory_min disk_min disk_format guest_adaptation driver_injection : RuleId

-- What a message says, with the values that it shows.
pub data Message : Type 0 where
  os_type_unknown os_type_missing : Text → Text → Message
  distro_too_old : Text → ℕ → ℕ → Message
  distro_supported distro_unrecognised windows_supported windows_unsupported : Text → Message
  distro_unverified : Text → Text → Message
  os_type_unsupported : Text → Message
  cpu_enough cpu_too_low memory_too_low memory_low memory_enough : ℕ → Message
  disk_unreported : Message
  disk_low disk_enough : ℕ → Message
  format_blocked format_convertible format_native format_unknown : Text → Message
  virtio_source adaptation_needed : Message
  windows_injection physical_injection drivers_present : Message

pub record RuleResult : Type 0 where
  pub id : RuleId
  pub passed : Bool
  pub severity : Severity
  pub message : Message
  pub weight : ℕ

-- The dict of a VM: a missing key and `None` are the same to `vm.get`.
pub record VmFacts : Type 0 where
  pub os_type : Option Text
  pub os_name : Option Text
  pub os_version : Option Text
  pub hypervisor_type : Option Text
  pub disk_format : Option Text
  pub cpu_cores : Option ℕ
  pub memory_mb : Option ℕ
  pub disk_gb : Option ℕ

-- `_norm`: `(value or "").strip().lower()`
unfoldable pub norm : Option Text → Text
unfolding strip lower
norm value = lower (strip (or_else value []))

-- `_LINUX_DISTROS` in its order, each with its entry of `_LINUX_MIN_VERSION`.
abbrev pub linux_distros : List (Text × ℕ)
linux_distros =
    (codes "ubuntu", 18)
    ∷ (codes "debian", 10)
    ∷ (codes "rhel", 7)
    ∷ (codes "red hat", 7)
    ∷ (codes "centos", 7)
    ∷ (codes "rocky", 8)
    ∷ (codes "alma", 8)
    ∷ (codes "fedora", 32)
    ∷ (codes "suse", 12)
    ∷ (codes "sles", 12)
    ∷ (codes "opensuse", 15)
    ∷ (codes "oracle", 7)
    ∷ []

abbrev pub windows_supported_names : List Text
windows_supported_names =
    codes "windows server 2016"
    ∷ codes "windows server 2019"
    ∷ codes "windows server 2022"
    ∷ codes "windows 10"
    ∷ codes "windows 11"
    ∷ []

abbrev pub native_formats : List Text
native_formats = codes "qcow2" ∷ codes "raw" ∷ []

abbrev pub convertible_formats : List Text
convertible_formats = codes "vmdk" ∷ codes "vhd" ∷ codes "vhdx" ∷ []

abbrev pub blocker_formats : List Text
blocker_formats = codes "iso" ∷ []

-- `_HYPERVISOR_DEFAULT_FORMAT`
abbrev pub hypervisor_default_format : List (Text × Text)
hypervisor_default_format =
    (codes "vmware_workstation", codes "vmdk")
    ∷ (codes "vsphere", codes "vmdk")
    ∷ (codes "vmware_esxi", codes "vmdk")
    ∷ (codes "hyper_v", codes "vhdx")
    ∷ (codes "kvm", codes "qcow2")
    ∷ (codes "proxmox", codes "qcow2")
    ∷ (codes "ovirt", codes "qcow2")
    ∷ (codes "physical", codes "raw")
    ∷ []

abbrev pub unknown_os_soft_hypervisors : List Text
unknown_os_soft_hypervisors = codes "hyper_v" ∷ codes "kvm" ∷ codes "proxmox" ∷ codes "ovirt" ∷ []

abbrev pub virtio_native_hypervisors : List Text
virtio_native_hypervisors = codes "kvm" ∷ codes "proxmox" ∷ codes "ovirt" ∷ []

-- The loop over the characters of one candidate: `none` while `digits` is empty.
leading_number : Option ℕ → Text → Option ℕ
leading_number digits [] = digits
leading_number digits (c ∷ s) = elim (is_digit c) [
  | true ↦ leading_number (some (or_else digits 0 * 10 + (c - b'0'))) s
  | false ↦ elim digits [ none ↦ leading_number none s | some n ↦ some n ]
]

-- `_extract_linux_major`: the version is tried first, then the name.
unfoldable pub extract_linux_major : Text → Text → Option ℕ
unfolding leading_number
extract_linux_major os_name os_version = elim (leading_number none os_version) [
  | none ↦ leading_number none os_name
  | some n ↦ some n
]

lookup_format : Text → List (Text × Text) → Text
lookup_format htype [] = codes "unknown"
lookup_format htype ((name, format) ∷ rest) =
    if text_eq htype name then format else lookup_format htype rest

unfoldable pub default_format : Text → Text
unfolding lookup_format
default_format htype = lookup_format htype hypervisor_default_format

unfoldable pub infer_disk_format : VmFacts → Text
infer_disk_format vm =
    let explicit = norm vm.disk_format in
    if is_empty explicit then default_format (norm vm.hypervisor_type) else explicit

abbrev os_result : Bool → Severity → Message → ℕ → RuleResult
os_result passed severity message weight = record {
  id = os_supported;
  passed = passed;
  severity = severity;
  message = message;
  weight = weight;
}

abbrev is_older : Option ℕ → ℕ → Bool
is_older none min_major = false
is_older (some actual) min_major = ltb actual min_major

-- The body of the distro loop once `distro` occurs in the text.
distro_result : Text → ℕ → Option ℕ → RuleResult
distro_result distro min_major actual =
    if is_older actual min_major
    then os_result false blocker (distro_too_old distro (or_else actual 0) min_major) 40
    else os_result true blocker (distro_supported distro) 40

-- `for distro in _LINUX_DISTROS`; `fallback` is what follows the loop.
distro_loop : Text → Option ℕ → RuleResult → List (Text × ℕ) → RuleResult
unfolding distro_result
distro_loop combined actual fallback [] = fallback
distro_loop combined actual fallback ((distro, min_major) ∷ rest) =
    if contains distro combined
    then distro_result distro min_major actual
    else distro_loop combined actual fallback rest

windows_loop : Text → List Text → RuleResult
windows_loop combined [] = os_result false blocker (windows_unsupported combined) 40
windows_loop combined (supported ∷ rest) =
    if contains supported combined
    then os_result true blocker (windows_supported supported) 40
    else windows_loop combined rest

-- The branches of `rule_os_supported` on the normalised fields.
os_rule : Text → Text → Option ℕ → Text → RuleResult
os_rule os_type combined actual htype =
    let soft_hv = one_of htype unknown_os_soft_hypervisors in
    if text_eq os_type (codes "unknown") && soft_hv
    then os_result false warning (os_type_unknown os_type htype) 10
    else if text_eq os_type (codes "linux")
    then distro_loop combined actual
        (if soft_hv
          then os_result false warning (distro_unverified combined htype) 10
          else os_result false blocker (distro_unrecognised combined) 40)
        linux_distros
    else if text_eq os_type (codes "windows")
    then windows_loop combined windows_supported_names
    else if soft_hv
    then os_result false warning (os_type_missing os_type htype) 10
    else os_result false blocker (os_type_unsupported os_type) 40

unfoldable pub rule_os_supported : VmFacts → RuleResult
unfolding os_rule distro_loop windows_loop
rule_os_supported vm =
    let os_name = norm vm.os_name in
    let os_version = norm vm.os_version in
    os_rule (norm vm.os_type) (strip (os_name ++ (codes " " ++ os_version)))
      (extract_linux_major os_name os_version) (norm vm.hypervisor_type)

unfoldable pub rule_cpu_min : VmFacts → RuleResult
rule_cpu_min vm =
    let cpu = or_else vm.cpu_cores 0 in
    let passed = leb 1 cpu in
    record {
      id = cpu_min;
      passed = passed;
      severity = blocker;
      message = if passed then cpu_enough cpu else cpu_too_low cpu;
      weight = 40;
    }

abbrev memory_result : Bool → Severity → Message → ℕ → RuleResult
memory_result passed severity message weight = record {
  id = memory_min;
  passed = passed;
  severity = severity;
  message = message;
  weight = weight;
}

unfoldable pub rule_memory_min : VmFacts → RuleResult
rule_memory_min vm =
    let mem = or_else vm.memory_mb 0 in
    if ltb mem 512
    then memory_result false blocker (memory_too_low mem) 40
    else if ltb mem 1024
    then memory_result false warning (memory_low mem) 10
    else memory_result true blocker (memory_enough mem) 40

abbrev disk_result : Bool → Message → RuleResult
disk_result passed message = record {
  id = disk_min;
  passed = passed;
  severity = warning;
  message = message;
  weight = 5;
}

unfoldable pub rule_disk_min : VmFacts → RuleResult
rule_disk_min vm =
    let disk = or_else vm.disk_gb 0 in
    if disk == 0 && text_eq (norm vm.hypervisor_type) (codes "kvm")
    then disk_result false disk_unreported
    else if ltb disk 10
    then disk_result false (disk_low disk)
    else disk_result true (disk_enough disk)

abbrev format_result : Bool → Severity → Message → ℕ → RuleResult
format_result passed severity message weight = record {
  id = disk_format;
  passed = passed;
  severity = severity;
  message = message;
  weight = weight;
}

format_rule : Text → RuleResult
format_rule fmt =
    if one_of fmt blocker_formats
    then format_result false blocker (format_blocked fmt) 40
    else if one_of fmt convertible_formats
    then format_result false warning (format_convertible fmt) 15
    else if one_of fmt native_formats
    then format_result true blocker (format_native fmt) 15
    else format_result false warning (format_unknown fmt) 15

unfoldable pub rule_disk_format : VmFacts → RuleResult
unfolding format_rule
rule_disk_format vm = format_rule (infer_disk_format vm)

abbrev adaptation_result : Bool → Message → RuleResult
adaptation_result passed message = record {
  id = guest_adaptation;
  passed = passed;
  severity = warning;
  message = message;
  weight = 20;
}

unfoldable pub rule_guest_adaptation : VmFacts → RuleResult
rule_guest_adaptation vm =
    if one_of (norm vm.hypervisor_type) virtio_native_hypervisors
    then adaptation_result true virtio_source
    else adaptation_result false adaptation_needed

abbrev injection_result : Bool → Message → RuleResult
injection_result passed message = record {
  id = driver_injection;
  passed = passed;
  severity = warning;
  message = message;
  weight = 15;
}

unfoldable pub rule_driver_injection : VmFacts → RuleResult
rule_driver_injection vm =
    let os_type = norm vm.os_type in
    if text_eq os_type (codes "windows")
    then injection_result false windows_injection
    else if text_eq os_type (codes "linux") && text_eq (norm vm.hypervisor_type) (codes "physical")
    then injection_result false physical_injection
    else injection_result true drivers_present

-- `[fn(vm) for fn in _RULE_FUNCTIONS]`
unfoldable pub evaluate_all : VmFacts → List RuleResult
evaluate_all vm =
    rule_os_supported vm
    ∷ rule_cpu_min vm
    ∷ rule_memory_min vm
    ∷ rule_disk_min vm
    ∷ rule_disk_format vm
    ∷ rule_guest_adaptation vm
    ∷ rule_driver_injection vm
    ∷ []
