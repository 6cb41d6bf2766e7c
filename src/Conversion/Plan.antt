-- ===== src/Conversion/Plan.antt =====
-- backend/app/services/converter/plan.py.
use shift_wise.Prelude.{if◌then◌else◌, ◌≡◌, ◌≢◌, ◌↔◌, Bool, true, false, ◌&&◌, arith}

pub data OsType : Type 0 where
  windows linux other unknown : OsType

pub data SourceFormat : Type 0 where
  vmdk vhd vhdx qcow2 raw : SourceFormat

pub data TargetFormat : Type 0 where
  to_qcow2 to_raw : TargetFormat

pub data Tool : Type 0 where
  qemu_img virt_v2v passthrough : Tool

pub record Plan : Type 0 where
  pub tool : Tool
  pub target_format : TargetFormat
  pub inject_virtio : Bool

abbrev is_windows : OsType → Bool
is_windows windows = true
is_windows _ = false

-- `source_format.value == target_format.value`
abbrev same_format : SourceFormat → TargetFormat → Bool
same_format qcow2 to_qcow2 = true
same_format raw to_raw = true
same_format _ _ = false

abbrev is_qcow2 : SourceFormat → Bool
is_qcow2 qcow2 = true
is_qcow2 _ = false

unfoldable pub plan_conversion : SourceFormat → TargetFormat → OsType → Plan
plan_conversion source target os_type =
    if is_windows os_type
    then record { tool = virt_v2v; target_format = target; inject_virtio = true }
    else if same_format source target && is_qcow2 source
    then record { tool = passthrough; target_format = target; inject_virtio = false }
    else record { tool = qemu_img; target_format = target; inject_virtio = false }

-- A disk is copied as it is exactly where it goes from qcow2 to qcow2 on a guest that is not
-- Windows, and the drivers are injected exactly on Windows, by virt-v2v and by no other tool.
pub plan_conversion_lem :
    (source : SourceFormat) (target : TargetFormat) (os_type : OsType)
    → let plan = plan_conversion source target os_type in
      ((plan.tool ≡ passthrough) ↔ ((source ≡ qcow2) × (target ≡ to_qcow2) × (os_type ≢ windows)))
      × ((plan.tool ≡ virt_v2v) ↔ (os_type ≡ windows))
      × ((plan.inject_virtio ≡ true) ↔ (plan.tool ≡ virt_v2v))
      × (plan.target_format ≡ target)
unfolding plan_conversion
plan_conversion_lem source target os_type = ground arith
