-- ===== src/Guest/Manifest.antt =====
-- `build_virtual_machine` of backend/app/services/migrator/vm_manifest.py, the claims of
-- backend/app/services/migrator/pvc.py and the disks that `_populate_disks` of
-- backend/app/services/migrator/service.py hands over. The name of a claim and of a disk are given
-- by the numbers in them; parts of the manifest that are constants are left out, and so are the extra
-- labels, which the migrator does not give.
use shift_wise.Prelude.{
  ltb, leb, ◌==◌, if◌then◌else◌, or_else, is_empty, ℕ, ◌+◌, ◌*◌, ◌/◌, max, Bool, false, ◌||◌,
  Option, none, some, List, [], ◌∷◌, map,
}
use shift_wise.Text.{Text, codes, text_eq, strip, lower}
use shift_wise.Guest.Mac.{normalize_mac}

-- The size of a claim: `_PVC_MIN_SIZE_BYTES`, and the headroom in percent.
abbrev pub pvc_min_size_bytes : ℕ
pvc_min_size_bytes = 1024 * 1024 * 1024

abbrev pub pvc_size_headroom_pct : ℕ
pvc_size_headroom_pct = 15

-- A size that is missing is zero. Python divides as floats; below 64 TiB the part before the point
-- is that of the exact quotient.
unfoldable pub compute_pvc_size_bytes : ℕ → ℕ
compute_pvc_size_bytes virtual_size_bytes =
    if virtual_size_bytes == 0
    then pvc_min_size_bytes
    else max (virtual_size_bytes * (100 + pvc_size_headroom_pct) / 100) pvc_min_size_bytes

-- The size that `_populate_disks` asks for a job.
abbrev pub claim_size : Option ℕ → Option ℕ → ℕ
claim_size source_size_bytes output_size_bytes =
    compute_pvc_size_bytes (max (or_else source_size_bytes 0) (or_else output_size_bytes 0))

-- `target_pvc_name`
pub record Claim : Type 0 where
  pub migration_id : ℕ
  pub disk_index : ℕ

pub record DiskSpec : Type 0 where
  pub disk_index : ℕ
  pub pvc_name : Claim
  pub is_boot : Bool

-- What `_populate_disks` gives for the indices of the completed jobs.
abbrev pub spec_of : ℕ → ℕ → DiskSpec
spec_of migration_id disk_index = record {
  disk_index = disk_index;
  pvc_name = record { migration_id = migration_id; disk_index = disk_index };
  is_boot = disk_index == 0;
}

pub record Device : Type 0 where
  pub number : ℕ
  pub boot_order : Option ℕ

pub record Volume : Type 0 where
  pub number : ℕ
  pub claim : Claim

pub record Machine : Type 0 where
  pub name : Text
  pub namespace : Text
  pub migration_id : Option ℕ
  pub source_vm_id : Option ℕ
  pub cores : ℕ
  pub memory_mb : ℕ
  pub disks : List Device
  pub volumes : List Volume
  pub mac_address : Option Text
  pub has_tablet : Bool
  pub is_efi : Bool

pub record Guest : Type 0 where
  pub name : Text
  pub namespace : Text
  pub cpu_cores : ℕ
  pub memory_mb : ℕ
  pub disks : List DiskSpec
  pub is_windows : Bool
  pub mac_address : Option Text
  pub migration_id : Option ℕ
  pub source_vm_id : Option ℕ
  pub firmware : Option Text

-- `_build_disk_device`
abbrev pub build_disk_device : DiskSpec → Device
build_disk_device d = record {
  number = d.disk_index;
  boot_order = (if d.is_boot then some 1 else none);
}

-- `_build_volume`
abbrev pub build_volume : DiskSpec → Volume
build_volume d = record { number = d.disk_index; claim = d.pvc_name }

-- `sorted(disks, key=lambda d: d.disk_index)`
unfoldable pub insert_disk : DiskSpec → List DiskSpec → List DiskSpec
insert_disk d [] = d ∷ []
insert_disk d (e ∷ disks) =
    if leb d.disk_index e.disk_index then d ∷ e ∷ disks else e ∷ insert_disk d disks

unfoldable pub sort_disks : List DiskSpec → List DiskSpec
sort_disks [] = []
sort_disks (d ∷ disks) = insert_disk d (sort_disks disks)

-- `_firmware`
abbrev pub is_efi_firmware : Option Text → Bool
is_efi_firmware none = false
is_efi_firmware (some firmware) = text_eq (lower (strip firmware)) (codes "efi")

-- `none` is the `ValueError`.
unfoldable pub build_virtual_machine : Guest → Option Machine
build_virtual_machine g =
    if is_empty g.disks || ltb g.cpu_cores 1 || ltb g.memory_mb 128
    then none
    else some (record {
      name = g.name;
      namespace = g.namespace;
      migration_id = g.migration_id;
      source_vm_id = g.source_vm_id;
      cores = g.cpu_cores;
      memory_mb = g.memory_mb;
      disks = map build_disk_device (sort_disks g.disks);
      volumes = map build_volume (sort_disks g.disks);
      mac_address = elim g.mac_address [ none ↦ none | some mac ↦ normalize_mac mac ];
      has_tablet = g.is_windows;
      is_efi = is_efi_firmware g.firmware;
    })
