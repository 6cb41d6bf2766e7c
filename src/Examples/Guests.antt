-- ===== src/Examples/Guests.antt =====
-- The name, the address and the disks of a guest.
use shift_wise.Prelude.{all, ◌+◌, ◌*◌, ◌≤◌, max, ◌≡◌, refl, ◌↔◌, true, none, some, [], ◌∷◌, map}
use shift_wise.Text.{codes, lower, strip, text_eq}
use shift_wise.Guest.Naming.{sanitize_vm_name}
use shift_wise.Guest.Labels.{is_label, sanitize_vm_name-IsLabel}
use shift_wise.Guest.Mac.{
  normalize_mac, normalize_mac-canonical, is_canonical, address_digits, without_separators,
  normalize_hex, join_pairs,
}
use shift_wise.Guest.Manifest.{
  pvc_min_size_bytes, claim_size, spec_of, Guest, Machine, build_disk_device, build_volume,
  build_virtual_machine, sort_disks, insert_disk,
}
use shift_wise.Guest.Disks.{
  claim_size-bounds, build_virtual_machine-disks, device_numbers, volume_numbers, ascending, count,
  boots_first, holds_own,
}

sanitize_vm_name-IsLabel_example :
    is_label (sanitize_vm_name (codes "-Web Server__01.") (codes "vm-7")) ≡ true
sanitize_vm_name-IsLabel_example =
    sanitize_vm_name-IsLabel (codes "-Web Server__01.") (codes "vm-7") refl

normalize_mac-canonical_example :
    ((normalize_mac (codes "00155D380106") ≡ some (codes "00:15:5d:38:01:06")) ↔ (
      (is_canonical (codes "00:15:5d:38:01:06") ≡ true)
      × (address_digits (codes "00:15:5d:38:01:06")
          ≡ lower (address_digits (codes "00155D380106")))))
    × ((is_canonical (codes "00:15:5d:38:01:06") ≡ true)
        ↔ (normalize_mac (codes "00:15:5d:38:01:06") ≡ some (codes "00:15:5d:38:01:06")))
normalize_mac-canonical_example =
    normalize_mac-canonical (codes "00155D380106") (codes "00:15:5d:38:01:06")

-- The bare form that a Hyper-V host reports.
normalize_mac-bare : normalize_mac (codes "00155D380106") ≡ some (codes "00:15:5d:38:01:06")
unfolding normalize_hex join_pairs without_separators lower
normalize_mac-bare = refl

claim_size-bounds_example :
    (20000000000 ≤ claim_size (some 20000000000) (some 3000000000))
    × (3000000000 ≤ claim_size (some 20000000000) (some 3000000000))
    × (pvc_min_size_bytes ≤ claim_size (some 20000000000) (some 3000000000))
    × (100 * claim_size (some 20000000000) (some 3000000000)
        ≤ max (100 * pvc_min_size_bytes) (115 * max 20000000000 3000000000))
    × (115 * max 20000000000 3000000000
        ≤ 100 * claim_size (some 20000000000) (some 3000000000) + 99)
claim_size-bounds_example = claim_size-bounds (some 20000000000) (some 3000000000)

abbrev web_guest : Guest
web_guest = record {
  name = codes "web-server";
  namespace = codes "shiftwise";
  cpu_cores = 2;
  memory_mb = 4096;
  disks = map (spec_of 7) (2 ∷ 0 ∷ 1 ∷ []);
  is_windows = true;
  mac_address = some (codes "00155D380106");
  migration_id = some 7;
  source_vm_id = none;
  firmware = some (codes " EFI");
}

abbrev web_machine : Machine
web_machine = record {
  name = codes "web-server";
  namespace = codes "shiftwise";
  migration_id = some 7;
  source_vm_id = none;
  cores = 2;
  memory_mb = 4096;
  disks = map build_disk_device (map (spec_of 7) (0 ∷ 1 ∷ 2 ∷ []));
  volumes = map build_volume (map (spec_of 7) (0 ∷ 1 ∷ 2 ∷ []));
  mac_address = some (codes "00:15:5d:38:01:06");
  has_tablet = true;
  is_efi = true;
}

build_virtual_machine-disks_example :
    (device_numbers web_machine ≡ volume_numbers web_machine)
    × (ascending (device_numbers web_machine) ≡ true)
    × (count 1 (device_numbers web_machine) ≡ count 1 (2 ∷ 0 ∷ 1 ∷ []))
    × (all boots_first web_machine.disks ≡ true)
    × (all (holds_own 7) web_machine.volumes ≡ true)
unfolding build_virtual_machine sort_disks insert_disk normalize_hex join_pairs without_separators
    lower strip text_eq
build_virtual_machine-disks_example =
    build_virtual_machine-disks web_guest web_machine 7 (2 ∷ 0 ∷ 1 ∷ []) 1 refl refl
