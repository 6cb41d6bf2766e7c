-- ===== src/Guest/Disks.antt =====
-- The disks of the guest that a migration creates, and the claims that hold them.
use shift_wise.Prelude.{
  leb, ◌==◌, if◌then◌else◌, or_else, is_some, bool_ne, all, ℕ, suc, ◌+◌, ◌*◌, ◌≤◌, max, ◌≡◌, refl,
  sym, ap, ◌∙◌, Bool, true, ◌&&◌, not, Option, some, List, [], ◌∷◌, map, arith,
}
use shift_wise.Guest.Manifest.{
  pvc_min_size_bytes, compute_pvc_size_bytes, claim_size, DiskSpec, spec_of, Device, Volume,
  Machine, Guest, build_disk_device, build_volume, insert_disk, sort_disks, build_virtual_machine,
}

-- The claim of a disk holds the source and the output, and at least a gibibyte. It has fifteen percent
-- on top of the larger of the two, less the part of a byte, and more only for the gibibyte.
pub claim_size-bounds :
    (source_size_bytes output_size_bytes : Option ℕ)
    → let written = max (or_else source_size_bytes 0) (or_else output_size_bytes 0) in
      (or_else source_size_bytes 0 ≤ claim_size source_size_bytes output_size_bytes)
      × (or_else output_size_bytes 0 ≤ claim_size source_size_bytes output_size_bytes)
      × (pvc_min_size_bytes ≤ claim_size source_size_bytes output_size_bytes)
      × (100 * claim_size source_size_bytes output_size_bytes
          ≤ max (100 * pvc_min_size_bytes) (115 * written))
      × (115 * written ≤ 100 * claim_size source_size_bytes output_size_bytes + 99)
unfolding compute_pvc_size_bytes
claim_size-bounds source_size_bytes output_size_bytes =
    (ground arith, ground arith, ground arith, ground arith, ground arith)

-- How often a number stands in a list.
abbrev pub count : ℕ → List ℕ → ℕ
count n [] = 0
count n (m ∷ ms) = let rest = count n ms in if m == n then suc rest else rest

abbrev pub ascending : List ℕ → Bool
ascending [] = true
ascending (n ∷ ns) = all (leb n) ns && ascending ns

abbrev numbers : List DiskSpec → List ℕ
numbers disks = map (λ (d : DiskSpec). d.disk_index) disks

abbrev pub device_numbers : Machine → List ℕ
device_numbers m = map (λ (d : Device). d.number) m.disks

abbrev pub volume_numbers : Machine → List ℕ
volume_numbers m = map (λ (v : Volume). v.number) m.volumes

count-insert_disk :
    (n : ℕ) (d : DiskSpec) (disks : List DiskSpec)
    → count n (numbers (insert_disk d disks)) ≡ count n (d.disk_index ∷ numbers disks)
unfolding insert_disk
count-insert_disk n d [] = refl
count-insert_disk n d (e ∷ disks) = ground (arith, count-insert_disk n d disks)

count-sort_disks :
    (n : ℕ) (disks : List DiskSpec) → count n (numbers (sort_disks disks)) ≡ count n (numbers disks)
unfolding sort_disks
count-sort_disks n [] = refl
count-sort_disks n (d ∷ disks) =
    ground (arith, count-sort_disks n disks, count-insert_disk n d (sort_disks disks))

all-insert_disk :
    (p : ℕ → Bool) (d : DiskSpec) (disks : List DiskSpec)
    → all p (numbers (insert_disk d disks)) ≡ (p d.disk_index && all p (numbers disks))
unfolding insert_disk
all-insert_disk p d [] = refl
all-insert_disk p d (e ∷ disks) = ground (arith, all-insert_disk p d disks)

all-leb : (m n : ℕ) (ns : List ℕ) → m ≤ n → all (leb n) ns ≡ true → all (leb m) ns ≡ true
all-leb m n [] low h = refl
all-leb m n (k ∷ ns) low h = ground (arith, all-leb m n ns)

ascending-insert_disk :
    (d : DiskSpec) (disks : List DiskSpec)
    → ascending (numbers disks) ≡ true
    → ascending (numbers (insert_disk d disks)) ≡ true
unfolding insert_disk
ascending-insert_disk d [] h = refl
ascending-insert_disk d (e ∷ disks) h = ground (
  arith,
  ascending-insert_disk d disks,
  all-insert_disk (leb e.disk_index) d disks,
  all-leb d.disk_index e.disk_index (numbers disks),
)

ascending-sort_disks : (disks : List DiskSpec) → ascending (numbers (sort_disks disks)) ≡ true
unfolding sort_disks
ascending-sort_disks [] = refl
ascending-sort_disks (d ∷ disks) =
    ascending-insert_disk d (sort_disks disks) (ascending-sort_disks disks)

numbers-devices :
    (disks : List DiskSpec)
    → map (λ (d : Device). d.number) (map build_disk_device disks) ≡ numbers disks
numbers-devices [] = refl
numbers-devices (d ∷ disks) = ground (arith, numbers-devices disks)

numbers-volumes :
    (disks : List DiskSpec)
    → map (λ (v : Volume). v.number) (map build_volume disks) ≡ numbers disks
numbers-volumes [] = refl
numbers-volumes (d ∷ disks) = ground (arith, numbers-volumes disks)

numbers-spec_of : (id : ℕ) (indices : List ℕ) → numbers (map (spec_of id) indices) ≡ indices
numbers-spec_of id [] = refl
numbers-spec_of id (n ∷ indices) = ground (arith, numbers-spec_of id indices)

-- The boot disk, and it alone, has a boot order.
abbrev pub boots_first : Device → Bool
boots_first d = bool_ne (is_some d.boot_order) (not (d.number == 0))

-- A volume holds the claim of its own disk in the migration.
abbrev pub holds_own : ℕ → Volume → Bool
holds_own migration_id v = v.claim.migration_id == migration_id && v.claim.disk_index == v.number

abbrev proper : ℕ → DiskSpec → Bool
proper id d = boots_first (build_disk_device d) && holds_own id (build_volume d)

proper-insert_disk :
    (id : ℕ) (d : DiskSpec) (disks : List DiskSpec)
    → all (proper id) (insert_disk d disks) ≡ (proper id d && all (proper id) disks)
unfolding insert_disk
proper-insert_disk id d [] = refl
proper-insert_disk id d (e ∷ disks) = ground (arith, proper-insert_disk id d disks)

proper-sorted :
    (id : ℕ) (indices : List ℕ) → all (proper id) (sort_disks (map (spec_of id) indices)) ≡ true
unfolding sort_disks
proper-sorted id [] = refl
proper-sorted id (n ∷ indices) = ground (
  arith,
  proper-sorted id indices,
  proper-insert_disk id (spec_of id n) (sort_disks (map (spec_of id) indices)),
)

proper-parts :
    (id : ℕ) (disks : List DiskSpec)
    → all (proper id) disks ≡ true
    → (all boots_first (map build_disk_device disks) ≡ true)
      × (all (holds_own id) (map build_volume disks) ≡ true)
proper-parts id [] h = (refl, refl)
proper-parts id (d ∷ disks) h =
    (ground (arith, proper-parts id disks), ground (arith, proper-parts id disks))

-- What a machine takes from the sorted disks of its guest.
parts_of :
    (g : Guest) (m : Machine) (disks : List DiskSpec)
    → g.disks ≡ disks
    → build_virtual_machine g ≡ some m
    → (m.disks ≡ map build_disk_device (sort_disks disks))
      × (m.volumes ≡ map build_volume (sort_disks disks))
unfolding build_virtual_machine
parts_of g m disks given built = (ground arith, ground arith)

-- The machine of a guest whose disks are those that the migrator hands over has one device and one
-- volume for each index, as often as it was given and under the same numbers in ascending order; the
-- disk of number zero and no other has a boot order, and every volume holds the claim of its own
-- number in the migration.
pub build_virtual_machine-disks :
    (g : Guest) (m : Machine) (id : ℕ) (indices : List ℕ) (n : ℕ)
    → g.disks ≡ map (spec_of id) indices
    → build_virtual_machine g ≡ some m
    → (device_numbers m ≡ volume_numbers m)
      × (ascending (device_numbers m) ≡ true)
      × (count n (device_numbers m) ≡ count n indices)
      × (all boots_first m.disks ≡ true)
      × (all (holds_own id) m.volumes ≡ true)
build_virtual_machine-disks g m id indices n given built =
    let disks = map (spec_of id) indices in
    let parts = parts_of g m disks given built in
    let devices =
      ap (map (λ (d : Device). d.number)) parts.0 ∙ numbers-devices (sort_disks disks) in
    let volumes =
      ap (map (λ (v : Volume). v.number)) parts.1 ∙ numbers-volumes (sort_disks disks) in
    let proper_parts = proper-parts id (sort_disks disks) (proper-sorted id indices) in
    (
      devices ∙ sym volumes,
      ap ascending devices ∙ ascending-sort_disks disks,
      ap (count n) devices ∙ count-sort_disks n disks ∙ ap (count n) (numbers-spec_of id indices),
      ap (all boots_first) parts.0 ∙ proper_parts.0,
      ap (all (holds_own id)) parts.1 ∙ proper_parts.1,
    )
