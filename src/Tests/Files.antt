-- ===== src/Tests/Files.antt =====
-- Runs of the models of the disk and the directories of src/disk.c.
use my_kernel.Base.{
  ℕ, ◌+◌, ◌-◌, ◌*◌, ◌%◌, ◌<◌, ◌≤◌, ◌≡◌, ◌⊎◌, refl, ◌==◌, if◌then◌else◌, min, some, List, [], ◌∷◌,
  replicate, arith,
}
use my_kernel.Disk.{
  Buffer, Device, Volume, default_bpb, volume_of, init_disk, cluster_to_lba, ata_lba_read,
  ata_lba_write,
}
use my_kernel.Disk.Ata.{read-write}
use my_kernel.Disk.Geometry.{IsUsable, Holds, init_disk-IsUsable, cluster_to_lba-disjoint}
use my_kernel.Fat.{Node, Lookup, matches_node, find_slot, fat16_find_entry}
use my_kernel.Fat.Find.{SlotScan, find_slot_lem, fat16_find_entry-total}
use my_kernel.Vfs.{File, Reading, vfs_read}
use my_kernel.Vfs.Read.{Brought, vfs_read_lem}

-- A boot sector with the fields of the default geometry.
abbrev boot_sector : Buffer
boot_sector k =
    if k == 12
    then 2
    else (if k == 13
        then 1
        else (if k == 14
            then 1
            else (if k == 16 then 2 else (if k == 18 then 2 else (if k == 22 then 32 else 0)))))

boot_sector-Holds : Holds boot_sector default_bpb
boot_sector-Holds = record {
  sector_low = refl;
  sector_high = refl;
  cluster = refl;
  reserved_low = refl;
  reserved_high = refl;
  count = refl;
  entries_low = refl;
  entries_high = refl;
  table_low = refl;
  table_high = refl;
}

default-IsUsable : IsUsable (volume_of default_bpb)
unfolding volume_of
default-IsUsable = record {
  sector = refl;
  cluster = omega arith;
  directory = omega arith;
  table = omega arith;
  root_at = refl;
  data_at = refl;
}

init_disk-IsUsable_example : IsUsable (init_disk boot_sector)
init_disk-IsUsable_example = init_disk-IsUsable boot_sector

abbrev volume : Volume
volume = record { bpb = default_bpb; root_dir_start_lba = 65; data_start_lba = 97 }

cluster_to_lba-disjoint_example :
    (97 ≤ cluster_to_lba volume 2) × (cluster_to_lba volume 2 + 1 ≤ cluster_to_lba volume 300)
cluster_to_lba-disjoint_example =
    cluster_to_lba-disjoint volume 2 300 (omega arith) (omega arith) (omega arith)

abbrev device : Device
device l o = (l + o) % 256

abbrev zeros : Buffer
zeros k = 0

abbrev counting : Buffer
counting k = k % 256

read-write_example :
    ((k : ℕ)
      → k < 512 * 2
      → ata_lba_read (ata_lba_write 97 2 counting device) 97 2 zeros k ≡ counting k)
    × ((l o : ℕ) → (l < 97) ⊎ (97 + 2 ≤ l) → ata_lba_write 97 2 counting device l o ≡ device l o)
read-write_example = read-write device 97 2 counting zeros (omega arith) (omega arith) (omega arith)

-- "ab/c.t"
abbrev path : List ℕ
path = b'a' ∷ b'b' ∷ b'/' ∷ b'c' ∷ b'.' ∷ b't' ∷ []

abbrev node : Node
node = record { name = b'A' ∷ b'B' ∷ replicate 6 b' '; ext = replicate 3 b' ' }

find_slot_lem_example :
    SlotScan (matches_node node) counting 0 16 (find_slot (matches_node node) 16 0 counting)
find_slot_lem_example = find_slot_lem (matches_node node) counting

fat16_find_entry-total_example : (r : Lookup) × (fat16_find_entry volume device path ≡ some r)
fat16_find_entry-total_example = fat16_find_entry-total volume device path

abbrev file : File
file = record { size = 1300; offset = 500; lba_start = 120 }

vfs_read_lem_example :
    (after : Reading) × (vfs_read device file zeros 700 ≡ some after)
    × Brought device file zeros after
    × (after.bytes_read ≡ min 700 (1300 - 500))
vfs_read_lem_example = vfs_read_lem device file zeros 700 (omega arith) (omega arith)
