-- ===== src/Disk/Geometry.antt =====
-- The layout that init_disk of src/disk.c computes.
use my_kernel.Base.{
  ℕ, ◌+◌, ◌-◌, ◌*◌, ◌^◌, ◌/◌, ◌%◌, ◌<◌, ◌≤◌, ◌≡◌, refl, ◌∙◌, ◌==◌, false, ◌||◌, not, Bool-cases,
  inl, inr, arith, ne→not_==, le→not_ltb,
}
use my_kernel.Base.Bits.{bit_or-fields_low}
use my_kernel.Disk.{
  Buffer, Bpb, Volume, default_bpb, word_at, read_bpb, volume_of, init_disk, cluster_to_lba,
}

-- A geometry with which the other functions can work.
pub record IsUsable (v : Volume) : Type 0 where
  pub sector : v.bpb.bytes_per_sector ≡ 512
  pub cluster : 0 < v.bpb.sectors_per_cluster
  pub directory : 0 < v.bpb.dir_entries
  pub table : 0 < v.bpb.sectors_per_fat
  pub root_at :
      v.root_dir_start_lba ≡ v.bpb.reserved_sectors + v.bpb.fat_count * v.bpb.sectors_per_fat
  pub data_at : v.data_start_lba ≡ v.root_dir_start_lba + v.bpb.dir_entries / 16

volume_of-IsUsable :
    (b : Bpb)
    → b.bytes_per_sector ≡ 512
    → 0 < b.sectors_per_cluster
    → 0 < b.dir_entries
    → 0 < b.sectors_per_fat
    → IsUsable (volume_of b)
unfolding volume_of
volume_of-IsUsable b hs hc hd hf = record {
  sector = hs;
  cluster = hc;
  directory = hd;
  table = hf;
  root_at = refl;
  data_at = omega arith;
}

-- Whatever the boot sector holds, the geometry in use is workable: the sectors have 512 bytes, no
-- divisor or size is zero, and the root directory and the data area follow the tables.
pub init_disk-IsUsable : (boot_sector : Buffer) → IsUsable (init_disk boot_sector)
unfolding init_disk
init_disk-IsUsable boot_sector =
    let b = read_bpb boot_sector in
    elim (Bool-cases (
      not (b.bytes_per_sector == 512)
      || b.sectors_per_cluster == 0
      || b.dir_entries == 0
      || b.sectors_per_fat == 0)) [
        | inl bad ↦
            rw bad (volume_of-IsUsable default_bpb refl (omega arith) (omega arith) (omega arith))
        | inr fine ↦ rw fine (checked b fine)
      ]
  where
    checked :
        (b : Bpb)
        → (not (b.bytes_per_sector == 512)
            || b.sectors_per_cluster == 0
            || b.dir_entries == 0
            || b.sectors_per_fat == 0)
          ≡ false
        → IsUsable (volume_of b)
    checked b fine =
        volume_of-IsUsable b (ground arith) (ground arith) (ground arith) (ground arith)

-- A boot sector that holds a geometry, its words with the low byte first.
pub record Holds (bytes : Buffer) (b : Bpb) : Type 0 where
  pub sector_low : bytes 11 ≡ b.bytes_per_sector % 256
  pub sector_high : bytes 12 ≡ b.bytes_per_sector / 256
  pub cluster : bytes 13 ≡ b.sectors_per_cluster
  pub reserved_low : bytes 14 ≡ b.reserved_sectors % 256
  pub reserved_high : bytes 15 ≡ b.reserved_sectors / 256
  pub count : bytes 16 ≡ b.fat_count
  pub entries_low : bytes 17 ≡ b.dir_entries % 256
  pub entries_high : bytes 18 ≡ b.dir_entries / 256
  pub table_low : bytes 22 ≡ b.sectors_per_fat % 256
  pub table_high : bytes 23 ≡ b.sectors_per_fat / 256

pub word_at-split :
    (bytes : Buffer) (i w : ℕ) → bytes i ≡ w % 256 → bytes (i + 1) ≡ w / 256 → word_at bytes i ≡ w
unfolding word_at
word_at-split bytes i w lo hi =
    rw (lo, hi) (bit_or-fields_low 8 (w / 256) (w % 256) (omega arith) ∙ omega arith)

read_bpb-Holds : (bytes : Buffer) (b : Bpb) → Holds bytes b → read_bpb bytes ≡ b
unfolding read_bpb
read_bpb-Holds bytes b h = rw (
  word_at-split bytes 11 b.bytes_per_sector h.sector_low h.sector_high,
  word_at-split bytes 14 b.reserved_sectors h.reserved_low h.reserved_high,
  word_at-split bytes 17 b.dir_entries h.entries_low h.entries_high,
  word_at-split bytes 22 b.sectors_per_fat h.table_low h.table_high,
  h.cluster,
  h.count,
)

-- init_disk reads back the geometry that a boot sector holds, if it is one with sectors of 512 bytes
-- and no size of zero.
pub init_disk-Holds :
    (bytes : Buffer) (b : Bpb)
    → Holds bytes b
    → IsUsable (volume_of b)
    → init_disk bytes ≡ volume_of b
unfolding init_disk volume_of
init_disk-Holds bytes b h u = rw (
  read_bpb-Holds bytes b h,
  usable_sector b.bytes_per_sector sector,
  ne→not_== b.sectors_per_cluster 0 (omega arith),
  ne→not_== b.dir_entries 0 (omega arith),
  ne→not_== b.sectors_per_fat 0 (omega arith),
)
  where
    sector : b.bytes_per_sector ≡ 512
    sector = u.sector

    usable_sector : (n : ℕ) → n ≡ 512 → not (n == 512) ≡ false
    usable_sector n e = ground arith

times_gap : (c d s : ℕ) → c < d → c * s + s ≤ d * s
times_gap c d s h = grind arith

-- The sectors of two data clusters do not overlap, and none of them lies before the data area, if
-- the numbers of the sectors fit 32 bits.
pub cluster_to_lba-disjoint :
    (v : Volume) (c d : ℕ)
    → 2 ≤ c
    → c < d
    → v.data_start_lba + d * v.bpb.sectors_per_cluster < 2 ^ 32
    → (v.data_start_lba ≤ cluster_to_lba v c)
      × (cluster_to_lba v c + v.bpb.sectors_per_cluster ≤ cluster_to_lba v d)
unfolding cluster_to_lba
cluster_to_lba-disjoint v c d hc hd fits =
    let s = v.bpb.sectors_per_cluster in
    let gap : (c - 2) * s + s ≤ (d - 2) * s = times_gap (c - 2) (d - 2) s (omega arith) in
    let top : (d - 2) * s ≤ d * s = grind arith in
    rw (le→not_ltb c 2 hc, le→not_ltb d 2 (omega arith)) (omega (arith, gap, top))
