-- ===== src/Files/Save.antt =====
-- ardaos_write_file of src/disk.c: the place in the root directory, the cluster and the data.
use my_kernel.Base.{
  ℕ, zero, suc, ◌+◌, ◌-◌, ◌*◌, ◌^◌, ◌/◌, ◌%◌, ◌==◌, ltb, leb, if◌then◌else◌, ◌||◌, Option, none,
  some, [], ◌∷◌,
}
use my_kernel.Disk.{Buffer, Device, ata_lba_write, Volume, word_at}
use my_kernel.Fat.{bytes_at, entry_at, find_in}
use my_kernel.Files.{
  failure, root_sectors, is_named, sector_at, find_free, put_bytes, low_first2, low_first4,
}

-- The place of the file in the root directory, and its cluster, where it has one.
unfoldable pub place_of : Volume → Device → Buffer → Buffer → Option ((ℕ × ℕ) × Option ℕ)
place_of v device filename ext =
    elim (find_in (is_named filename ext) device v.root_dir_start_lba (root_sectors v) 0) [
      | some (s, i) ↦
          let c = (entry_at (sector_at device (v.root_dir_start_lba + s)) i).cluster in
          some ((s, i), if ltb c 2 then none else some c)
      | none ↦ elim (find_free device v.root_dir_start_lba (root_sectors v) 0) [
        | some place ↦ some (place, none)
        | none ↦ none
      ]
    ]

-- `for (i = start_c; i < 256; i++) if (fat_table[i] == 0x0000)`, with the rounds left.
unfoldable pub free_cluster : ℕ → ℕ → Buffer → Option ℕ
free_cluster zero i fat_table = none
free_cluster (suc n) i fat_table =
    let rest = free_cluster n (i + 1) fat_table in
    if word_at fat_table (2 * i) == 0 then some i else rest

-- The sector of the table is written back, to the second copy too where there is one.
abbrev pub write_fat : Volume → ℕ → Buffer → Device → Device
write_fat v fs fat_table device =
    let first = ata_lba_write (v.bpb.reserved_sectors + fs) 1 fat_table device in
    if ltb 1 v.bpb.fat_count
    then ata_lba_write (v.bpb.reserved_sectors + v.bpb.sectors_per_fat + fs) 1 fat_table first
    else first

-- `for (fs = 0; fs < fat_sectors; fs++)`: the cluster that is taken.
unfoldable pub take_cluster : Volume → Device → ℕ → ℕ → Option (ℕ × Device)
take_cluster v device zero fs = none
take_cluster v device (suc n) fs =
    let rest = take_cluster v device n (fs + 1) in
    let fat_table = sector_at device (v.bpb.reserved_sectors + fs) in
    let start_c = if fs == 0 then 2 else 0 in
    elim (free_cluster (256 - start_c) start_c fat_table) [
      | some i ↦
          some
            (fs * 256 + i, write_fat v fs (put_bytes (2 * i) (low_first2 0xFFFF) fat_table) device)
      | none ↦ rest
    ]

-- The fields of a new entry: name, extension, attribute 0, cluster, and size, time and date 0.
abbrev pub new_file : Buffer → Buffer → ℕ → ℕ → Buffer → Buffer
new_file filename ext cluster i dir = put_bytes (32 * i + 26) (low_first2 cluster) (
    put_bytes (32 * i + 22) (0 ∷ 0 ∷ 0 ∷ 0 ∷ []) (
      put_bytes (32 * i + 28) (low_first4 0) (
        put_bytes (32 * i + 11) (0 ∷ []) (
          put_bytes (32 * i + 8) (bytes_at ext 0 3)
            (put_bytes (32 * i) (bytes_at filename 0 8) dir)))))

-- The end: the data goes to the cluster's sectors, and the size into the entry.
unfoldable pub write_data : Volume → ℕ × ℕ → ℕ → ℕ → Buffer → Buffer → Device → ℕ × Device
write_data v (s, i) cluster size source dir device =
    let actual_lba = (v.data_start_lba + (cluster - 2) * v.bpb.sectors_per_cluster) % 2 ^ 32 in
    if leb actual_lba v.root_dir_start_lba || ltb cluster 2 then (failure, device) else (
      0,
      ata_lba_write (v.root_dir_start_lba + s) 1 (put_bytes (32 * i + 28) (low_first4 size) dir)
          (ata_lba_write actual_lba ((size + 511) / 512) source device),
    )

unfoldable pub ardaos_write_file : Volume → Buffer → Buffer → ℕ → Buffer → Device → ℕ × Device
ardaos_write_file v filename ext size source device =
    let size' = if size == 0 || ltb 10240 size then 512 else size in
    elim (place_of v device filename ext) [
      | none ↦ (failure, device)
      | some ((s, i), some cluster) ↦
          write_data v (s, i) cluster size' source (sector_at device (v.root_dir_start_lba + s))
            device
      | some ((s, i), none) ↦ elim (take_cluster v device v.bpb.sectors_per_fat 0) [
        | none ↦ (failure, device)
        | some (cluster, device') ↦
            write_data v (s, i) cluster size' source
              (new_file filename ext cluster i (sector_at device (v.root_dir_start_lba + s)))
              device'
      ]
    ]
