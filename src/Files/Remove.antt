-- ===== src/Files/Remove.antt =====
-- ardaos_delete_file of src/disk.c: the mark in the directory, and the chain of clusters.
use my_kernel.Base.{
  ℕ, zero, suc, ◌+◌, ◌*◌, ltb, leb, if◌then◌else◌, true, false, ◌&&◌, Option, none, some, List, [],
  ◌∷◌, ◌++◌, get_elem?, set, length, take,
}
use my_kernel.Disk.{Buffer, Device, ata_lba_write, Volume, word_at}
use my_kernel.Fat.{entry_at, find_in}
use my_kernel.Files.{failure, root_sectors, is_named, sector_at, put_bytes, low_first2}
use my_kernel.Files.Save.{write_fat}

-- The end of the loop over the chain: the table, an index behind all the words that are given, or
-- the end of the fuel.
pub data Freed : Type 0 where
  freed : List ℕ → Freed
  outside : Freed
  no_fuel : Freed

-- `while (current_cluster >= 2 && current_cluster < 0xFFF8)`. The table is an array of 256 words, and
-- an index of 256 or more, which the code does not test for, reads and clears a word of the memory
-- behind it: the list is the array with as many of these words as are given.
unfoldable pub free_chain : ℕ → ℕ → List ℕ → Freed
free_chain zero cluster fat_table = no_fuel
free_chain (suc fuel) cluster fat_table = elim (leb 2 cluster && ltb cluster 0xFFF8) [
  | false ↦ freed fat_table
  | true ↦ elim (get_elem? fat_table cluster) [
    | none ↦ outside
    | some next ↦ free_chain fuel next (set fat_table cluster 0)
  ]
]

-- `unsigned short fat_table[256]` of a sector, and back.
unfoldable pub words_of : ℕ → ℕ → Buffer → List ℕ
words_of zero i sector = []
words_of (suc n) i sector = word_at sector (2 * i) ∷ words_of n (i + 1) sector

unfoldable pub bytes_of : List ℕ → List ℕ
bytes_of [] = []
bytes_of (w ∷ ws) = low_first2 w ++ bytes_of ws

-- The mark goes to the disk before the chain is freed. `behind` is the memory behind the table, and
-- `none` is an access behind that. The disk gets the 256 words of the table.
unfoldable pub ardaos_delete_file : Volume → Buffer → Buffer → List ℕ → Device → Option (ℕ × Device)
ardaos_delete_file v filename ext behind device =
    elim (find_in (is_named filename ext) device v.root_dir_start_lba (root_sectors v) 0) [
      | none ↦ some (failure, device)
      | some (s, i) ↦
          let dir = sector_at device (v.root_dir_start_lba + s) in
          let cluster = (entry_at dir i).cluster in
          let marked =
            ata_lba_write (v.root_dir_start_lba + s) 1 (put_bytes (32 * i) (0xE5 ∷ []) dir)
              device in
          if ltb cluster 2
          then some (0, marked)
          else elim (free_chain (258 + length behind) cluster
              (words_of 256 0 (sector_at marked v.bpb.reserved_sectors) ++ behind)) [
                | freed t ↦
                    some (0, write_fat v 0 (put_bytes 0 (bytes_of (take 256 t)) (λ _. 0)) marked)
                | outside ↦ none
                | no_fuel ↦ none
              ]
    ]
