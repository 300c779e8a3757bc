-- ===== src/Files/Load.antt =====
-- ardaos_read_file of src/disk.c: the path with a spare extension, and the file in chunks.
use my_kernel.Base.{
  ℕ, zero, suc, ◌+◌, ◌-◌, ◌*◌, ◌^◌, ◌/◌, ◌%◌, ◌==◌, ltb, if◌then◌else◌, Bool, true, false, ◌||◌,
  Option, none, some, List, [], ◌∷◌, ◌++◌, length,
}
use my_kernel.Disk.{Buffer, Device, ata_lba_read, Volume, cluster_to_lba}
use my_kernel.Fat.{is_directory, failed, done, fat16_find_entry}
use my_kernel.Files.{failure}

-- `for (k = 0; k < n && text[k] != ' ' && text[k] != 0; k++)`: the characters copied.
unfoldable pub word_from : ℕ → Buffer → ℕ → List ℕ
word_from zero text k = []
word_from (suc n) text k = elim (text k == b' ' || text k == 0) [
  | true ↦ []
  | false ↦ text k ∷ word_from n text (k + 1)
]

unfoldable pub has_dot : List ℕ → Bool
has_dot [] = false
has_dot (c ∷ cs) = c == b'.' || has_dot cs

-- `full_path`, where a null pointer is `none`.
unfoldable pub path_of : Option Buffer → Option Buffer → List ℕ
path_of filename ext =
    let stem : List ℕ = elim filename [ none ↦ [] | some f ↦ word_from 60 f 0 ] in
    let spare : List ℕ = elim ext [ none ↦ [] | some e ↦ word_from 3 e 0 ] in
    elim spare [ [] ↦ stem | c ∷ cs ↦ if has_dot stem then stem else stem ++ b'.' ∷ c ∷ cs ]

-- The sectors go to the buffer from an offset on: `dest_ptr`.
abbrev pub read_at : Device → ℕ → ℕ → ℕ → Buffer → Buffer
read_at device lba n offset target k =
    if ltb k offset
    then target k
    else ata_lba_read device lba n (λ j. target (offset + j)) (k - offset)

-- `while (sectors_to_read > 0)` in chunks of at most 128 sectors, with fuel.
unfoldable pub read_chunks : ℕ → Device → ℕ → ℕ → ℕ → Buffer → Option Buffer
read_chunks zero device lba n offset target = none
read_chunks (suc fuel) device lba n offset target =
    let chunk = if ltb 128 n then 128 else n in
    let rest =
      read_chunks fuel device (lba + chunk) (n - chunk) (offset + 512 * chunk)
        (read_at device lba chunk offset target) in
    if ltb 0 n then rest else some target

-- The sectors of a file; a file without bytes gets one.
abbrev pub file_sectors : ℕ → ℕ
file_sectors size = if size == 0 then 1 else (size + 511) % 2 ^ 32 / 512

-- The size, or -1, and the buffer, on a disk of fewer than 2^32 sectors. `none` is a read of the
-- entry that fat16_find_entry leaves unwritten, where the path is empty, and a terminator behind the
-- 64 bytes of `full_path`.
unfoldable pub ardaos_read_file :
    Volume → Device → Option Buffer → Option Buffer → Buffer → Option (ℕ × Buffer)
ardaos_read_file v device filename ext target =
    let path = path_of filename ext in
    if ltb 63 (length path) then none else (elim (fat16_find_entry v device path) [
      | none ↦ none
      | some failed ↦ some (failure, target)
      | some (done none) ↦ none
      | some (done (some e)) ↦
          if is_directory e
          then some (failure, target)
          else elim (read_chunks (file_sectors e.size + 1) device (cluster_to_lba v e.cluster)
              (file_sectors e.size) 0 target) [ none ↦ none | some t ↦ some (e.size, t) ]
    ])
