-- ===== src/Fat.antt =====
-- The FAT16 directories of src/disk.c: path nodes, directory entries, and the search for an entry.
pub mod Path
pub mod Names
pub mod Find
use my_kernel.Base.{
  ℕ, zero, suc, ◌+◌, ◌-◌, ◌*◌, ◌^◌, ◌/◌, ◌%◌, ◌==◌, ltb, leb, if◌then◌else◌, Bool, true, false,
  ◌&&◌, ◌||◌, not, bit_and, bit_or, Option, none, some, List, [], ◌∷◌, ◌++◌, get_or, length,
  replicate, set,
}
use my_kernel.Disk.{Buffer, Device, ata_lba_read, word_at, Volume, cluster_to_lba}

abbrev pub is_slash : ℕ → Bool
is_slash c = c == b'/' || c == b'\\'

-- `if (c >= 'a' && c <= 'z') c -= 32;`
unfoldable pub upper : ℕ → ℕ
upper c = if leb b'a' c && leb c b'z' then c - 32 else c

-- A path is the list of the bytes up to its terminator. `if (**path == '/' ...) (*path)++;`
unfoldable pub skip_slash : List ℕ → List ℕ
skip_slash [] = []
skip_slash (c ∷ path) = if is_slash c then path else c ∷ path

-- The first loop: the name, up to a slash or a dot, from its byte `i` on. What does not fit 8 bytes
-- is skipped.
unfoldable pub read_name : ℕ → List ℕ → List ℕ → List ℕ × List ℕ
read_name i name [] = (name, [])
read_name i name (c ∷ path) =
    let store = ltb i 8 in
    let name' = if store then set name i (upper c) else name in
    let i' = if store then i + 1 else i in
    let rest = read_name i' name' path in if is_slash c || c == b'.' then (name, c ∷ path) else rest

-- The second loop: the extension, up to a slash, in 3 bytes.
unfoldable pub read_ext : ℕ → List ℕ → List ℕ → List ℕ × List ℕ
read_ext j ext [] = (ext, [])
read_ext j ext (c ∷ path) =
    let store = ltb j 3 in
    let ext' = if store then set ext j (upper c) else ext in
    let j' = if store then j + 1 else j in
    let rest = read_ext j' ext' path in if is_slash c then (ext, c ∷ path) else rest

-- `if (**path == '.') { (*path)++; ... }`
unfoldable pub read_dot : List ℕ → List ℕ × List ℕ
read_dot [] = (replicate 3 b' ', [])
read_dot (c ∷ path) =
    if c == b'.' then read_ext 0 (replicate 3 b' ') path else (replicate 3 b' ', c ∷ path)

pub record Node : Type 0 where
  pub name : List ℕ
  pub ext : List ℕ

-- The node and the path behind it; `none` is the result 0.
unfoldable pub parse_path_node : List ℕ → Option (Node × List ℕ)
unfolding skip_slash
parse_path_node path = elim (skip_slash path) [
  | [] ↦ none
  | c ∷ rest ↦
      let (name, after) = read_name 0 (replicate 8 b' ') (c ∷ rest) in
      let (ext, behind) = read_dot after in
      some (record { name = name; ext = ext }, skip_slash behind)
]

-- `directory_entry_t`: the fields that the code reads.
pub record Entry : Type 0 where
  pub name : List ℕ
  pub ext : List ℕ
  pub attr : ℕ
  pub cluster : ℕ
  pub size : ℕ

-- `n` bytes from offset `o` on.
abbrev pub bytes_at : Buffer → ℕ → ℕ → List ℕ
bytes_at b o zero = []
bytes_at b o (suc n) = b o ∷ bytes_at b (o + 1) n

-- Entry `i` of a sector: 32 bytes each, words with the low byte first.
unfoldable pub entry_at : Buffer → ℕ → Entry
unfolding word_at
entry_at sector i = record {
  name = bytes_at sector (32 * i) 8;
  ext = bytes_at sector (32 * i + 8) 3;
  attr = sector (32 * i + 11);
  cluster = word_at sector (32 * i + 26);
  size = bit_or (word_at sector (32 * i + 28)) (word_at sector (32 * i + 30) * 2 ^ 16);
}

-- `for (i = 0; i < 16; i++)`: the end of the directory stops the loop, and deleted entries are
-- passed over; `n` rounds are left.
unfoldable pub find_slot : (Entry → Bool) → ℕ → ℕ → Buffer → Option ℕ
find_slot matches zero i sector = none
find_slot matches (suc n) i sector =
    let rest = find_slot matches n (i + 1) sector in
    let first = sector (32 * i) in
    if first == 0
    then none
    else (if first == 0xE5 then rest else (if matches (entry_at sector i) then some i else rest))

-- `for (s = 0; s < dir_sectors; s++)`: the sector and the slot of the first match.
unfoldable pub find_in : (Entry → Bool) → Device → ℕ → ℕ → ℕ → Option (ℕ × ℕ)
find_in matches device lba zero s = none
find_in matches device lba (suc n) s =
    let rest = find_in matches device lba n (s + 1) in
    elim (find_slot matches 16 0 (ata_lba_read device (lba + s) 1 (λ _. 0))) [
      | some i ↦ some (s, i)
      | none ↦ rest
    ]

-- The entry at a place that the search found.
abbrev pub entry_of : Device → ℕ → ℕ × ℕ → Entry
entry_of device lba (s, i) = entry_at (ata_lba_read device (lba + s) 1 (λ _. 0)) i

-- `for (k = 0; k < n; k++) if (a[k] != b[k]) match = 0;`
unfoldable pub same_bytes : ℕ → List ℕ → List ℕ → Bool
same_bytes zero a b = true
same_bytes (suc n) [] b = false
same_bytes (suc n) (x ∷ a) [] = false
same_bytes (suc n) (x ∷ a) (y ∷ b) = x == y && same_bytes n a b

abbrev pub is_directory : Entry → Bool
is_directory e = not (bit_and e.attr 0x10 == 0)

abbrev pub matches_node : Node → Entry → Bool
matches_node n e = same_bytes 8 e.name n.name && same_bytes 3 e.ext n.ext

-- The result of fat16_find_entry: -1, or 0 with what it wrote to `*out_entry`, if it did.
pub data Lookup : Type 0 where
  failed : Lookup
  done : Option Entry → Lookup

-- `while (parse_path_node(...))` of fat16_find_entry, with the directory to look in, its sectors and
-- what was written to `*out_entry`. Each node takes at least one byte of the path, which bounds the
-- rounds; `none` is the end of the fuel.
unfoldable pub find_entry_loop : Volume → Device → ℕ → List ℕ → ℕ → ℕ → Option Entry → Option Lookup
find_entry_loop v device zero path lba sectors out_entry = none
find_entry_loop v device (suc fuel) path lba sectors out_entry = elim (parse_path_node path) [
  | none ↦ some (done out_entry)
  | some (node, rest) ↦ elim (find_in (matches_node node) device lba sectors 0) [
    | none ↦ some failed
    | some place ↦
        let e = entry_of device lba place in
        let deeper =
          find_entry_loop v device fuel rest (cluster_to_lba v e.cluster) v.bpb.sectors_per_cluster
            (some e) in
        let last = find_entry_loop v device fuel rest lba sectors (some e) in
        elim rest [ [] ↦ last | c ∷ cs ↦ if is_directory e then deeper else some failed ]
  ]
]

unfoldable pub fat16_find_entry : Volume → Device → List ℕ → Option Lookup
fat16_find_entry v device full_path =
    find_entry_loop v device (length full_path + 1) full_path v.root_dir_start_lba 32 none
