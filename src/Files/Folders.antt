-- ===== src/Files/Folders.antt =====
-- The folders of src/disk.c: the parent of a path, a new folder, and the listing of the root.
use my_kernel.Base.{
  ℕ, zero, suc, ◌+◌, ◌*◌, ◌==◌, if◌then◌else◌, Bool, true, false, ◌&&◌, ◌||◌, not, Option, none,
  some, List, [], ◌∷◌, ◌++◌, length, reverse, replicate,
}
use my_kernel.Text.{itoa_digits}
use my_kernel.Disk.{Buffer, Device, ata_lba_write, Volume, cluster_to_lba}
use my_kernel.Fat.{
  Entry, Node, entry_at, find_in, entry_of, same_bytes, is_directory, parse_path_node,
}
use my_kernel.Files.{failure, root_sectors, sector_at, find_free, put_bytes, low_first2, low_first4}

-- What fat16_get_parent_dir writes: the directory, its sectors, and the last node of the path.
pub record Parent : Type 0 where
  pub dir_lba : ℕ
  pub dir_sectors : ℕ
  pub target : Node

-- The result of the search: -1, or the directory.
pub data Parents : Type 0 where
  no_parent : Parents
  parent : Parent → Parents

-- `name_match && (attr & 0x10)`
abbrev pub is_folder : Node → Entry → Bool
is_folder node e = same_bytes 8 e.name node.name && is_directory e

-- `while (1)`, with fuel; each node takes at least one byte of the path.
unfoldable pub parent_loop : Volume → Device → ℕ → List ℕ → ℕ → ℕ → Option Parents
parent_loop v device zero path lba sectors = none
parent_loop v device (suc fuel) path lba sectors = elim (parse_path_node path) [
  | none ↦ some no_parent
  | some (node, []) ↦ some (parent (record { dir_lba = lba; dir_sectors = sectors; target = node }))
  | some (node, c ∷ cs) ↦ elim (find_in (is_folder node) device lba sectors 0) [
    | none ↦ some no_parent
    | some place ↦
        parent_loop v device fuel (c ∷ cs) (cluster_to_lba v (entry_of device lba place).cluster)
          v.bpb.sectors_per_cluster
  ]
]

unfoldable pub fat16_get_parent_dir : Volume → Device → List ℕ → Option Parents
fat16_get_parent_dir v device full_path =
    parent_loop v device (length full_path + 1) full_path v.root_dir_start_lba 32

-- The fields of a new folder: the name, spaces, attribute 0x10, cluster 0 and size 0.
abbrev pub new_folder : List ℕ → ℕ → Buffer → Buffer
new_folder name i dir = put_bytes (32 * i + 28) (low_first4 0) (
    put_bytes (32 * i + 26) (low_first2 0) (
      put_bytes (32 * i + 11) (0x10 ∷ [])
        (put_bytes (32 * i + 8) (replicate 3 b' ') (put_bytes (32 * i) name dir))))

-- `none` is the end of the fuel of the search.
unfoldable pub ardaos_create_dir : Volume → List ℕ → Device → Option (ℕ × Device)
ardaos_create_dir v full_path device = elim (fat16_get_parent_dir v device full_path) [
  | none ↦ none
  | some no_parent ↦ some (failure, device)
  | some (parent p) ↦ elim (find_free device p.dir_lba p.dir_sectors 0) [
    | none ↦ some (failure, device)
    | some (s, i) ↦ some (
      0,
      ata_lba_write (p.dir_lba + s) 1
          (new_folder p.target.name i (sector_at device (p.dir_lba + s))) device,
    )
  ]
]

-- The characters up to a 0, as strcat copies them.
unfoldable pub text_of : List ℕ → List ℕ
text_of [] = []
text_of (c ∷ cs) = let rest = text_of cs in if c == 0 then [] else c ∷ rest

-- The size in digits, where it is below 2^31.
abbrev pub size_text : ℕ → List ℕ
size_text n = elim (itoa_digits 10 n) [ none ↦ [] | some ds ↦ reverse ds ]

-- One line of the listing.
abbrev pub line_of : Entry → List ℕ
line_of e =
    b'-' ∷ b' ' ∷ text_of e.name
    ++ (if is_directory e
        then (b' ' ∷ b' ' ∷ b' ' ∷ b'[' ∷ b'K' ∷ b'L' ∷ b'A' ∷ b'S' ∷ b'O' ∷ b'R' ∷ b']' ∷ b'\n'
            ∷ [])
        else b'.' ∷ text_of e.ext
          ++ (b' ' ∷ b' ' ∷ b' ' ∷ b'(' ∷ [])
          ++ size_text e.size
          ++ (b' ' ∷ b'B' ∷ b'a' ∷ b'y' ∷ b't' ∷ b')' ∷ b'\n' ∷ []))

-- `dir[i].name[0] == 0xE5 || dir[i].attr == 0x0F || dir[i].attr == 0x08`
abbrev pub is_hidden : ℕ → Entry → Bool
is_hidden first e = first == 0xE5 || e.attr == 0x0F || e.attr == 0x08

-- The state of the listing: its text, the files found, and whether it has met the end.
pub record Listing : Type 0 where
  pub output : List ℕ
  pub found : ℕ
  pub ended : Bool

-- `for (i = 0; i < 16; i++)`, with the rounds left.
unfoldable pub list_sector : ℕ → ℕ → Buffer → Listing → Listing
list_sector zero i sector l = l
list_sector (suc n) i sector l =
    let e = entry_at sector i in
    elim (sector (32 * i) == 0) [
      | true ↦ record l { ended = true }
      | false ↦ elim (is_hidden (sector (32 * i)) e) [
        | true ↦ list_sector n (i + 1) sector l
        | false ↦
            list_sector n (i + 1) sector
              (record { output = l.output ++ line_of e; found = l.found + 1; ended = false })
      ]
    ]

-- `for (s = 0; s < root_sectors; s++)`; the end of the directory returns.
unfoldable pub list_sectors : Device → ℕ → ℕ → ℕ → Listing → Listing
list_sectors device lba zero s l = l
list_sectors device lba (suc n) s l =
    let here = list_sector 16 0 (sector_at device (lba + s)) l in
    elim here.ended [ true ↦ here | false ↦ list_sectors device lba n (s + 1) here ]

unfoldable pub ardaos_list_files : Volume → Device → List ℕ
ardaos_list_files v device =
    let title : List ℕ =
      (b'=' ∷ b'=' ∷ b'=' ∷ b' ' ∷ b'F' ∷ b'A' ∷ b'T' ∷ b'1' ∷ b'6' ∷ b' ' ∷ b'D' ∷ b'I' ∷ b'S'
        ∷ b'K' ∷ b' ' ∷ b'I' ∷ b'C' ∷ b'E' ∷ b'R' ∷ b'I' ∷ b'G' ∷ b'I' ∷ b' ' ∷ b'=' ∷ b'=' ∷ b'='
        ∷ b'\n' ∷ []) in
    let l =
      list_sectors device v.root_dir_start_lba (root_sectors v) 0
        (record { output = title; found = 0; ended = false }) in
    if not l.ended && (l.found == 0)
    then l.output
      ++ (b'D' ∷ b'i' ∷ b's' ∷ b'k' ∷ b' ' ∷ b't' ∷ b'a' ∷ b'm' ∷ b'a' ∷ b'm' ∷ b'e' ∷ b'n' ∷ b' '
          ∷ b'b' ∷ b'o' ∷ b's' ∷ b'.' ∷ [])
    else l.output
