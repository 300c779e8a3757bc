-- ===== src/Files.antt =====
-- The files of src/disk.c: what the calls on directories share, and the search for free places.
pub mod Load
pub mod Save
pub mod Remove
pub mod Folders
pub mod Chunks
pub mod Chain
pub mod Parents
pub mod Cluster
use my_kernel.Base.{
  ℕ, zero, suc, ◌+◌, ◌-◌, ◌*◌, ◌^◌, ◌/◌, ◌%◌, ◌==◌, ltb, leb, if◌then◌else◌, Bool, true, false,
  ◌&&◌, ◌||◌, not, Option, none, some, List, [], ◌∷◌,
}
use my_kernel.Text.{strncmp}
use my_kernel.Disk.{Buffer, Device, ata_lba_read, ata_lba_write, Volume}
use my_kernel.Fat.{Entry, bytes_at, find_in}

-- The result -1 as a word.
abbrev pub failure : ℕ
failure = 2 ^ 32 - 1

-- `root_sectors = (dir_entries * 32) / 512; if (root_sectors == 0) root_sectors = 32;`
unfoldable pub root_sectors : Volume → ℕ
root_sectors v = let n = v.bpb.dir_entries * 32 / 512 in if n == 0 then 32 else n

-- `strncmp(a, b, n) == 0` on `n` bytes of each.
abbrev pub equal_bytes : ℕ → List ℕ → List ℕ → Bool
equal_bytes n a b = elim (strncmp a b n) [ none ↦ false | some d ↦ d == 0 ]

-- `strncmp(dir[i].name, filename, 8) == 0 && strncmp(dir[i].ext, ext, 3) == 0`
abbrev pub is_named : Buffer → Buffer → Entry → Bool
is_named filename ext e =
    equal_bytes 8 e.name (bytes_at filename 0 8) && equal_bytes 3 e.ext (bytes_at ext 0 3)

-- A sector in the local array.
abbrev pub sector_at : Device → ℕ → Buffer
sector_at device lba = ata_lba_read device lba 1 (λ _. 0)

-- `for (i = 0; i < 16; i++) if (dir[i].name[0] == 0x00 || dir[i].name[0] == 0xE5)`, with the rounds
-- left.
unfoldable pub free_slot : ℕ → ℕ → Buffer → Option ℕ
free_slot zero i sector = none
free_slot (suc n) i sector =
    let rest = free_slot n (i + 1) sector in
    if sector (32 * i) == 0 || sector (32 * i) == 0xE5 then some i else rest

-- The same over the sectors of a directory: the sector and the slot.
unfoldable pub find_free : Device → ℕ → ℕ → ℕ → Option (ℕ × ℕ)
find_free device lba zero s = none
find_free device lba (suc n) s =
    let rest = find_free device lba n (s + 1) in
    elim (free_slot 16 0 (sector_at device (lba + s))) [ some i ↦ some (s, i) | none ↦ rest ]

-- Bytes at an offset of a sector.
unfoldable pub put_bytes : ℕ → List ℕ → Buffer → Buffer
put_bytes o [] sector = sector
put_bytes o (b ∷ bs) sector = put_bytes (o + 1) bs (λ k. if k == o then b else sector k)

-- A word of two and of four bytes, the low byte first.
abbrev pub low_first2 : ℕ → List ℕ
low_first2 w = w % 2 ^ 8 ∷ w / 2 ^ 8 % 2 ^ 8 ∷ []

abbrev pub low_first4 : ℕ → List ℕ
low_first4 w = w % 2 ^ 8 ∷ w / 2 ^ 8 % 2 ^ 8 ∷ w / 2 ^ 16 % 2 ^ 8 ∷ w / 2 ^ 24 % 2 ^ 8 ∷ []
