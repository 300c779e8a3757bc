-- ===== src/Disk.antt =====
-- The sectors of the ATA disk of src/disk.c, and the BIOS parameter block that init_disk reads.
-- The device is a function from a sector's number and an offset to a byte; a transfer of sectors
-- copies bytes between it and a buffer, which is a function from an offset to a byte.
pub mod Ata
pub mod Geometry
use my_kernel.Base.{
  ℕ, zero, suc, ◌+◌, ◌-◌, ◌*◌, ◌^◌, ◌/◌, ◌%◌, ◌==◌, ltb, leb, if◌then◌else◌, Bool, true, false,
  ◌&&◌, ◌||◌, not, bit_and, bit_or, Option, none, some, List, [], ◌∷◌, ◌++◌, get_or, length,
}

abbrev pub Buffer : Type 0
Buffer = ℕ → ℕ

abbrev pub Device : Type 0
Device = ℕ → ℕ → ℕ

-- One `outb(port, value)`.
pub record Out : Type 0 where
  pub port : ℕ
  pub value : ℕ

abbrev pub out : ℕ → ℕ → Out
out p v = record { port = p; value = v }

-- `unsigned char sector_count`, where a count of 0 is taken for 1.
abbrev pub sectors : ℕ → ℕ
sectors sector_count = if sector_count % 2 ^ 8 == 0 then 1 else sector_count % 2 ^ 8

-- The register writes that start a transfer: the sector's number in 28 bits, the count and the
-- command.
unfoldable pub ata_command : ℕ → ℕ → ℕ → List Out
ata_command command lba sector_count =
    out 0x1F6 (bit_or 0xE0 (bit_and (lba / 2 ^ 24) 0x0F))
    ∷ out 0x1F2 (sectors sector_count)
    ∷ out 0x1F3 (bit_and lba 0xFF)
    ∷ out 0x1F4 (bit_and (lba / 2 ^ 8) 0xFF)
    ∷ out 0x1F5 (bit_and (lba / 2 ^ 16) 0xFF)
    ∷ out 0x1F7 command
    ∷ []

-- What the device is documented to do with its registers: the sector that they select. First the
-- value last written to a port.
abbrev pub register : List Out → ℕ → ℕ
register [] p = 0
register (o ∷ os) p = if o.port == p then o.value else register os p

abbrev pub selected : List Out → ℕ
selected os =
    register os 0x1F6 % 16 * 2 ^ 24
    + register os 0x1F5 * 2 ^ 16
    + register os 0x1F4 * 2 ^ 8
    + register os 0x1F3

-- What the transfer brings: the sectors from the selected one on, into the buffer from its start.
unfoldable pub ata_lba_read : Device → ℕ → ℕ → Buffer → Buffer
ata_lba_read device lba sector_count target k =
    if ltb k (512 * sectors sector_count)
    then device (selected (ata_command 0x20 lba sector_count) + k / 512) (k % 512)
    else target k

unfoldable pub ata_lba_write : ℕ → ℕ → Buffer → Device → Device
ata_lba_write lba sector_count source device l o =
    let first = selected (ata_command 0x30 lba sector_count) in
    if leb first l && ltb l (first + sectors sector_count)
    then source ((l - first) * 512 + o)
    else device l o

-- The fields of `fat16_bpb_t` that the code uses, with the two addresses derived from them.
pub record Bpb : Type 0 where
  pub bytes_per_sector : ℕ
  pub sectors_per_cluster : ℕ
  pub reserved_sectors : ℕ
  pub fat_count : ℕ
  pub dir_entries : ℕ
  pub sectors_per_fat : ℕ

pub record Volume : Type 0 where
  pub bpb : Bpb
  pub root_dir_start_lba : ℕ
  pub data_start_lba : ℕ

-- `bytes[i] | (bytes[i + 1] << 8)`
unfoldable pub word_at : Buffer → ℕ → ℕ
word_at bytes i = bit_or (bytes i) (bytes (i + 1) * 2 ^ 8)

-- The geometry that init_disk falls back to.
abbrev pub default_bpb : Bpb
default_bpb = record {
  bytes_per_sector = 512;
  sectors_per_cluster = 1;
  reserved_sectors = 1;
  fat_count = 2;
  dir_entries = 512;
  sectors_per_fat = 32;
}

unfoldable pub read_bpb : Buffer → Bpb
read_bpb bytes = record {
  bytes_per_sector = word_at bytes 11;
  sectors_per_cluster = bytes 13;
  reserved_sectors = word_at bytes 14;
  fat_count = bytes 16;
  dir_entries = word_at bytes 17;
  sectors_per_fat = word_at bytes 22;
}

unfoldable pub volume_of : Bpb → Volume
volume_of b =
    let root = b.reserved_sectors + b.fat_count * b.sectors_per_fat in
    record { bpb = b; root_dir_start_lba = root; data_start_lba = root + b.dir_entries * 32 / 512 }

-- The boot sector is read until its signature shows or the attempts run out; whatever the last
-- attempt brought is then used.
unfoldable pub init_disk : Buffer → Volume
init_disk boot_sector =
    let b = read_bpb boot_sector in
    if not (b.bytes_per_sector == 512)
      || b.sectors_per_cluster == 0
      || b.dir_entries == 0
      || b.sectors_per_fat == 0
    then volume_of default_bpb
    else volume_of b

unfoldable pub cluster_to_lba : Volume → ℕ → ℕ
cluster_to_lba v cluster =
    if ltb cluster 2
    then v.root_dir_start_lba
    else (v.data_start_lba + (cluster - 2) * v.bpb.sectors_per_cluster) % 2 ^ 32
