-- ===== src/Vfs.antt =====
-- The disk files of the descriptor table in src/disk.c: vfs_read on a file of type 0.
pub mod Read
use my_kernel.Base.{
  ℕ, zero, suc, ◌+◌, ◌-◌, ◌*◌, ◌^◌, ◌/◌, ◌%◌, ◌==◌, ltb, leb, min, if◌then◌else◌, Bool, true, false,
  not, ◌&&◌, ◌||◌, Option, none, some, List, [], ◌∷◌,
}
use my_kernel.Disk.{Buffer, Device, ata_lba_read}

-- The fields of `file_obj_t` that a disk file has in use.
pub record File : Type 0 where
  pub size : ℕ
  pub offset : ℕ
  pub lba_start : ℕ

-- `for (i = 0; i < chunk; i++) target_buffer[bytes_read + i] = byte_temp[offset_in_sec + i];`
unfoldable pub copy_chunk : Buffer → Buffer → ℕ → ℕ → ℕ → Buffer
copy_chunk target sector bytes_read offset_in_sec chunk k =
    if leb bytes_read k && ltb k (bytes_read + chunk)
    then sector (offset_in_sec + (k - bytes_read))
    else target k

-- `int chunk = 512 - offset_in_sec; if (chunk > (count - bytes_read)) chunk = count - bytes_read;`
abbrev pub chunk_of : ℕ → ℕ → ℕ
chunk_of offset left = if ltb left (512 - offset % 512) then left else 512 - offset % 512

-- The state of the loop.
pub record Reading : Type 0 where
  pub file : File
  pub bytes_read : ℕ
  pub target : Buffer

-- One round of the loop.
unfoldable pub read_round : Device → ℕ → Reading → Reading
read_round device count r =
    let chunk = chunk_of r.file.offset (count - r.bytes_read) in
    let sector = ata_lba_read device (r.file.lba_start + r.file.offset / 512) 1 (λ _. 0) in
    record {
      file = record r.file { offset = r.file.offset + chunk };
      bytes_read = r.bytes_read + chunk;
      target = copy_chunk r.target sector r.bytes_read (r.file.offset % 512) chunk;
    }

-- `while (bytes_read < count)`; `none` is the end of the fuel.
unfoldable pub read_loop : Device → ℕ → ℕ → Reading → Option Reading
read_loop device count zero r = none
read_loop device count (suc fuel) r =
    let rest = read_loop device count fuel (read_round device count r) in
    if ltb r.bytes_read count then rest else some r

-- The part of vfs_read behind the tests on the type, for a `count` that is not negative. The offset
-- and the size are words; `int bytes_left` is negative where 2^31 bytes or more are left, and then
-- nothing is read.
unfoldable pub vfs_read : Device → File → Buffer → ℕ → Option Reading
vfs_read device file target_buffer count =
    let start : Reading = record { file = file; bytes_read = 0; target = target_buffer } in
    let bytes_left = file.size - file.offset in
    if leb file.size file.offset || leb (2 ^ 31) bytes_left
    then some start
    else read_loop device (min count bytes_left) (suc count) start
