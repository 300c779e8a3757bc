-- ===== src/Vfs/Read.antt =====
-- What vfs_read of src/disk.c brings of a disk file.
use my_kernel.Base.{
  ℕ, zero, suc, ◌+◌, ◌-◌, ◌*◌, ◌^◌, ◌/◌, ◌%◌, ◌<◌, ◌≤◌, ◌≡◌, ◌⊎◌, refl, ap₂, ◌∙◌, leb, min, false,
  inl, inr, some, arith, dec_lt, lt→ltb, le→not_ltb, le→leb,
}
use my_kernel.Disk.{Buffer, Device, ata_lba_read}
use my_kernel.Disk.Ata.{ata_lba_read-small}
use my_kernel.Vfs.{File, copy_chunk, chunk_of, Reading, read_round, read_loop, vfs_read}

-- Byte `o` of a file, in the sectors from its first one on.
abbrev pub file_byte : Device → File → ℕ → ℕ
file_byte device file o = device (file.lba_start + o / 512) (o % 512)

-- The reading has brought `bytes_read` bytes of the file at `start`, and left the buffer behind them.
pub record Brought (device : Device) (start : File) (target : Buffer) (r : Reading) : Type 0 where
  pub size : r.file.size ≡ start.size
  pub lba : r.file.lba_start ≡ start.lba_start
  pub offset : r.file.offset ≡ start.offset + r.bytes_read
  pub bytes : (k : ℕ) → k < r.bytes_read → r.target k ≡ file_byte device start (start.offset + k)
  pub others : (k : ℕ) → r.bytes_read ≤ k → r.target k ≡ target k

chunk_bounds :
    (offset left : ℕ)
    → 0 < left
    → (0 < chunk_of offset left)
      × (chunk_of offset left ≤ left)
      × (chunk_of offset left + offset % 512 ≤ 512)
chunk_bounds offset left more = ground arith

copy_chunk_lem :
    (target sector : Buffer) (n o chunk k : ℕ)
    → ((n ≤ k) × (k < n + chunk) × (copy_chunk target sector n o chunk k ≡ sector (o + (k - n))))
      ⊎ (((k < n) ⊎ (n + chunk ≤ k)) × (copy_chunk target sector n o chunk k ≡ target k))
unfolding copy_chunk
copy_chunk_lem target sector n o chunk k = ground arith

sector_byte :
    (device : Device) (lba o : ℕ)
    → lba < 2 ^ 28
    → o < 512
    → ata_lba_read device lba 1 (λ _. 0) o ≡ device (lba + o / 512) (o % 512)
sector_byte device lba o fits inside =
    ata_lba_read-small lba 1 fits (omega arith) (omega arith) device (λ _. 0) o
    ∙ rw (lt→ltb o (512 * 1) (omega arith)) refl

module _ (device : Device) (start : File) (target : Buffer) (count : ℕ) (r : Reading)
    (b : Brought device start target r) (more : r.bytes_read < count)
    (near : start.lba_start + (start.offset + count) / 512 < 2 ^ 28) where
  read_round-Brought :
      Brought device start target (read_round device count r)
      × (r.bytes_read < (read_round device count r).bytes_read)
      × ((read_round device count r).bytes_read ≤ count)
  unfolding read_round
  read_round-Brought =
      let chunk = chunk_of r.file.offset (count - r.bytes_read) in
      let sector = ata_lba_read device (r.file.lba_start + r.file.offset / 512) 1 (λ _. 0) in
      let bounds = chunk_bounds r.file.offset (count - r.bytes_read) (omega arith) in
      (
        record {
          size = b.size;
          lba = b.lba;
          offset = omega (arith, b.offset);
          bytes = λ k lt.
              elim (copy_chunk_lem r.target sector r.bytes_read (r.file.offset % 512) chunk k) [
                | inl (lo, hi, is) ↦
                    let o = r.file.offset % 512 + (k - r.bytes_read) in
                    is
                    ∙ sector_byte device (r.file.lba_start + r.file.offset / 512) o
                        (omega (arith, b.offset, b.lba, near)) (omega arith)
                    ∙ ap₂ device (omega (arith, b.offset, b.lba)) (omega (arith, b.offset))
                | inr (outside, is) ↦ is ∙ b.bytes k (omega arith)
              ];
          others = λ k ge.
              elim (copy_chunk_lem r.target sector r.bytes_read (r.file.offset % 512) chunk k) [
                | inl (lo, hi, is) ↦ absurd (omega arith)
                | inr (outside, is) ↦ is ∙ b.others k (omega arith)
              ];
        },
        omega arith,
        omega arith,
      )

read_loop-Brought :
    (device : Device) (start : File) (target : Buffer) (count fuel : ℕ) (r : Reading)
    → Brought device start target r
    → start.lba_start + (start.offset + count) / 512 < 2 ^ 28
    → r.bytes_read ≤ count
    → count < r.bytes_read + fuel
    → (after : Reading) × (read_loop device count fuel r ≡ some after)
      × Brought device start target after
      × (after.bytes_read ≡ count)
unfolding read_loop
read_loop-Brought device start target count zero r b near le enough = absurd (omega arith)
read_loop-Brought device start target count (suc fuel) r b near le enough =
    elim (dec_lt r.bytes_read count) [
      | no end ↦ rw (le→not_ltb r.bytes_read count (omega arith)) (r, refl, b, omega arith)
      | yes more ↦
          let (next, forward, within) =
            read_round-Brought device start target count r b more near in
          rw (lt→ltb r.bytes_read count more) (
            read_loop-Brought device start target count fuel (read_round device count r) next near
              within (omega arith))
    ]

-- A read of `count` bytes from a disk file of less than 2^31 bytes, whose sectors have numbers of 28
-- bits, always ends. It brings as many bytes as were asked for and as there are from the file's
-- offset to its size; byte `k` of the buffer is byte `offset + k` of the file, through its sectors;
-- the buffer behind them is as it was, and the offset has moved forward by the number of bytes.
pub vfs_read_lem :
    (device : Device) (file : File) (target : Buffer) (count : ℕ)
    → file.size < 2 ^ 31
    → file.lba_start + file.size / 512 < 2 ^ 28
    → (after : Reading) × (vfs_read device file target count ≡ some after)
      × Brought device file target after
      × (after.bytes_read ≡ min count (file.size - file.offset))
unfolding vfs_read
vfs_read_lem device file target count small near =
    let none_yet : Brought device file target
        (record { file = file; bytes_read = 0; target = target }) =
      record {
        size = refl;
        lba = refl;
        offset = omega arith;
        bytes = λ k lt. absurd (omega arith);
        others = λ k ge. refl;
      } in
    elim (dec_lt file.offset file.size) [
      | no end ↦ rw (le→leb file.size file.offset (omega arith)) (_, refl, none_yet, omega arith)
      | yes inside ↦
          let open_file : leb file.size file.offset ≡ false = ground arith in
          let positive : leb (2 ^ 31) (file.size - file.offset) ≡ false = ground arith in
          rw (open_file, positive)
            (read_loop-Brought device file target (min count (file.size - file.offset)) (suc count)
              _ none_yet (omega (arith, near)) (omega arith) (omega arith))
    ]
