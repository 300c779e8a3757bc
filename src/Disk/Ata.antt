-- ===== src/Disk/Ata.antt =====
-- The transfers of src/disk.c.
use my_kernel.Base.{
  ℕ, ◌+◌, ◌-◌, ◌*◌, ◌^◌, ◌/◌, ◌%◌, ◌<◌, ◌≤◌, ◌≡◌, refl, ap₂, ◌∙◌, ◌==◌, ltb, leb, if◌then◌else◌,
  ◌&&◌, bit_and, bit_or, arith, ◌⊎◌, lt→ltb, le→leb, ne→not_==, false,
}
use my_kernel.Base.Bits.{bit_and-mask, bit_or-fields}
use my_kernel.Disk.{
  sectors, register, selected, ata_command, ata_lba_read, ata_lba_write, Device, Buffer,
}

-- The registers select the sector whose number was asked for, up to 28 bits of it, in LBA mode on
-- the first drive, and what goes to the drive register fits a byte.
pub selected-ata_command :
    (command lba n : ℕ)
    → (selected (ata_command command lba n) ≡ lba % 2 ^ 28)
      × (register (ata_command command lba n) 0x1F6 / 16 ≡ 0xE)
      × (register (ata_command command lba n) 0x1F6 < 256)
unfolding ata_command
selected-ata_command command lba n =
    let top : bit_and (lba / 2 ^ 24) 0x0F ≡ lba / 2 ^ 24 % 16 = bit_and-mask 4 (lba / 2 ^ 24) in
    let high : bit_or 0xE0 (lba / 2 ^ 24 % 16) ≡ 0xE0 + lba / 2 ^ 24 % 16 =
      bit_or-fields 4 14 (lba / 2 ^ 24 % 16) (omega arith) in
    rw (top, high, bit_and-mask 8 lba, bit_and-mask 8 (lba / 2 ^ 8), bit_and-mask 8 (lba / 2 ^ 16))
      (omega arith)

selected-lba : (command lba n : ℕ) → lba < 2 ^ 28 → selected (ata_command command lba n) ≡ lba
selected-lba command lba n fits = (selected-ata_command command lba n).0 ∙ omega arith

sectors-small : (n : ℕ) → 0 < n → n < 256 → sectors n ≡ n
sectors-small n some_sector byte =
    let real : (n % 2 ^ 8 == 0) ≡ false = ne→not_== (n % 2 ^ 8) 0 (omega arith) in
    rw real (omega arith)

-- A transfer of one to 255 sectors whose numbers have 28 bits.
module _ (lba n : ℕ) (fits : lba < 2 ^ 28) (some_sector : 0 < n) (byte : n < 256) where
  pub ata_lba_read-small :
      (device : Device) (target : Buffer) (k : ℕ)
      → ata_lba_read device lba n target k
        ≡ (if ltb k (512 * n) then device (lba + k / 512) (k % 512) else target k)
  unfolding ata_lba_read
  ata_lba_read-small device target k =
      ap₂
        (λ (m first : ℕ). if ltb k (512 * m) then device (first + k / 512) (k % 512) else target k)
        (sectors-small n some_sector byte) (selected-lba 0x20 lba n fits)

  ata_lba_write-small :
      (source : Buffer) (device : Device) (l o : ℕ)
      → ata_lba_write lba n source device l o
        ≡ (if leb lba l && ltb l (lba + n) then source ((l - lba) * 512 + o) else device l o)
  unfolding ata_lba_write
  ata_lba_write-small source device l o =
      ap₂
        (λ (m first : ℕ).
          if leb first l && ltb l (first + m) then source ((l - first) * 512 + o) else device l o)
        (sectors-small n some_sector byte) (selected-lba 0x30 lba n fits)

-- One to 255 sectors, whose numbers have 28 bits, are written and read back, on a device that takes
-- the number of the first from the registers that the two functions write: the read brings the bytes of the write,
-- and no sector but those asked for changes.
pub read-write :
    (device : Device) (lba n : ℕ) (source target : Buffer)
    → 0 < n
    → n < 256
    → lba + n ≤ 2 ^ 28
    → ((k : ℕ)
        → k < 512 * n
        → ata_lba_read (ata_lba_write lba n source device) lba n target k ≡ source k)
      × ((l o : ℕ) → (l < lba) ⊎ (lba + n ≤ l) → ata_lba_write lba n source device l o ≡ device l o)
read-write device lba n source target some_sector byte within =
    let fits : lba < 2 ^ 28 = omega arith in
    (
      (λ k inside.
          let place : (lba + k / 512 - lba) * 512 + k % 512 ≡ k = omega arith in
          ata_lba_read-small lba n fits some_sector byte (ata_lba_write lba n source device) target
            k
          ∙ rw (lt→ltb k (512 * n) inside) (
              ata_lba_write-small lba n fits some_sector byte source device (lba + k / 512)
                (k % 512)
              ∙ rw
                  (
                    le→leb lba (lba + k / 512) (omega arith),
                    lt→ltb (lba + k / 512) (lba + n) (omega arith),
                    place,
                  )
                  refl)),
      λ l o outside.
          ata_lba_write-small lba n fits some_sector byte source device l o
          ∙ other_sector l o outside,
    )
  where
    other_sector :
        (l o : ℕ)
        → (l < lba) ⊎ (lba + n ≤ l)
        → (if leb lba l && ltb l (lba + n) then source ((l - lba) * 512 + o) else device l o)
          ≡ device l o
    other_sector l o outside = ground arith
