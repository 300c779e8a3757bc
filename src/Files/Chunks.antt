-- ===== src/Files/Chunks.antt =====
-- The chunks of ardaos_read_file in src/disk.c bring what one transfer would.
use my_kernel.Base.{
  ℕ, zero, suc, ◌+◌, ◌-◌, ◌*◌, ◌/◌, ◌%◌, ◌^◌, ◌<◌, ◌≤◌, ◌≡◌, refl, ap, ap₂, fun_ext, sym, ◌∙◌, ltb,
  if◌then◌else◌, some, arith, dec_lt, lt→ltb, le→not_ltb,
}
use my_kernel.Disk.{Buffer, Device}
use my_kernel.Disk.Ata.{ata_lba_read-small}
use my_kernel.Files.Load.{read_at, read_chunks}

-- The buffer with `n` sectors from `lba` on at an offset.
abbrev pub loaded : Device → ℕ → ℕ → ℕ → Buffer → Buffer
loaded device lba n offset target k =
    if ltb k offset
    then target k
    else (if ltb k (offset + 512 * n)
        then device (lba + (k - offset) / 512) ((k - offset) % 512)
        else target k)

module _ (device : Device) (lba n offset : ℕ) (target : Buffer) (k : ℕ) where
  loaded-before : k < offset → loaded device lba n offset target k ≡ target k
  loaded-before lt = rw (lt→ltb k offset lt) refl

  loaded-inside :
      offset ≤ k
      → k < offset + 512 * n
      → loaded device lba n offset target k ≡ device (lba + (k - offset) / 512) ((k - offset) % 512)
  loaded-inside le lt = rw (le→not_ltb k offset le, lt→ltb k (offset + 512 * n) lt) refl

  loaded-behind : offset + 512 * n ≤ k → loaded device lba n offset target k ≡ target k
  loaded-behind le = rw (le→not_ltb k offset (omega arith), le→not_ltb k (offset + 512 * n) le) refl

-- One transfer of some sectors.
read_at-loaded :
    (device : Device) (lba n offset : ℕ) (target : Buffer) (k : ℕ)
    → 0 < n
    → n < 256
    → lba < 2 ^ 28
    → read_at device lba n offset target k ≡ loaded device lba n offset target k
read_at-loaded device lba n offset target k pos byte fits = elim (dec_lt k offset) [
  | yes lt ↦ rw (lt→ltb k offset lt) refl
  | no ge ↦
      let back : offset + (k - offset) ≡ k = omega arith in
      let shifted : Buffer = λ j. target (offset + j) in
      rw (le→not_ltb k offset (omega arith)) (
        ata_lba_read-small lba n fits pos byte device shifted (k - offset)
        ∙ rw back (elim (dec_lt k (offset + 512 * n)) [
          | yes lt ↦
              rw (lt→ltb (k - offset) (512 * n) (omega arith), lt→ltb k (offset + 512 * n) lt) refl
          | no ge' ↦
              rw
                (
                  le→not_ltb (k - offset) (512 * n) (omega arith),
                  le→not_ltb k (offset + 512 * n) (omega arith),
                )
                refl
        ]))
]

-- Two transfers that follow on each other.
loaded-loaded :
    (device : Device) (lba m n offset : ℕ) (target : Buffer) (k : ℕ)
    → loaded device (lba + m) n (offset + 512 * m) (loaded device lba m offset target) k
      ≡ loaded device lba (m + n) offset target k
loaded-loaded device lba m n offset target k =
    let first = loaded device lba m offset target in
    let end : offset + 512 * (m + n) ≡ offset + 512 * m + 512 * n = omega arith in
    elim (dec_lt k (offset + 512 * m)) [
      | yes lt ↦ loaded-before device (lba + m) n (offset + 512 * m) first k lt ∙ inner lt
      | no ge ↦ elim (dec_lt k (offset + 512 * m + 512 * n)) [
        | yes lt ↦
            let column : lba + m + (k - (offset + 512 * m)) / 512 ≡ lba + (k - offset) / 512 =
              omega arith in
            let row : (k - (offset + 512 * m)) % 512 ≡ (k - offset) % 512 = omega arith in
            loaded-inside device (lba + m) n (offset + 512 * m) first k (omega arith) lt
            ∙ ap₂ device column row
            ∙ sym (loaded-inside device lba (m + n) offset target k (omega arith) (omega arith))
        | no ge' ↦
            loaded-behind device (lba + m) n (offset + 512 * m) first k (omega arith)
            ∙ loaded-behind device lba m offset target k (omega arith)
            ∙ sym (loaded-behind device lba (m + n) offset target k (omega arith))
      ]
    ]
  where
    inner :
        k < offset + 512 * m
        → loaded device lba m offset target k ≡ loaded device lba (m + n) offset target k
    inner lt = elim (dec_lt k offset) [
      | yes before ↦
          loaded-before device lba m offset target k before
          ∙ sym (loaded-before device lba (m + n) offset target k before)
      | no ge ↦
          loaded-inside device lba m offset target k (omega arith) lt
          ∙ sym (loaded-inside device lba (m + n) offset target k (omega arith) (omega arith))
    ]

loaded-zero :
    (device : Device) (lba offset : ℕ) (target : Buffer) (k : ℕ)
    → loaded device lba 0 offset target k ≡ target k
loaded-zero device lba offset target k = elim (dec_lt k offset) [
  | yes lt ↦ loaded-before device lba 0 offset target k lt
  | no ge ↦ loaded-behind device lba 0 offset target k (omega arith)
]

-- Reading in chunks of at most 128 sectors, whose numbers have 28 bits, ends, and brings the bytes of
-- all the sectors in their order, and nothing else changes. As many rounds as sectors, and
-- one, are enough.
pub read_chunks-loaded :
    (fuel : ℕ) (device : Device) (lba n offset : ℕ) (target : Buffer)
    → n < fuel
    → lba + n ≤ 2 ^ 28
    → read_chunks fuel device lba n offset target ≡ some (loaded device lba n offset target)
unfolding read_chunks
read_chunks-loaded zero device lba n offset target lt fits = absurd (omega arith)
read_chunks-loaded (suc fuel) device lba n offset target lt fits = elim (dec_lt 0 n) [
  | no done ↦
      let none_left : n ≡ 0 = omega arith in
      let same : loaded device lba n offset target ≡ target =
        ap (λ (m : ℕ). loaded device lba m offset target) none_left
        ∙ fun_ext (loaded-zero device lba offset target) in
      rw (read_chunks, le→not_ltb 0 n (omega arith)) (ap some (sym same))
  | yes more ↦
      let c = if ltb 128 n then 128 else n in
      let size : (0 < c) × (c ≤ n) × (c < 256) = chunk more in
      let one : read_at device lba c offset target ≡ loaded device lba c offset target =
        fun_ext (λ k.
          read_at-loaded device lba c offset target k size.0 size.2
            (omega (arith, size.0, size.1, fits))) in
      let sum : c + (n - c) ≡ n = omega (arith, size.1) in
      let rest =
        read_chunks-loaded fuel device (lba + c) (n - c) (offset + 512 * c)
          (read_at device lba c offset target) (omega (arith, size.0, size.1))
          (omega (arith, size.1, fits)) in
      let whole : loaded device (lba + c) (n - c) (offset + 512 * c)
            (read_at device lba c offset target)
          ≡ loaded device lba n offset target =
        ap (loaded device (lba + c) (n - c) (offset + 512 * c)) one
        ∙ fun_ext (loaded-loaded device lba c (n - c) offset target)
        ∙ ap (λ (m : ℕ). loaded device lba m offset target) sum in
      rw (read_chunks, lt→ltb 0 n more) (rest ∙ ap some whole)
]
  where
    chunk :
        0 < n
        → (0 < (if ltb 128 n then 128 else n))
          × ((if ltb 128 n then 128 else n) ≤ n)
          × ((if ltb 128 n then 128 else n) < 256)
    chunk more = elim (dec_lt 128 n) [
      | yes big ↦ rw (lt→ltb 128 n big) (omega arith, omega arith, omega arith)
      | no small ↦ rw (le→not_ltb 128 n (omega arith)) (omega arith, omega arith, omega arith)
    ]
