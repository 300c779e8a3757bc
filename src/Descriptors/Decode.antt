-- ===== src/Descriptors/Decode.antt =====
-- What the processor reads from the descriptors of src/gdt.c and src/idt.c.
use my_kernel.Base.{
  ℕ, ◌+◌, ◌*◌, ◌/◌, ◌%◌, ◌^◌, ◌<◌, ◌≡◌, ◌≢◌, refl, ap, ◌∙◌, bit_and, bit_or, arith, ==_iff,
  ne→not_==,
}
use my_kernel.Base.Bits.{bit_and-mask, bit_and-high, bit_or-fields_low}
use my_kernel.Descriptors.{GdtEntry, Gdt, gdt_set_gate, IdtEntry, Idt, idt_set_gate}

-- The fields of a segment descriptor, put together from their parts.
abbrev pub segment_base : GdtEntry → ℕ
segment_base e = e.base_low + e.base_middle * 2 ^ 16 + e.base_high * 2 ^ 24

abbrev pub segment_limit : GdtEntry → ℕ
segment_limit e = e.limit_low + e.granularity % 16 * 2 ^ 16

abbrev pub segment_flags : GdtEntry → ℕ
segment_flags e = e.granularity / 16

abbrev pub handler_address : IdtEntry → ℕ
handler_address e = e.offset_lowerbits + e.offset_higherbits * 2 ^ 16

high_nibble : (gran : ℕ) → gran < 256 → bit_and gran 0xF0 ≡ gran / 16 * 2 ^ 4
high_nibble gran fits =
    let parts : gran ≡ gran / 16 * 2 ^ 4 + gran % 16 = omega arith in
    ap (λ (t : ℕ). bit_and t 0xF0) parts
    ∙ bit_and-high 4 (gran / 16) (gran % 16) 15 (omega arith)
    ∙ ap (λ (t : ℕ). t * 16) (bit_and-mask 4 (gran / 16) ∙ omega arith)

-- From a segment gate the processor reads back the base, the low 20 bits of the limit, the upper
-- half of the granularity byte and the access byte that were set; the other gates do not change. The
-- base has 32 bits, and the granularity is a byte.
pub gdt_set_gate_lem :
    (num base limit access gran : ℕ) (gdt : Gdt)
    → base < 2 ^ 32
    → gran < 256
    → let after = gdt_set_gate num base limit access gran gdt in
      (segment_base (after num) ≡ base)
      × (segment_limit (after num) ≡ limit % 2 ^ 20)
      × (segment_flags (after num) ≡ gran / 16)
      × ((after num).access ≡ access)
      × ((i : ℕ) → i ≢ num → after i ≡ gdt i)
unfolding gdt_set_gate
gdt_set_gate_lem num base limit access gran gdt fits byte =
    let low = bit_and-mask 16 base in
    let middle = bit_and-mask 8 (base / 2 ^ 16) in
    let high = bit_and-mask 8 (base / 2 ^ 24) in
    let limit_low = bit_and-mask 16 limit in
    let limit_high = bit_and-mask 4 (limit / 2 ^ 16) in
    let flags = high_nibble gran byte in
    let joined : bit_or (limit / 2 ^ 16 % 2 ^ 4) (gran / 16 * 2 ^ 4)
        ≡ limit / 2 ^ 16 % 2 ^ 4 + gran / 16 * 2 ^ 4 =
      bit_or-fields_low 4 (gran / 16) (limit / 2 ^ 16 % 2 ^ 4) (omega arith) in
    rw ((==_iff num num).1 refl, low, middle, high, limit_low, limit_high, flags, joined)
      (omega arith, omega arith, omega arith, refl, λ i ne. rw (ne→not_== i num ne) refl)

-- From an interrupt gate the processor reads back the handler's address of 32 bits, the selector and
-- the attributes; the other gates do not change.
pub idt_set_gate_lem :
    (num base sel flags : ℕ) (idt : Idt)
    → base < 2 ^ 32
    → let after = idt_set_gate num base sel flags idt in
      (handler_address (after num) ≡ base)
      × ((after num).selector ≡ sel)
      × ((after num).type_attr ≡ flags)
      × ((after num).zero_byte ≡ 0)
      × ((i : ℕ) → i ≢ num → after i ≡ idt i)
unfolding idt_set_gate
idt_set_gate_lem num base sel flags idt fits =
    let low = bit_and-mask 16 base in
    let high = bit_and-mask 16 (base / 2 ^ 16) in
    rw ((==_iff num num).1 refl, low, high)
      (omega arith, refl, refl, refl, λ i ne. rw (ne→not_== i num ne) refl)
