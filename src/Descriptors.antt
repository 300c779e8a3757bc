-- ===== src/Descriptors.antt =====
-- The segment and interrupt descriptors of src/gdt.c and src/idt.c.
pub mod Decode
use my_kernel.Base.{
  ℕ, ◌+◌, ◌-◌, ◌*◌, ◌/◌, ◌%◌, ◌^◌, ◌==◌, if◌then◌else◌, Bool, true, false, bit_and, bit_or,
}

-- `struct GDT_entry`
pub record GdtEntry : Type 0 where
  pub limit_low : ℕ
  pub base_low : ℕ
  pub base_middle : ℕ
  pub access : ℕ
  pub granularity : ℕ
  pub base_high : ℕ

abbrev pub Gdt : Type 0
Gdt = ℕ → GdtEntry

unfoldable pub gdt_set_gate : ℕ → ℕ → ℕ → ℕ → ℕ → Gdt → Gdt
gdt_set_gate num base limit access gran gdt i =
    if i == num
    then record {
      base_low = bit_and base 0xFFFF;
      base_middle = bit_and (base / 2 ^ 16) 0xFF;
      base_high = bit_and (base / 2 ^ 24) 0xFF;
      limit_low = bit_and limit 0xFFFF;
      granularity = bit_or (bit_and (limit / 2 ^ 16) 0x0F) (bit_and gran 0xF0);
      access = access;
    }
    else gdt i

-- An entry of `idt`.
pub record IdtEntry : Type 0 where
  pub offset_lowerbits : ℕ
  pub selector : ℕ
  pub zero_byte : ℕ
  pub type_attr : ℕ
  pub offset_higherbits : ℕ

abbrev pub Idt : Type 0
Idt = ℕ → IdtEntry

unfoldable pub idt_set_gate : ℕ → ℕ → ℕ → ℕ → Idt → Idt
idt_set_gate num base sel flags idt i =
    if i == num
    then record {
      offset_lowerbits = bit_and base 0xFFFF;
      offset_higherbits = bit_and (base / 2 ^ 16) 0xFFFF;
      selector = sel;
      zero_byte = 0;
      type_attr = flags;
    }
    else idt i
