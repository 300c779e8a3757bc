-- ===== src/Frames/Bitmap.antt =====
-- Single frames in the bitmap of src/memory.c.
use my_kernel.Base.{
  ℕ, ◌-◌, ◌*◌, ◌^◌, ◌/◌, ◌%◌, ◌<◌, ◌≡◌, ◌≢◌, ap, sym, ◌∙◌, ◌==◌, true, false, if◌then◌else◌,
  Bool-cases, inl, inr, ne→not_==, ==_iff, List, length, get_or, set, arith, ℕ_discrete,
  get_or-set_self, get_or-set_ne, bit_and, bit_or,
}
use my_kernel.Base.Bits.{
  bit, bit-lt_two, bit-bit_or, bit-bit_and, bit-pow_self, bit-pow_ne, bit-mask_self, bit-mask_ne,
}
use my_kernel.Frames.{bitmap_set, bitmap_clear}

-- 1 if the frame is taken, and 0 if it is free.
abbrev pub taken : List ℕ → ℕ → ℕ
taken bitmap f = bit (f % 32) (get_or bitmap (f / 32) 0)

-- Two frames in one word have different bits.
same_word : (f g : ℕ) → f ≢ g → f / 32 ≡ g / 32 → f % 32 ≢ g % 32
same_word f g ne e = omega arith

word-set :
    (bitmap : List ℕ) (f g v : ℕ)
    → f < 32 * length bitmap
    → get_or (set bitmap (f / 32) v) (g / 32) 0
      ≡ (if f / 32 == g / 32 then v else get_or bitmap (g / 32) 0)
word-set bitmap f g v inside = elim (Bool-cases (f / 32 == g / 32)) [
  | inl same ↦
      let e : f / 32 ≡ g / 32 = (==_iff _ _).0 same in
      rw (same, ← e) (get_or-set_self bitmap (f / 32) v 0 (omega arith))
  | inr other ↦
      rw other
        (get_or-set_ne bitmap (f / 32) (g / 32) v 0 (λ e. cc ((==_iff (f / 32) (g / 32)).1 e)))
]

-- `w | (1 << b)` and `w & ~(1 << b)`, bit by bit.
bit-set_bit : (i b w : ℕ) → bit i (bit_or w (2 ^ b)) ≡ (if i == b then 1 else bit i w)
bit-set_bit i b w = elim (ℕ_discrete i b) [
  | yes e ↦
      let here : (i == b) ≡ true = (==_iff i b).1 e in
      let one : bit i (2 ^ b) ≡ 1 = rw e (bit-pow_self b) in
      rw here (omega (arith, bit-bit_or i w (2 ^ b), one, bit-lt_two i w))
  | no ne ↦ rw (ne→not_== i b ne) (omega (arith, bit-bit_or i w (2 ^ b), bit-pow_ne i b ne))
]

bit-clear_bit :
    (i b w : ℕ)
    → i < 32
    → b < 32
    → bit i (bit_and w (2 ^ 32 - 1 - 2 ^ b)) ≡ (if i == b then 0 else bit i w)
bit-clear_bit i b w hi hb = elim (ℕ_discrete i b) [
  | yes e ↦
      let here : (i == b) ≡ true = (==_iff i b).1 e in
      let off : bit i (2 ^ 32 - 1 - 2 ^ b) ≡ 0 = rw e (bit-mask_self 32 b hb) in
      rw here (omega (arith, bit-bit_and i w (2 ^ 32 - 1 - 2 ^ b), off))
  | no ne ↦ rw (ne→not_== i b ne) (
      omega
        (arith, bit-bit_and i w (2 ^ 32 - 1 - 2 ^ b), bit-mask_ne 32 i b hi hb ne, bit-lt_two i w))
]

-- A change of one bit of a frame's word, which leaves the other bits, changes that frame only.
taken-set :
    (bitmap : List ℕ) (f g v c : ℕ)
    → f < 32 * length bitmap
    → ((i : ℕ) → i < 32 → bit i v ≡ (if i == f % 32 then c else bit i (get_or bitmap (f / 32) 0)))
    → taken (set bitmap (f / 32) v) g ≡ (if f == g then c else taken bitmap g)
taken-set bitmap f g v c inside bits = elim (ℕ_discrete (f / 32) (g / 32)) [
  | yes same ↦
      let word : get_or (set bitmap (f / 32) v) (g / 32) 0 ≡ v =
        word-set bitmap f g v inside ∙ rw ((==_iff (f / 32) (g / 32)).1 same) in
      elim (ℕ_discrete f g) [
        | yes e ↦
            let here : (g % 32 == f % 32) ≡ true =
              (==_iff _ _).1 (ap (λ (t : ℕ). t % 32) (sym e)) in
            ap (bit (g % 32)) word ∙ bits (g % 32) (omega arith) ∙ rw (here, (==_iff f g).1 e)
        | no ne ↦
            let apart : (g % 32 == f % 32) ≡ false =
              ne→not_== _ _ (λ e. same_word f g ne same (sym e)) in
            ap (bit (g % 32)) word
            ∙ bits (g % 32) (omega arith)
            ∙ rw (apart, ne→not_== f g ne) (ap (λ (t : ℕ). bit (g % 32) (get_or bitmap t 0)) same)
      ]
  | no other ↦
      let apart : (f == g) ≡ false = ne→not_== f g (λ e. other (ap (λ (t : ℕ). t / 32) e)) in
      ap (bit (g % 32)) (word-set bitmap f g v inside)
      ∙ rw (ne→not_== (f / 32) (g / 32) other, apart)
]

-- bitmap_set takes the frame and changes no other.
pub taken-bitmap_set :
    (bitmap : List ℕ) (f g : ℕ)
    → f < 32 * length bitmap
    → taken (bitmap_set f bitmap) g ≡ (if f == g then 1 else taken bitmap g)
unfolding bitmap_set
taken-bitmap_set bitmap f g inside =
    let w = get_or bitmap (f / 32) 0 in
    taken-set bitmap f g (bit_or w (2 ^ (f % 32))) 1 inside (λ i hi. bit-set_bit i (f % 32) w)

-- bitmap_clear frees the frame and changes no other.
pub taken-bitmap_clear :
    (bitmap : List ℕ) (f g : ℕ)
    → f < 32 * length bitmap
    → taken (bitmap_clear f bitmap) g ≡ (if f == g then 0 else taken bitmap g)
unfolding bitmap_clear
taken-bitmap_clear bitmap f g inside =
    let w = get_or bitmap (f / 32) 0 in
    taken-set bitmap f g (bit_and w (2 ^ 32 - 1 - 2 ^ (f % 32))) 0 inside
      (λ i hi. bit-clear_bit i (f % 32) w hi (omega arith))
