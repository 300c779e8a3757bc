-- ===== src/Frames/Alloc.antt =====
-- pmm_alloc_block and pmm_free_block of src/memory.c.
use my_kernel.Base.{
  ℕ, zero, suc, ◌+◌, ◌-◌, ◌*◌, ◌^◌, ◌/◌, ◌%◌, ◌<◌, ◌≤◌, ◌≡◌, ◌⊎◌, refl, ap, sym, ◌∙◌, ◌==◌, true,
  false, if◌then◌else◌, Bool-cases, inl, inr, ==_iff, List, [], ◌∷◌, length, arith, ltb, lt→ltb,
  Option, none, some, bit_and, ℕ_discrete, dec_lt,
}
use my_kernel.Base.Bits.{bit, bit-lt_two, bit_and-pow, ones-bit}
use native.Mathlib.Nat.{one-le-pow}
use my_kernel.Frames.{
  bitmap_clear, find_bit, find_from, alloc_block, free_block, block_size, bitmap_size,
}
use my_kernel.Frames.Bitmap.{taken, taken-bitmap_set, taken-bitmap_clear}

-- The test `!(word & (1 << b))`.
free_bit : (b word : ℕ) → (bit_and word (2 ^ b) == 0) ≡ true → bit b word ≡ 0
free_bit b word e =
    let none_set : bit b word * 2 ^ b ≡ 0 = sym (bit_and-pow b word) ∙ (==_iff _ 0).0 e in
    grind (arith, none_set, one-le-pow b 2, bit-lt_two b word)

taken_bit : (b word : ℕ) → (bit_and word (2 ^ b) == 0) ≡ false → bit b word ≡ 1
taken_bit b word e = elim (ℕ_discrete (bit b word) 0) [
  | yes z ↦
      let clear : bit_and word (2 ^ b) ≡ 0 = bit_and-pow b word ∙ rw z (omega arith) in
      cc ((==_iff _ 0).1 clear)
  | no nz ↦ omega (arith, bit-lt_two b word)
]

from_next :
    (b e word i : ℕ)
    → bit b word ≡ 1
    → ((i : ℕ) → b + 1 ≤ i → i < e → bit i word ≡ 1)
    → b ≤ i
    → i < e
    → bit i word ≡ 1
from_next b e word i first rest lo hi = elim (ℕ_discrete i b) [
  | yes same ↦ rw same first
  | no ne ↦ rest i (omega arith) hi
]

-- The scan of one word from bit `b` on: its lowest free bit, or none if all are taken.
find_bit_lem :
    (n b word : ℕ)
    → ((find_bit n b word ≡ none) × ((i : ℕ) → b ≤ i → i < b + n → bit i word ≡ 1))
      ⊎ ((r : ℕ) × (find_bit n b word ≡ some r)
          × (r < b + n)
          × (bit r word ≡ 0)
          × ((i : ℕ) → b ≤ i → i < r → bit i word ≡ 1))
unfolding find_bit
find_bit_lem zero b word = inl (refl, λ i lo hi. absurd (omega arith))
find_bit_lem (suc n) b word = elim (Bool-cases (bit_and word (2 ^ b) == 0)) [
  | inl free ↦ inr (b, rw free, omega arith, free_bit b word free, λ i lo hi. absurd (omega arith))
  | inr full ↦ elim (find_bit_lem n (b + 1) word) [
    | inl (e, all) ↦ inl (
      rw (full, e),
      λ i lo hi. from_next b (b + 1 + n) word i (taken_bit b word full) all lo (omega arith),
    )
    | inr (r, e, hi, z, all) ↦ inr (
      r,
      rw (full, e),
      omega arith,
      z,
      λ i lo lt. from_next b r word i (taken_bit b word full) all lo lt,
    )
  ]
]

-- Frames of the first word, and of the others.
taken-cons_low : (w : ℕ) (ws : List ℕ) (k : ℕ) → k < 32 → taken (w ∷ ws) k ≡ bit k w
taken-cons_low w ws k h =
    let word : k / 32 ≡ 0 = omega arith in let place : k % 32 ≡ k = omega arith in rw (word, place)

taken-cons_high : (w : ℕ) (ws : List ℕ) (k : ℕ) → 32 ≤ k → taken (w ∷ ws) k ≡ taken ws (k - 32)
taken-cons_high w ws k h =
    let word : k / 32 ≡ suc ((k - 32) / 32) = omega arith in
    let place : k % 32 ≡ (k - 32) % 32 = omega arith in rw (word, place)

taken-cons :
    (w : ℕ) (ws : List ℕ) (n k : ℕ)
    → ((i : ℕ) → i < 32 → bit i w ≡ 1)
    → ((k : ℕ) → k < n → taken ws k ≡ 1)
    → k < n + 32
    → taken (w ∷ ws) k ≡ 1
taken-cons w ws n k first others h = elim (dec_lt k 32) [
  | yes lo ↦ taken-cons_low w ws k lo ∙ first k lo
  | no hi ↦ taken-cons_high w ws k (omega arith) ∙ others (k - 32) (omega arith)
]

-- What a scan of the words finds: nothing, and all frames are taken; or the lowest free frame.
abbrev Scan : ℕ → List ℕ → Option ℕ → Type 0
Scan i ws r =
    ((r ≡ none) × ((k : ℕ) → k < 32 * length ws → taken ws k ≡ 1))
    ⊎ ((f : ℕ) × (r ≡ some (i * 32 + f))
        × (f < 32 * length ws)
        × (taken ws f ≡ 0)
        × ((k : ℕ) → k < f → taken ws k ≡ 1))

-- A word with no free bit is passed over.
pass_word :
    (i w : ℕ) (ws : List ℕ) (r : Option ℕ)
    → ((b : ℕ) → b < 32 → bit b w ≡ 1)
    → Scan (i + 1) ws r
    → Scan i (w ∷ ws) r
pass_word i w ws r full (inl (e, all)) =
    inl (e, λ k h. taken-cons w ws (32 * length ws) k full all (omega arith))
pass_word i w ws r full (inr (f, e, lt, z, all)) =
    let place : (i + 1) * 32 + f ≡ i * 32 + (f + 32) = omega arith in
    let back : f + 32 - 32 ≡ f = omega arith in
    inr (
      f + 32,
      e ∙ ap some place,
      omega arith,
      taken-cons_high w ws (f + 32) (omega arith) ∙ rw back z,
      λ k h. taken-cons w ws f k full all h,
    )

find_from_lem : (i : ℕ) (ws : List ℕ) → Scan i ws (find_from i ws)
unfolding find_from
find_from_lem i [] = inl (refl, λ k h. absurd (omega arith))
find_from_lem i (w ∷ ws) = elim (Bool-cases (w == 0xffff_ffff)) [
  | inl ones ↦
      let e : w ≡ 2 ^ 32 - 1 = (==_iff w 0xffff_ffff).0 ones in
      rw ones (
        pass_word i w ws (find_from (i + 1) ws) (λ b h. rw e (ones-bit 32 b h))
          (find_from_lem (i + 1) ws))
  | inr some_zero ↦ elim (find_bit_lem 32 0 w) [
    | inl (e, all) ↦
        rw (some_zero, e)
          (pass_word i w ws (find_from (i + 1) ws) (λ b h. all b (omega arith) (omega arith))
            (find_from_lem (i + 1) ws))
    | inr (r, e, hi, z, all) ↦
        rw (some_zero, e)
          (inr (
            r,
            refl,
            omega arith,
            taken-cons_low w ws r (omega arith) ∙ z,
            λ k h. taken-cons_low w ws k (omega arith) ∙ all k (omega arith) h,
          ))
  ]
]

-- pmm_alloc_block on the whole bitmap. Either every frame is taken, and the call returns 0 and
-- changes nothing; or it takes the lowest free frame, returns its address, and changes no other
-- frame. The address is 0 in this case too when the frame is the first one.
pub alloc_block_lem :
    (bitmap : List ℕ)
    → length bitmap ≡ bitmap_size
    → ((alloc_block bitmap ≡ (0, bitmap)) × ((k : ℕ) → k < 32768 → taken bitmap k ≡ 1))
      ⊎ ((f : ℕ) × (f < 32768)
          × (taken bitmap f ≡ 0)
          × ((k : ℕ) → k < f → taken bitmap k ≡ 1)
          × ((alloc_block bitmap).0 ≡ f * block_size)
          × ((g : ℕ) → taken (alloc_block bitmap).1 g ≡ (if f == g then 1 else taken bitmap g)))
unfolding alloc_block
alloc_block_lem bitmap whole = elim (find_from_lem 0 bitmap) [
  | inl (e, all) ↦ inl (rw (e, alloc_block), λ k h. all k (omega arith))
  | inr (f, e, lt, z, all) ↦
      let frame : 0 * 32 + f ≡ f = omega arith in
      let found : find_from 0 bitmap ≡ some f = e ∙ ap some frame in
      inr (
        f,
        omega arith,
        z,
        all,
        rw (found, alloc_block) (omega arith),
        λ g. rw (found, alloc_block) (taken-bitmap_set bitmap f g lt),
      )
]

-- pmm_free_block of an address below 128 MB frees the frame that holds it, and changes no other.
pub free_block_lem :
    (bitmap : List ℕ) (address : ℕ)
    → length bitmap ≡ bitmap_size
    → address < 32768 * block_size
    → (after : List ℕ) × (free_block address bitmap ≡ some after)
      × ((g : ℕ) → taken after g ≡ (if address / block_size == g then 0 else taken bitmap g))
unfolding free_block
free_block_lem bitmap address whole inside =
    let test : ltb (address / block_size / 32) bitmap_size ≡ true = lt→ltb _ _ (omega arith) in
    (
      bitmap_clear (address / block_size) bitmap,
      rw test,
      λ g. taken-bitmap_clear bitmap (address / block_size) g (omega arith),
    )
