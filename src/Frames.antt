-- ===== src/Frames.antt =====
-- The page frame bitmap of src/memory.c: `memory_bitmap` is the list of its 1024 words.
pub mod Bitmap
pub mod Alloc
use my_kernel.Base.{
  ℕ, zero, suc, ◌+◌, ◌-◌, ◌*◌, ◌^◌, ◌/◌, ◌%◌, ◌==◌, ltb, if◌then◌else◌, Bool, true, false, bit_and,
  bit_or, Option, none, some, List, [], ◌∷◌, get_or, set,
}

abbrev pub block_size : ℕ
block_size = 4096

abbrev pub total_blocks : ℕ
total_blocks = 32768

-- TOTAL_BLOCKS / 32
abbrev pub bitmap_size : ℕ
bitmap_size = 1024

unfoldable pub bitmap_set : ℕ → List ℕ → List ℕ
bitmap_set b bitmap = set bitmap (b / 32) (bit_or (get_or bitmap (b / 32) 0) (2 ^ (b % 32)))

-- `~(1 << (bit % 32))` over 32 bits.
unfoldable pub bitmap_clear : ℕ → List ℕ → List ℕ
bitmap_clear b bitmap =
    set bitmap (b / 32) (bit_and (get_or bitmap (b / 32) 0) (2 ^ 32 - 1 - 2 ^ (b % 32)))

-- `for (bit = 0; bit < 32; bit++)` over one word, `n` rounds before its end.
unfoldable pub find_bit : ℕ → ℕ → ℕ → Option ℕ
find_bit zero b word = none
find_bit (suc n) b word =
    let rest = find_bit n (b + 1) word in if bit_and word (2 ^ b) == 0 then some b else rest

-- `for (i = 0; i < BITMAP_SIZE; i++)`, from word `i` on; `none` is -1.
unfoldable pub find_from : ℕ → List ℕ → Option ℕ
find_from i [] = none
find_from i (word ∷ words) =
    let rest = find_from (i + 1) words in
    if word == 0xffff_ffff
    then rest
    else (elim (find_bit 32 0 word) [ some b ↦ some (i * 32 + b) | none ↦ rest ])

unfoldable pub find_first_free_block : List ℕ → Option ℕ
find_first_free_block bitmap = find_from 0 bitmap

-- The address, and the bitmap behind the call; 0 is the report of no memory.
unfoldable pub alloc_block : List ℕ → ℕ × List ℕ
unfolding find_first_free_block
alloc_block bitmap = elim (find_first_free_block bitmap) [
  | none ↦ (0, bitmap)
  | some b ↦ ((b * block_size) % 2 ^ 32, bitmap_set b bitmap)
]

-- `none` is a write outside the bitmap.
unfoldable pub free_block : ℕ → List ℕ → Option (List ℕ)
free_block address bitmap =
    if ltb (address / block_size / 32) bitmap_size
    then some (bitmap_clear (address / block_size) bitmap)
    else none
