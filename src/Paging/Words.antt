-- ===== src/Paging/Words.antt =====
-- The masks and the writes of the page tables.
use my_kernel.Base.{
  ℕ, zero, suc, ◌+◌, ◌-◌, ◌*◌, ◌^◌, ◌/◌, ◌%◌, ◌<◌, ◌≤◌, ◌≡◌, ◌≢◌, ◌⊎◌, refl, ap, ◌∙◌, ◌==◌, inl,
  false, bit_and, bit_or, arith, ==_iff, ne→not_==, ℕ_discrete,
}
use my_kernel.Base.Bits.{bit_and-high, bit_and-mask, bit_or-fields}
use my_kernel.Paging.{Words, write, clear_table, page_mask}

-- Only the page's number, of 20 bits, is left of an address.
pub page_mask_lem : (a : ℕ) → page_mask a ≡ a / 4096 % 2 ^ 20 * 4096
page_mask_lem a =
    let split_up : a ≡ a / 4096 * 2 ^ 12 + a % 4096 = omega arith in
    ap page_mask split_up
    ∙ bit_and-high 12 (a / 4096) (a % 4096) (2 ^ 20 - 1) (omega arith)
    ∙ ap (λ (t : ℕ). t * 4096) (bit_and-mask 20 (a / 4096))

-- An entry for a page: the flags in the low bits, and the page's address above them.
pub entry_flags :
    (a : ℕ)
    → a % 4096 ≡ 0
    → a < 2 ^ 32
    → ((bit_and (bit_or a 7) 1 == 0) ≡ false) × (page_mask (bit_or a 7) ≡ a)
entry_flags a aligned fits =
    let split_up : a ≡ a / 4096 * 2 ^ 12 = omega arith in
    let sum : bit_or a 7 ≡ a + 7 =
      ap (λ (t : ℕ). bit_or t 7) split_up
      ∙ bit_or-fields 12 (a / 4096) 7 (omega arith)
      ∙ omega arith in
    let low : bit_and (a + 7) 1 ≡ 1 = bit_and-mask 1 (a + 7) ∙ omega arith in
    rw (sum, low) (refl, page_mask_lem (a + 7) ∙ omega arith)

pub write_same : (m : Words) (a v : ℕ) → write m a v a ≡ v
write_same m a v = rw ((==_iff a a).1 refl) refl

pub write_other : (m : Words) (a v b : ℕ) → b ≢ a → write m a v b ≡ m b
write_other m a v b ne = rw (ne→not_== b a ne) refl

pub clear_table_other :
    (n i pt : ℕ) (m : Words) (b : ℕ)
    → (b < pt + 4 * i) ⊎ (pt + 4 * (i + n) ≤ b)
    → clear_table n i pt m b ≡ m b
unfolding clear_table
clear_table_other zero i pt m b outside = refl
clear_table_other (suc n) i pt m b outside =
    clear_table_other n (i + 1) pt (write m (pt + 4 * i) 0) b (ground arith)
    ∙ write_other m (pt + 4 * i) 0 b (ground arith)

pub clear_table_in :
    (n i pt : ℕ) (m : Words) (j : ℕ) → i ≤ j → j < i + n → clear_table n i pt m (pt + 4 * j) ≡ 0
unfolding clear_table
clear_table_in zero i pt m j lo hi = absurd (omega arith)
clear_table_in (suc n) i pt m j lo hi = elim (ℕ_discrete j i) [
  | yes here ↦
      clear_table_other n (i + 1) pt (write m (pt + 4 * i) 0) (pt + 4 * j) (inl (omega arith))
      ∙ rw here (write_same m (pt + 4 * i) 0)
  | no later ↦ clear_table_in n (i + 1) pt (write m (pt + 4 * i) 0) j (omega arith) (omega arith)
]
