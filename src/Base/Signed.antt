-- ===== src/Base/Signed.antt =====
-- Words of 32 bits that the code reads as signed numbers.
use my_kernel.Base.{
  ℕ, ◌+◌, ◌-◌, ◌%◌, ◌^◌, ◌<◌, ◌≤◌, ◌≡◌, ltb, Bool, true, false, ltb→lt, not_ltb→le, arith,
}

-- `a < b` on signed words.
abbrev pub slt : ℕ → ℕ → Bool
slt a b = ltb ((a + 2 ^ 31) % 2 ^ 32) ((b + 2 ^ 31) % 2 ^ 32)

-- `a + b - 1`
abbrev pub last_of : ℕ → ℕ → ℕ
last_of a b = (a + b + (2 ^ 32 - 1)) % 2 ^ 32

-- A word between a word that is not negative and one that is less than `n`.
pub slt-between :
    (lo x hi n : ℕ)
    → x < 2 ^ 32
    → hi < 2 ^ 32
    → lo < 2 ^ 31
    → n < 2 ^ 31
    → slt hi n ≡ true
    → slt x lo ≡ false
    → slt hi x ≡ false
    → (lo ≤ x) × (x < n) × (x ≤ hi)
slt-between lo x hi n fx fh fl fn a b c =
    let p = ltb→lt _ _ a in
    let q = not_ltb→le _ _ b in let r = not_ltb→le _ _ c in (omega arith, omega arith, omega arith)
