-- ===== src/Base/Bits.antt =====
-- Single bits of a word, and the laws by which `|`, `&` and shifts act on them.
use Prim.Native.Nat.{
  ℕ, zero, suc, ◌+◌, ◌-◌, ◌*◌, ◌^◌, ◌/◌, ◌%◌, ◌≤◌, ◌<◌, min, max, bit_and, bit_or, digits, bitwise,
}
use Prim.Native.Nat.{bit_and-bitwise, bit_or-bitwise}
use mathlib.Core.Path.{◌≡◌, refl, ap}
use mathlib.Core.Logic.{◌≢◌}
use native.Mathlib.Nat.{le_refl, pow-suc, one-le-pow}
use native.Mathlib.Omega.{arith}
use native.Mathlib.Decide.{ℕ_discrete}

-- The native operations stand for a recursion over digits with fuel; any two fuels agree.
module _ (rest : ℕ → ℕ) (op : ℕ → ℕ → ℕ) where
  fuels_agree : (x y : ℕ) (f g : ℕ) → x ≤ f → x ≤ g → digits rest op f x y ≡ digits rest op g x y
  fuels_agree zero y zero zero hf hg = refl
  fuels_agree zero y zero (suc g) hf hg = refl
  fuels_agree zero y (suc f) zero hf hg = refl
  fuels_agree zero y (suc f) (suc g) hf hg = refl
  fuels_agree (suc x) y zero g hf hg = absurd (omega arith)
  fuels_agree (suc x) y (suc f) zero hf hg = absurd (omega arith)
  fuels_agree (suc x) y (suc f) (suc g) hf hg =
      rw (fuels_agree (suc x / 2) (y / 2) f g (omega arith) (omega arith))

  peel_digit :
      (x y : ℕ)
      → bitwise rest op (suc x) y ≡ bitwise rest op (suc x / 2) (y / 2) * 2 + op (suc x % 2) (y % 2)
  peel_digit x y =
      omega (arith, fuels_agree (suc x / 2) (y / 2) x (suc x / 2) (omega arith) (le_refl _))

-- Bitwise `|` on the lowest digit and on the others.
pub bit_or_step : (x y : ℕ) → bit_or x y ≡ bit_or (x / 2) (y / 2) * 2 + max (x % 2) (y % 2)
bit_or_step zero y = simp bit_or-bitwise (omega arith)
bit_or_step (suc x) y = simp bit_or-bitwise (peel_digit (λ t. t) max x y)

-- Bitwise `&`, likewise.
pub bit_and_step : (x y : ℕ) → bit_and x y ≡ bit_and (x / 2) (y / 2) * 2 + min (x % 2) (y % 2)
bit_and_step zero y = simp bit_and-bitwise (omega arith)
bit_and_step (suc x) y = simp bit_and-bitwise (peel_digit (λ t. 0) min x y)

-- Bit `i` of a word.
abbrev pub bit : ℕ → ℕ → ℕ
bit zero w = w % 2
bit (suc i) w = bit i (w / 2)

pub bit-lt_two : (i w : ℕ) → bit i w < 2
bit-lt_two zero w = omega arith
bit-lt_two (suc i) w = bit-lt_two i (w / 2)

pub bit-bit_or : (i a b : ℕ) → bit i (bit_or a b) ≡ max (bit i a) (bit i b)
bit-bit_or zero a b = omega (arith, bit_or_step a b)
bit-bit_or (suc i) a b =
    let half : bit_or a b / 2 ≡ bit_or (a / 2) (b / 2) = omega (arith, bit_or_step a b) in
    rw half (bit-bit_or i (a / 2) (b / 2))

pub bit-bit_and : (i a b : ℕ) → bit i (bit_and a b) ≡ min (bit i a) (bit i b)
bit-bit_and zero a b = omega (arith, bit_and_step a b)
bit-bit_and (suc i) a b =
    let half : bit_and a b / 2 ≡ bit_and (a / 2) (b / 2) = omega (arith, bit_and_step a b) in
    rw half (bit-bit_and i (a / 2) (b / 2))

bit-zero : (i : ℕ) → bit i 0 ≡ 0
bit-zero zero = refl
bit-zero (suc i) = bit-zero i

-- `1 << b` has the one bit `b`.
pub bit-pow_self : (b : ℕ) → bit b (2 ^ b) ≡ 1
bit-pow_self zero = refl
bit-pow_self (suc b) =
    let half : 2 ^ suc b / 2 ≡ 2 ^ b = omega (arith, pow-suc 2 b) in rw half (bit-pow_self b)

pub bit-pow_ne : (i b : ℕ) → i ≢ b → bit i (2 ^ b) ≡ 0
bit-pow_ne zero zero h = absurd (h refl)
bit-pow_ne zero (suc b) h = omega (arith, pow-suc 2 b)
bit-pow_ne (suc i) zero h = bit-zero i
bit-pow_ne (suc i) (suc b) h =
    let half : 2 ^ suc b / 2 ≡ 2 ^ b = omega (arith, pow-suc 2 b) in
    rw half (bit-pow_ne i b (λ e. h (ap suc e)))

-- `~(1 << b)` over `n` bits has every bit but `b`.
pub bit-mask_self : (n b : ℕ) → b < n → bit b (2 ^ n - 1 - 2 ^ b) ≡ 0
bit-mask_self zero b h = absurd (omega arith)
bit-mask_self (suc n) zero h = omega (arith, pow-suc 2 n, one-le-pow n 2)
bit-mask_self (suc n) (suc b) h =
    let half : (2 ^ suc n - 1 - 2 ^ suc b) / 2 ≡ 2 ^ n - 1 - 2 ^ b =
      omega (arith, pow-suc 2 n, pow-suc 2 b) in
    rw half (bit-mask_self n b (omega arith))

pub ones-bit : (n i : ℕ) → i < n → bit i (2 ^ n - 1) ≡ 1
ones-bit zero i h = absurd (omega arith)
ones-bit (suc n) zero h = omega (arith, pow-suc 2 n, one-le-pow n 2)
ones-bit (suc n) (suc i) h =
    let half : (2 ^ suc n - 1) / 2 ≡ 2 ^ n - 1 = omega (arith, pow-suc 2 n, one-le-pow n 2) in
    rw half (ones-bit n i (omega arith))

pub bit-mask_ne : (n i b : ℕ) → i < n → b < n → i ≢ b → bit i (2 ^ n - 1 - 2 ^ b) ≡ 1
bit-mask_ne zero i b h k ne = absurd (omega arith)
bit-mask_ne (suc n) zero zero h k ne = absurd (ne refl)
bit-mask_ne (suc n) zero (suc b) h k ne = parity n b (omega arith)
  where
    parity : (n b : ℕ) → b < n → (2 ^ suc n - 1 - 2 ^ suc b) % 2 ≡ 1
    parity zero b h = absurd (omega arith)
    parity (suc n) zero h = omega (arith, pow-suc 2 (suc n), pow-suc 2 n, one-le-pow n 2)
    parity (suc n) (suc b) h = omega (
      arith,
      parity n b (omega arith),
      pow-suc 2 (suc n),
      pow-suc 2 (suc b),
      pow-suc 2 n,
      pow-suc 2 b,
    )
bit-mask_ne (suc n) (suc i) zero h k ne =
    let half : (2 ^ suc n - 1 - 1) / 2 ≡ 2 ^ n - 1 = omega (arith, pow-suc 2 n, one-le-pow n 2) in
    rw half (ones-bit n i (omega arith))
bit-mask_ne (suc n) (suc i) (suc b) h k ne =
    let half : (2 ^ suc n - 1 - 2 ^ suc b) / 2 ≡ 2 ^ n - 1 - 2 ^ b =
      omega (arith, pow-suc 2 n, pow-suc 2 b) in
    rw half (bit-mask_ne n i b (omega arith) (omega arith) (λ e. ne (ap suc e)))

no_common : (bound w : ℕ) → w < bound → bit_and w 0 ≡ 0
no_common zero w lt = absurd (omega arith)
no_common (suc bound) w lt = elim (ℕ_discrete w 0) [
  | yes e ↦ rw e refl
  | no ne ↦ omega (arith, bit_and_step w 0, no_common bound (w / 2) (omega arith))
]

pub bit_and-zero : (w : ℕ) → bit_and w 0 ≡ 0
bit_and-zero w = no_common (w + 1) w (omega arith)

no_more : (bound w : ℕ) → w < bound → bit_or w 0 ≡ w
no_more zero w lt = absurd (omega arith)
no_more (suc bound) w lt = elim (ℕ_discrete w 0) [
  | yes e ↦ rw e refl
  | no ne ↦ omega (arith, bit_or_step w 0, no_more bound (w / 2) (omega arith))
]

pub bit_or-zero : (w : ℕ) → bit_or w 0 ≡ w
bit_or-zero w = no_more (w + 1) w (omega arith)

-- One more place to the left.
shift_suc : (k w : ℕ) → w * 2 ^ suc k ≡ 2 * (w * 2 ^ k)
shift_suc k w = omega (arith, ap (λ (power : ℕ). w * power) (pow-suc 2 k))

-- The test `w & (1 << b)`.
pub bit_and-pow : (b w : ℕ) → bit_and w (2 ^ b) ≡ bit b w * 2 ^ b
bit_and-pow zero w = omega (arith, bit_and_step w 1, bit_and-zero (w / 2))
bit_and-pow (suc b) w =
    let twice = shift_suc b (bit b (w / 2)) in
    let half : 2 ^ suc b / 2 ≡ 2 ^ b = omega (arith, pow-suc 2 b) in
    let even : 2 ^ suc b % 2 ≡ 0 = omega (arith, pow-suc 2 b) in
    rw (bit_and_step w (2 ^ suc b), half, even, bit_and-pow b (w / 2)) (omega arith)

-- Fields that do not overlap are joined by `|` as by `+`.
pub bit_or-fields : (k q r : ℕ) → r < 2 ^ k → bit_or (q * 2 ^ k) r ≡ q * 2 ^ k + r
bit_or-fields zero q r fits =
    let none_left : r ≡ 0 = omega arith in rw none_left (omega (arith, bit_or-zero (q * 1)))
bit_or-fields (suc k) q r fits =
    let twice = shift_suc k q in
    let half : q * 2 ^ suc k / 2 ≡ q * 2 ^ k = omega arith in
    rw (bit_or_step (q * 2 ^ suc k) r, half, bit_or-fields k q (r / 2) (omega (arith, pow-suc 2 k)))
      (omega arith)

-- `r | (q << k)`, the other way round.
pub bit_or-fields_low : (k q r : ℕ) → r < 2 ^ k → bit_or r (q * 2 ^ k) ≡ r + q * 2 ^ k
bit_or-fields_low zero q r fits =
    let none_left : r ≡ 0 = omega arith in
    rw none_left (omega (arith, bit_or_step 0 (q * 1), from_zero (q * 1)))
  where
    from_zero : (b : ℕ) → bit_or 0 b ≡ b
    from_zero b = bit_or-bitwise 0 b
bit_or-fields_low (suc k) q r fits =
    let twice = shift_suc k q in
    let half : q * 2 ^ suc k / 2 ≡ q * 2 ^ k = omega arith in
    rw
      (
        bit_or_step r (q * 2 ^ suc k),
        half,
        bit_or-fields_low k q (r / 2) (omega (arith, pow-suc 2 k)),
      )
      (omega arith)

bit_and-fields : (k high low : ℕ) → low < 2 ^ k → bit_and (high * 2 ^ k + low) (2 ^ k - 1) ≡ low
bit_and-fields zero high low fits = rw bit_and-zero (omega arith)
bit_and-fields (suc k) high low fits =
    let twice = shift_suc k high in
    let half : (high * 2 ^ suc k + low) / 2 ≡ high * 2 ^ k + low / 2 = omega arith in
    let ones : (2 ^ suc k - 1) / 2 ≡ 2 ^ k - 1 = omega (arith, pow-suc 2 k, one-le-pow k 2) in
    let odd : (2 ^ suc k - 1) % 2 ≡ 1 = omega (arith, pow-suc 2 k, one-le-pow k 2) in
    rw
      (
        bit_and_step (high * 2 ^ suc k + low) (2 ^ suc k - 1),
        half,
        ones,
        odd,
        bit_and-fields k high (low / 2) (omega (arith, pow-suc 2 k)),
      )
      (omega arith)

-- `a & ((1 << k) - 1)` keeps the low bits.
pub bit_and-mask : (k a : ℕ) → bit_and a (2 ^ k - 1) ≡ a % 2 ^ k
bit_and-mask k a = ground (arith, one-le-pow k 2, bit_and-fields k (a / 2 ^ k) (a % 2 ^ k))

-- A mask whose `k` low bits are 0 leaves the bits above them.
pub bit_and-high :
    (k q r m : ℕ) → r < 2 ^ k → bit_and (q * 2 ^ k + r) (m * 2 ^ k) ≡ bit_and q m * 2 ^ k
bit_and-high zero q r m fits =
    let same : q * 1 + r ≡ q = omega arith in
    let mask : m * 1 ≡ m = omega arith in rw (same, mask) (omega arith)
bit_and-high (suc k) q r m fits =
    let twice = shift_suc k q in
    let double = shift_suc k m in
    let both = shift_suc k (bit_and q m) in
    let half : (q * 2 ^ suc k + r) / 2 ≡ q * 2 ^ k + r / 2 = omega arith in
    let mask : m * 2 ^ suc k / 2 ≡ m * 2 ^ k = omega arith in
    let even : m * 2 ^ suc k % 2 ≡ 0 = omega arith in
    rw
      (
        bit_and_step (q * 2 ^ suc k + r) (m * 2 ^ suc k),
        half,
        mask,
        even,
        bit_and-high k q (r / 2) m (omega (arith, pow-suc 2 k)),
      )
      (omega arith)
