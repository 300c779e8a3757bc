-- ===== src/Text/Number.antt =====
-- src/string.c: itoa and atoi. The swap loop of itoa is a reversal, and atoi reads what itoa wrote.
use my_kernel.Base.{
  ℕ, zero, suc, ◌+◌, ◌-◌, ◌*◌, ◌^◌, ◌/◌, ◌%◌, ◌<◌, ◌≤◌, ◌≡◌, ◌≢◌, refl, ap, sym, ◌∙◌, ◌==◌, ltb,
  leb, ◌&&◌, true, false, ltb→lt, not_ltb→le, Bool-cases, inl, inr, some, List, [], ◌∷◌, ◌++◌,
  arith, length, set, get_or, reverse, reverse-cons, append_assoc, if◌then◌else◌, All, length-set,
  get_or-set_self, get_or-set_ne, list_ext, get_or-reverse, length-reverse, length-append,
}
use native.Mathlib.Nat.{pow-suc}
use my_kernel.Text.{atoi_from, atoi, itoa_digits, swap_bytes, swap_loop, itoa_finish, itoa}

length-swap_bytes : (j k : ℕ) (s : List ℕ) → length (swap_bytes j k s) ≡ length s
unfolding swap_bytes
length-swap_bytes j k s =
    length-set (set s j (get_or s k 0)) k (get_or s j 0) ∙ length-set s j (get_or s k 0)

-- One exchange: the two bytes change places, and no other byte moves.
get_or-swap_bytes :
    (j k : ℕ) (s : List ℕ) (m : ℕ)
    → j < k
    → k < length s
    → get_or (swap_bytes j k s) m 0
      ≡ (if m == j then get_or s k 0 else if m == k then get_or s j 0 else get_or s m 0)
unfolding swap_bytes
get_or-swap_bytes j k s m lt inside = ground (
  arith,
  length-set s j (get_or s k 0),
  get_or-set_self (set s j (get_or s k 0)) k (get_or s j 0) 0,
  get_or-set_ne (set s j (get_or s k 0)) k m (get_or s j 0) 0,
  get_or-set_self s j (get_or s k 0) 0,
  get_or-set_ne s j m (get_or s k 0) 0,
)

length-swap_loop : (f j k : ℕ) (s : List ℕ) → length (swap_loop f j k s) ≡ length s
unfolding swap_loop
length-swap_loop zero j k s = refl
length-swap_loop (suc f) j k s =
    ground (arith, length-swap_loop f (j + 1) (k - 1) (swap_bytes j k s), length-swap_bytes j k s)

-- With at most one byte between the indices there is nothing to turn round.
turned_short :
    (j k : ℕ) (s : List ℕ) (i : ℕ)
    → k ≤ j
    → get_or s i 0 ≡ (if leb j i && leb i k then get_or s (j + k - i) 0 else get_or s i 0)
turned_short j k s i h = elim (Bool-cases (leb j i && leb i k)) [
  | inl t ↦ let same : j + k - i ≡ i = ground arith in rw (t, same)
  | inr t ↦ rw t
]

-- The loop from `j` and `k` turns the bytes between them round, and moves no other.
get_or-swap_loop :
    (f j k : ℕ) (s : List ℕ) (i : ℕ)
    → k < length s
    → k ≤ j + 2 * f
    → get_or (swap_loop f j k s) i 0
      ≡ (if leb j i && leb i k then get_or s (j + k - i) 0 else get_or s i 0)
unfolding swap_loop
get_or-swap_loop zero j k s i inside fuel = turned_short j k s i (omega arith)
get_or-swap_loop (suc f) j k s i inside fuel = elim (Bool-cases (ltb j k)) [
  | inl lt ↦
      let less : j < k = ltb→lt j k lt in
      let kept = length-swap_bytes j k s in
      rw lt (
        ground (
          arith,
          get_or-swap_loop f (j + 1) (k - 1) (swap_bytes j k s) i (omega arith) (omega arith),
          get_or-swap_bytes j k s (j + k - i) less inside,
          get_or-swap_bytes j k s i less inside,
          ap (λ (m : ℕ). get_or (swap_bytes j k s) m 0) (inner_index j k less i),
        ))
  | inr ge ↦ rw ge (turned_short j k s i (not_ltb→le j k ge))
]
  where
    inner_index : (j k : ℕ) → j < k → (i : ℕ) → j + 1 + (k - 1) - i ≡ j + k - i
    inner_index j k less i = omega arith

-- So over a whole string the loop is a reversal.
swap_loop-reverse :
    (s : List ℕ) → 0 < length s → swap_loop (length s) 0 (length s - 1) s ≡ reverse s
swap_loop-reverse s h =
    list_ext (swap_loop (length s) 0 (length s - 1) s) (reverse s) 0
      (length-swap_loop (length s) 0 (length s - 1) s ∙ sym (length-reverse s))
      (λ i hi.
        let inside : i < length s = omega (arith, length-swap_loop (length s) 0 (length s - 1) s) in
        let mirrored = get_or-reverse s i (length s - 1 - i) 0 (omega arith) in
        ground (
          arith,
          get_or-swap_loop (length s) 0 (length s - 1) s i (omega arith) (omega arith),
          mirrored,
        ))

-- What digits stand for, the last one first.
value : List ℕ → ℕ
value [] = 0
value (d ∷ ds) = (d - b'0') + 10 * value ds

abbrev Digits : List ℕ → Type 0
Digits = All (λ c. (b'0' ≤ c) × (c ≤ b'9'))

record Written (n : ℕ) (ds : List ℕ) : Type 0 where
  stands : value ds ≡ n
  digits : Digits ds
  some_digit : 0 < length ds

itoa_digits-Written :
    (f n : ℕ)
    → n < 10 ^ suc f
    → (ds : List ℕ) × (itoa_digits (suc f) n ≡ some ds) × Written n ds × (length ds ≤ suc f)
unfolding itoa_digits value
itoa_digits-Written zero n h = (
  (n % 10 + b'0') ∷ [],
  ground arith,
  record { stands = omega arith; digits = omega arith; some_digit = omega arith },
  omega arith,
)
itoa_digits-Written (suc f) n h = elim (Bool-cases (ltb 0 (n / 10))) [
  | inl more ↦
      let (ds, wrote, w, short) =
        itoa_digits-Written f (n / 10) (omega (arith, pow-suc 10 (suc f))) in
      (
        (n % 10 + b'0') ∷ ds,
        rw (more, wrote),
        record {
          stands = omega (arith, w.stands);
          digits = (omega arith, w.digits);
          some_digit = omega arith;
        },
        omega arith,
      )
  | inr last ↦
      let small : n / 10 ≡ 0 = omega (arith, not_ltb→le 0 (n / 10) last) in
      (
        (n % 10 + b'0') ∷ [],
        rw last,
        record { stands = omega arith; digits = omega arith; some_digit = omega arith },
        omega arith,
      )
]

-- `atoi` reads the digits back in the order in which the reversal leaves them.
atoi_from-reverse :
    (ds rest : List ℕ)
    → Digits ds
    → value ds < 2 ^ 32
    → atoi_from (reverse ds ++ rest) 0 ≡ atoi_from rest (value ds)
unfolding atoi_from value
atoi_from-reverse [] rest h small = refl
atoi_from-reverse (d ∷ ds) rest h small =
    let shifted : (value ds * 10 + (d - b'0')) % 2 ^ 32 ≡ d - b'0' + 10 * value ds = omega arith in
    rw (reverse-cons, append_assoc, atoi_from-reverse ds (d ∷ rest) h.1 (omega arith))
      (ground (arith, shifted, h.0))

Digits-append : (xs ys : List ℕ) → Digits xs → Digits ys → Digits (xs ++ ys)
Digits-append [] ys hx hy = hy
Digits-append (x ∷ xs) ys hx hy = (hx.0, Digits-append xs ys hx.1 hy)

Digits-reverse : (ds : List ℕ) → Digits ds → Digits (reverse ds)
Digits-reverse [] h = tt
Digits-reverse (d ∷ ds) h =
    rw reverse-cons (Digits-append (reverse ds) (d ∷ []) (Digits-reverse ds h.1) (h.0, tt))

-- No sign stands before digits.
atoi-Digits : (xs : List ℕ) → Digits xs → atoi (xs ++ 0 ∷ []) ≡ atoi_from (xs ++ 0 ∷ []) 0
unfolding atoi
atoi-Digits [] h = refl
atoi-Digits (x ∷ xs) h = ground arith

atoi-minus :
    (xs : List ℕ) (v : ℕ)
    → atoi_from (xs ++ 0 ∷ []) 0 ≡ some v
    → atoi (b'-' ∷ (xs ++ 0 ∷ [])) ≡ some ((2 ^ 32 - v) % 2 ^ 32)
unfolding atoi
atoi-minus xs v e = rw e

reverse-snoc : (ds : List ℕ) (y : ℕ) → reverse (ds ++ y ∷ []) ≡ y ∷ reverse ds
reverse-snoc [] y = refl
reverse-snoc (d ∷ ds) y = rw (reverse-cons, reverse-cons, reverse-snoc ds y)

atoi_back :
    (n : ℕ) (ds : List ℕ) → n < 2 ^ 32 → Written n ds → atoi_from (reverse ds ++ 0 ∷ []) 0 ≡ some n
unfolding atoi_from
atoi_back n ds small w =
    rw (atoi_from-reverse ds (0 ∷ []) w.digits (omega (arith, w.stands)), w.stands)

-- The string that itoa leaves for either sign.
finish-plain : (ds : List ℕ) → 0 < length ds → itoa_finish false ds ≡ reverse ds ++ 0 ∷ []
unfolding itoa_finish
finish-plain ds h = rw (swap_loop-reverse ds h)

finish-minus : (ds : List ℕ) → itoa_finish true ds ≡ b'-' ∷ (reverse ds ++ 0 ∷ [])
unfolding itoa_finish
finish-minus ds = rw (
  swap_loop-reverse (ds ++ b'-' ∷ []) (omega (arith, length-append ds (b'-' ∷ []))),
  reverse-snoc ds b'-',
)

-- For every `int` but -2^31, itoa writes a terminated string of at most twelve bytes, and atoi
-- reads the number back from it.
pub atoi-itoa :
    (n : ℕ)
    → n < 2 ^ 32
    → n ≢ 2 ^ 31
    → (s : List ℕ) × (itoa n ≡ some s) × (atoi s ≡ some n) × (length s ≤ 12)
unfolding itoa
atoi-itoa n small ne = elim (Bool-cases (ltb n (2 ^ 31))) [
  | inl plus ↦
      let (ds, wrote, w, short) = itoa_digits-Written 9 n (omega (arith, ltb→lt n (2 ^ 31) plus)) in
      (
        reverse ds ++ 0 ∷ [],
        rw (plus, wrote, finish-plain ds w.some_digit),
        atoi-Digits (reverse ds) (Digits-reverse ds w.digits) ∙ atoi_back n ds small w,
        omega (arith, length-append (reverse ds) (0 ∷ []), length-reverse ds),
      )
  | inr minus ↦
      let over = not_ltb→le n (2 ^ 31) minus in
      let (ds, wrote, w, short) = itoa_digits-Written 9 (2 ^ 32 - n) (omega arith) in
      let other : (n == 2 ^ 31) ≡ false = ground arith in
      let back : (2 ^ 32 - (2 ^ 32 - n)) % 2 ^ 32 ≡ n = omega arith in
      (
        b'-' ∷ (reverse ds ++ 0 ∷ []),
        rw (minus, other, wrote, finish-minus ds),
        atoi-minus (reverse ds) (2 ^ 32 - n) (atoi_back (2 ^ 32 - n) ds (omega arith) w)
            ∙ ap some back,
        omega (arith, length-append (reverse ds) (0 ∷ []), length-reverse ds),
      )
]
