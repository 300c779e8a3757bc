-- ===== src/Text.antt =====
-- src/string.c. A `char*` is the list of the bytes from the pointer to the end of its object; a
-- step outside the object is `none`. An `int` is its 32-bit pattern.
pub mod Copy
pub mod Number
use my_kernel.Base.{
  ℕ, zero, suc, ◌+◌, ◌-◌, ◌*◌, ◌^◌, ◌/◌, ◌%◌, ◌==◌, ltb, leb, if◌then◌else◌, Bool, true, false,
  ◌&&◌, not, length, set, get_or, Option, none, some, List, [], ◌∷◌, ◌++◌, ◌>>=◌, ◌≡◌, ◌≢◌, All,
  arith, refl,
}

-- A byte string with no terminator inside.
abbrev pub NonZero : List ℕ → Type 0
NonZero = All (λ c. c ≢ 0)

-- `while (str[len]) len++;`
unfoldable pub strlen_from : List ℕ → ℕ → Option ℕ
strlen_from [] len = none
strlen_from (c ∷ cs) len = if c == 0 then some len else strlen_from cs (len + 1)

unfoldable pub strlen : List ℕ → Option ℕ
unfolding strlen_from
strlen str = strlen_from str 0

-- A difference of two bytes, as an `int`.
abbrev pub byte_diff : ℕ → ℕ → ℕ
byte_diff a b = (a + 2 ^ 32 - b) % 2 ^ 32

unfoldable pub strcmp : List ℕ → List ℕ → Option ℕ
strcmp [] s2 = none
strcmp (a ∷ s1) [] = none
strcmp (a ∷ s1) (b ∷ s2) = if not (a == 0) && a == b then strcmp s1 s2 else some (byte_diff a b)

-- The loop counts `n` down; at 0 nothing is read.
unfoldable pub strncmp : List ℕ → List ℕ → ℕ → Option ℕ
strncmp s1 s2 zero = some 0
strncmp [] s2 (suc n) = none
strncmp (a ∷ s1) [] (suc n) = none
strncmp (a ∷ s1) (b ∷ s2) (suc n) =
    if not (a == 0) && a == b then strncmp s1 s2 n else some (byte_diff a b)

-- The result is the destination object after the writes.
unfoldable pub strcpy : List ℕ → List ℕ → Option (List ℕ)
strcpy dest [] = none
strcpy [] (c ∷ src) = none
strcpy (d ∷ dest) (c ∷ src) =
    if c == 0 then some (0 ∷ dest) else (strcpy dest src >>= λ r. some (c ∷ r))

unfoldable pub strcat : List ℕ → List ℕ → Option (List ℕ)
unfolding strcpy
strcat [] src = none
strcat (d ∷ dest) src =
    if d == 0 then strcpy (d ∷ dest) src else (strcat dest src >>= λ r. some (d ∷ r))

-- The digits loop of `atoi`: `res` is kept modulo 2^32.
unfoldable pub atoi_from : List ℕ → ℕ → Option ℕ
atoi_from [] res = none
atoi_from (c ∷ cs) res =
    if not (c == 0) && leb b'0' c && leb c b'9'
    then atoi_from cs ((res * 10 + (c - b'0')) % 2 ^ 32)
    else some res

unfoldable pub atoi : List ℕ → Option ℕ
unfolding atoi_from
atoi [] = none
atoi (c ∷ cs) =
    if c == b'-'
    then (atoi_from cs 0 >>= λ res. some ((2 ^ 32 - res) % 2 ^ 32))
    else atoi_from (c ∷ cs) 0

-- `do { s[i++] = n % 10 + '0'; } while ((n /= 10) > 0);` for `n` not negative: the bytes in the
-- order in which they are written. `none` is the end of the fuel.
unfoldable pub itoa_digits : ℕ → ℕ → Option (List ℕ)
itoa_digits zero n = none
itoa_digits (suc fuel) n =
    let rest = itoa_digits fuel (n / 10) in
    if ltb 0 (n / 10)
    then (rest >>= λ ds. some ((n % 10 + b'0') ∷ ds))
    else some ((n % 10 + b'0') ∷ [])

-- `c = s[j]; s[j] = s[k]; s[k] = c;`
unfoldable pub swap_bytes : ℕ → ℕ → List ℕ → List ℕ
swap_bytes j k s = set (set s j (get_or s k 0)) k (get_or s j 0)

-- `for (j = 0, k = i - 1; j < k; j++, k--)` over the exchange of two bytes.
unfoldable pub swap_loop : ℕ → ℕ → ℕ → List ℕ → List ℕ
unfolding swap_bytes
swap_loop zero j k s = s
swap_loop (suc fuel) j k s =
    let rest = swap_loop fuel (j + 1) (k - 1) (swap_bytes j k s) in if ltb j k then rest else s

-- The part that follows the digits: the sign, the reversal of `s[0..i)` and the terminator.
unfoldable pub itoa_finish : Bool → List ℕ → List ℕ
unfolding swap_loop
itoa_finish negative ds =
    let s = if negative then ds ++ b'-' ∷ [] else ds in
    swap_loop (length s) 0 (length s - 1) s ++ 0 ∷ []

-- `s` from its first byte to the terminator. A number has at most ten digits. `-n` at -2^31 is
-- not defined in C.
unfoldable pub itoa : ℕ → Option (List ℕ)
unfolding itoa_digits itoa_finish
itoa n =
    if ltb n (2 ^ 31)
    then (itoa_digits 10 n >>= λ ds. some (itoa_finish false ds))
    else (if n == 2 ^ 31
        then none
        else (itoa_digits 10 (2 ^ 32 - n) >>= λ ds. some (itoa_finish true ds)))
