-- ===== src/Text/Copy.antt =====
-- src/string.c: strlen, strcpy, strcat, strcmp and strncmp on terminated strings.
use my_kernel.Base.{
  ℕ, zero, suc, ◌+◌, ◌<◌, ◌≤◌, ◌≡◌, ◌↔◌, refl, ap, none, some, List, [], ◌∷◌, ◌++◌, arith, length,
  drop, take, All,
}
use my_kernel.Text.{NonZero, strlen_from, strlen, strcmp, strncmp, strcpy, strcat}

strlen_from_lem :
    (s rest : List ℕ) (n : ℕ) → NonZero s → strlen_from (s ++ 0 ∷ rest) n ≡ some (n + length s)
unfolding strlen_from
strlen_from_lem [] rest n h = ap some (omega arith)
strlen_from_lem (c ∷ s) rest n h = ground (arith, strlen_from_lem s rest (n + 1) h.1)

-- strlen of a terminated string is its number of bytes before the terminator, whatever follows.
pub strlen-length : (s rest : List ℕ) → NonZero s → strlen (s ++ 0 ∷ rest) ≡ some (length s)
unfolding strlen
strlen-length s rest h = rw (strlen_from_lem s rest 0 h) (ap some (omega arith))

-- strcpy into an object with room for the string and its terminator writes exactly those bytes,
-- and leaves the bytes behind them alone.
pub strcpy-drop :
    (dest s rest : List ℕ)
    → NonZero s
    → length s < length dest
    → strcpy dest (s ++ 0 ∷ rest) ≡ some (s ++ 0 ∷ drop (suc (length s)) dest)
unfolding strcpy
strcpy-drop [] s rest h room = absurd (omega arith)
strcpy-drop (d ∷ dest) [] rest h room = refl
strcpy-drop (d ∷ dest) (c ∷ s) rest h room =
    ground (arith, strcpy-drop dest s rest h.1 (omega arith))

-- strcpy into an object with no room for the terminator runs past the object.
pub strcpy-none :
    (dest s rest : List ℕ) → NonZero s → length dest ≤ length s → strcpy dest (s ++ 0 ∷ rest) ≡ none
unfolding strcpy
strcpy-none [] [] rest h room = refl
strcpy-none [] (c ∷ s) rest h room = refl
strcpy-none (d ∷ dest) [] rest h room = absurd (omega arith)
strcpy-none (d ∷ dest) (c ∷ s) rest h room =
    ground (arith, strcpy-none dest s rest h.1 (omega arith))

-- The copy that starts at the terminator of the first string.
after :
    (t old rest : List ℕ)
    → NonZero t
    → length t ≤ length old
    → strcpy (0 ∷ old) (t ++ 0 ∷ rest) ≡ some (t ++ 0 ∷ drop (length t) old)
after t old rest ht room = strcpy-drop (0 ∷ old) t rest ht (omega arith)

-- strcat behind a terminated string writes the second string over the terminator and what follows.
pub strcat-append :
    (s t old rest : List ℕ)
    → NonZero s
    → NonZero t
    → length t ≤ length old
    → strcat (s ++ 0 ∷ old) (t ++ 0 ∷ rest) ≡ some (s ++ t ++ 0 ∷ drop (length t) old)
unfolding strcat
strcat-append [] t old rest hs ht room = after t old rest ht room
strcat-append (c ∷ s) t old rest hs ht room =
    ground (arith, strcat-append s t old rest hs.1 ht room)

strcmp_self : (s r r' : List ℕ) → strcmp (s ++ 0 ∷ r) (s ++ 0 ∷ r') ≡ some 0
unfolding strcmp
strcmp_self [] r r' = refl
strcmp_self (c ∷ s) r r' = ground (arith, strcmp_self s r r')

-- Bytes of a string.
abbrev pub IsText : List ℕ → Type 0
IsText = All (λ c. (0 < c) × (c < 256))

strcmp_sound :
    (s t r r' : List ℕ) → IsText s → IsText t → strcmp (s ++ 0 ∷ r) (t ++ 0 ∷ r') ≡ some 0 → s ≡ t
unfolding strcmp
strcmp_sound [] [] r r' hs ht e = refl
strcmp_sound [] (d ∷ t) r r' hs ht e = ground arith
strcmp_sound (c ∷ s) [] r r' hs ht e = ground arith
strcmp_sound (c ∷ s) (d ∷ t) r r' hs ht e = ground (arith, strcmp_sound s t r r' hs.1 ht.1)

-- strcmp of two terminated strings is 0 exactly when they are equal, whatever follows them.
pub strcmp_iff :
    (s t r r' : List ℕ)
    → IsText s
    → IsText t
    → (strcmp (s ++ 0 ∷ r) (t ++ 0 ∷ r') ≡ some 0) ↔ (s ≡ t)
strcmp_iff s t r r' hs ht = (strcmp_sound s t r r' hs ht, λ e. rw e (strcmp_self t r r'))

strncmp_agree :
    (n : ℕ) (s t : List ℕ)
    → n ≤ length s
    → n ≤ length t
    → take n s ≡ take n t
    → strncmp s t n ≡ some 0
unfolding strncmp
strncmp_agree zero s t ls lt e = refl
strncmp_agree (suc n) [] t ls lt e = absurd (omega arith)
strncmp_agree (suc n) (c ∷ s) [] ls lt e = absurd (omega arith)
strncmp_agree (suc n) (c ∷ s) (d ∷ t) ls lt e =
    let head : c ≡ d = cc in
    let rest : take n s ≡ take n t = cc in
    ground (arith, strncmp_agree n s t (omega arith) (omega arith) rest)

strncmp_sound :
    (n : ℕ) (s t : List ℕ) → IsText s → IsText t → strncmp s t n ≡ some 0 → take n s ≡ take n t
unfolding strncmp
strncmp_sound zero s t hs ht e = refl
strncmp_sound (suc n) [] t hs ht e = cc
strncmp_sound (suc n) (c ∷ s) [] hs ht e = cc
strncmp_sound (suc n) (c ∷ s) (d ∷ t) hs ht e = ground (arith, strncmp_sound n s t hs.1 ht.1)

-- strncmp over `n` bytes of two fields that are at least that long and hold no zero byte, as the
-- names of a FAT directory, is 0 exactly when the first `n` bytes agree.
pub strncmp_iff :
    (n : ℕ) (s t : List ℕ)
    → IsText s
    → IsText t
    → n ≤ length s
    → n ≤ length t
    → (strncmp s t n ≡ some 0) ↔ (take n s ≡ take n t)
strncmp_iff n s t hs ht ls lt = (strncmp_sound n s t hs ht, strncmp_agree n s t ls lt)
