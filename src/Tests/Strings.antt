-- ===== src/Tests/Strings.antt =====
-- Runs of the model of src/string.c.
use my_kernel.Base.{ℕ, ◌<◌, ◌≤◌, ◌≡◌, some, List, [], ◌∷◌, All, length, arith}
use my_kernel.Text.{atoi, itoa}
use my_kernel.Text.Number.{atoi-itoa}

-- -42 as a word.
atoi-itoa_example :
    (s : List ℕ) × (itoa 4294967254 ≡ some s) × (atoi s ≡ some 4294967254) × (length s ≤ 12)
atoi-itoa_example = atoi-itoa 4294967254 (omega arith) (omega arith)

abbrev ab : List ℕ
ab = 97 ∷ 98 ∷ []

abbrev ac : List ℕ
ac = 97 ∷ 99 ∷ []

abbrev four : List ℕ
four = 1 ∷ 2 ∷ 3 ∷ 4 ∷ []

ab-IsText : All (λ (c : ℕ). (0 < c) × (c < 256)) ab
ab-IsText = ((omega arith, omega arith), ((omega arith, omega arith), tt))

ac-IsText : All (λ (c : ℕ). (0 < c) × (c < 256)) ac
ac-IsText = ((omega arith, omega arith), ((omega arith, omega arith), tt))
