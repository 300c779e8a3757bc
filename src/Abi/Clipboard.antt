-- ===== src/Abi/Clipboard.antt =====
-- The clipboard of API 36 and 37 in src/idt.c.
use my_kernel.Base.{
  ℕ, zero, suc, ◌+◌, ◌==◌, ◌<◌, ◌≤◌, ◌≡◌, ◌≢◌, refl, ap, ◌∙◌, if◌then◌else◌, List, [], ◌∷◌, ◌++◌,
  length, get_or, arith, All, ne→not_==, ==_self,
}
use my_kernel.Gui.{Memory, store_bytes}

-- A text without a terminator, of at most as many characters as a limit.
abbrev Clipped : ℕ → List ℕ → Type 0
Clipped limit xs = (length xs ≤ limit) × All (λ x. x ≢ 0) xs

store_bytes-below :
    (p : ℕ) (bs : List ℕ) (memory : Memory) (a : ℕ) → a < p → store_bytes p bs memory a ≡ memory a
unfolding store_bytes
store_bytes-below p [] memory a lt = refl
store_bytes-below p (b ∷ bs) memory a lt =
    store_bytes-below (p + 1) bs _ a (omega arith) ∙ rw (ne→not_== a p (omega arith)) refl

pub store_bytes-at :
    (p : ℕ) (xs : List ℕ) (memory : Memory) (i : ℕ)
    → i ≤ length xs
    → store_bytes p (xs ++ 0 ∷ []) memory (p + i) ≡ get_or xs i 0
unfolding store_bytes
store_bytes-at p [] memory zero le = let here : p + 0 ≡ p = omega arith in rw (here, ==_self p) refl
store_bytes-at p [] memory (suc i) le = absurd (omega arith)
store_bytes-at p (x ∷ xs) memory zero le =
    let here : p + 0 ≡ p = omega arith in
    rw here (store_bytes-below (p + 1) (xs ++ 0 ∷ []) _ p (omega arith) ∙ rw (==_self p) refl)
store_bytes-at p (x ∷ xs) memory (suc i) le =
    let next : p + suc i ≡ p + 1 + i = omega arith in
    ap (store_bytes (p + 1) (xs ++ 0 ∷ []) (λ a. if a == p then x else memory a)) next
    ∙ store_bytes-at (p + 1) xs _ i (omega arith)
