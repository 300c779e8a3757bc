-- ===== src/Abi/Numbers.antt =====
-- The numbers that syscall_handler_main of src/idt.c has a service for.
use my_kernel.Base.{
  ℕ, ◌==◌, ◌<◌, ◌≡◌, ◌≢◌, ◌⊎◌, inl, inr, refl, ap, ◌∙◌, ltb, Bool, true, false, ◌&&◌, ◌||◌, List,
  [], ◌∷◌, arith, ne→not_==, lt→ltb, le→not_ltb,
}
use my_kernel.Gui.{Kernel, minus_one}
use my_kernel.Abi.{Call, Handler, Parts, dispatch}
use my_kernel.Abi.Router.{syscall_handler_main}

-- The numbers that have a service.
abbrev pub listed : ℕ → Bool
listed n = ltb 0 n && (ltb n 42 || n == 43)

abbrev all_listed : List (ℕ × Handler) → Bool
all_listed [] = true
all_listed ((m, handler) ∷ branches) = listed m && all_listed branches

dispatch-none :
    (n : ℕ) (branches : List (ℕ × Handler)) (otherwise : Handler)
    → listed n ≡ false
    → all_listed branches ≡ true
    → dispatch n branches otherwise ≡ otherwise
unfolding dispatch
dispatch-none n [] otherwise unknown all = refl
dispatch-none n ((m, handler) ∷ branches) otherwise unknown all =
    let both : (listed m ≡ true) × (all_listed branches ≡ true) = split (listed m) all in
    let ne : n ≢ m = λ e. absurd (let t : listed n ≡ true = ap listed e ∙ both.0 in cc) in
    rw (ne→not_== n m ne) (dispatch-none n branches otherwise unknown both.1)
  where
    split : (b : Bool) {c : Bool} → (b && c) ≡ true → (b ≡ true) × (c ≡ true)
    split true e = (refl, e)
    split false e = absurd (cc)

-- A number that is 0, 42 or above 43 has no service: the result is -1, and nothing changes.
pub syscall_handler_main-unknown :
    (parts : Parts) (c : Call) (k : Kernel)
    → (c.sys_num ≡ 0) ⊎ ((c.sys_num ≡ 42) ⊎ (43 < c.sys_num))
    → syscall_handler_main parts c k ≡ (minus_one, k)
unfolding syscall_handler_main
syscall_handler_main-unknown parts c k unknown =
    let none_listed : listed c.sys_num ≡ false = elim unknown [
      | inl e ↦ ap listed e
      | inr (inl e) ↦ ap listed e
      | inr (inr lt) ↦
          rw
            (
              lt→ltb 0 c.sys_num (omega arith),
              le→not_ltb c.sys_num 42 (omega arith),
              ne→not_== c.sys_num 43 (omega arith),
            )
            refl
    ] in
    ap (λ (handler : Handler). handler k) (dispatch-none c.sys_num _ _ none_listed refl)
