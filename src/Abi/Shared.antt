-- ===== src/Abi/Shared.antt =====
-- Every branch of syscall_handler_main in src/idt.c keeps the shared windows within their bounds.
use my_kernel.Base.{ℕ, ◌==◌, ◌≡◌, All, if◌then◌else◌, List, [], ◌∷◌, length}
use my_kernel.Gui.{Kernel, real}
use my_kernel.Abi.{Call, Handler}
use my_kernel.Abi.Services.{clipboard_text}
use my_kernel.Abi.Safety.{IsSound, action_stores}

-- Where a call may store through the pointers in its registers: the address and the number of bytes.
abbrev pub stores_of : Call → Kernel → List (ℕ × ℕ)
stores_of c k =
    if c.sys_num == 22
    then (real c.arg1 k, length k.pending_command) ∷ []
    else (if c.sys_num == 29
        then action_stores c.arg1 c.arg2 k
        else (if c.sys_num == 31
            then (c.arg3, 4) ∷ (c.arg2, 4) ∷ (c.arg1, 4) ∷ []
            else (if c.sys_num == 32
                then (c.arg3, 4) ∷ (c.arg2, 4) ∷ (c.arg1, 4) ∷ []
                else (if c.sys_num == 33
                    then (c.arg2, 4) ∷ (c.arg1, 4) ∷ []
                    else (if c.sys_num == 35
                        then (real c.arg5 k, 4)
                          ∷ (real c.arg4 k, 4)
                          ∷ (real c.arg3 k, 4)
                          ∷ (real c.arg2 k, 4)
                          ∷ []
                        else (if c.sys_num == 37
                            then (real c.arg1 k, length (clipboard_text k)) ∷ []
                            else (if c.sys_num == 39 then (real c.arg1 k, 4) ∷ [] else [])))))))

infixr 4 ◌&◌
-- A proof for the first branch, and one for the others.
◌&◌ : {A B : Type 0} → A → B → A × B
a & b = (a, b)

-- Each branch of a list keeps the windows, where the call has its number.
abbrev Keeping : Call → Kernel → List (ℕ × Handler) → Type 0
Keeping c k branches = All (λ b. c.sys_num ≡ b.0 → IsSound (b.1 k).1) branches
