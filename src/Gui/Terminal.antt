-- ===== src/Gui/Terminal.antt =====
-- The lines of the terminal: terminal_print of src/kernel.c.
use my_kernel.Base.{
  ℕ, zero, suc, ◌+◌, ◌-◌, ◌==◌, ltb, leb, if◌then◌else◌, true, List, [], ◌∷◌, ◌++◌, length, get_or,
  set,
}
use my_kernel.Gui.{Kernel, overwrite}

-- `terminal_lines` and `terminal_line_count`
pub record Lines : Type 0 where
  pub lines : List (List ℕ)
  pub line_count : ℕ

-- `strcpy` of a text into one of the lines.
abbrev pub write_line : List ℕ → ℕ → List (List ℕ) → List (List ℕ)
write_line text i lines = set lines i (overwrite (text ++ 0 ∷ []) (get_or lines i []))

-- `for (j = 1; j < 16; j++) strcpy(terminal_lines[j - 1], terminal_lines[j]);`: the characters of
-- each line, without what is behind their terminators.
unfoldable pub chars : List ℕ → List ℕ
chars [] = []
chars (c ∷ cs) = let rest = chars cs in if c == 0 then [] else c ∷ rest

unfoldable pub scroll : ℕ → ℕ → List (List ℕ) → List (List ℕ)
scroll zero j lines = lines
scroll (suc n) j lines = scroll n (j + 1) (write_line (chars (get_or lines j [])) (j - 1) lines)

-- A line is finished: where the terminal is full, its lines move up first.
unfoldable pub add_line : List ℕ → Lines → Lines
add_line text t =
    if leb 16 t.line_count
    then record { lines = write_line text 15 (scroll 15 1 t.lines); line_count = 16 }
    else record { lines = write_line text t.line_count t.lines; line_count = t.line_count + 1 }

-- `while (text[i] != 0)`: `temp_line` is what the current line has so far.
unfoldable pub print_loop : List ℕ → List ℕ → Lines → Lines
print_loop [] temp_line t = if ltb 0 (length temp_line) then add_line temp_line t else t
print_loop (c ∷ cs) temp_line t =
    if c == b'\n'
    then print_loop cs [] (add_line temp_line t)
    else (if leb 79 (length temp_line)
        then print_loop cs (c ∷ []) (add_line temp_line t)
        else print_loop cs (temp_line ++ c ∷ []) t)

unfoldable pub terminal_print : List ℕ → Kernel → Kernel
terminal_print text k =
    let t =
      print_loop text []
        (record { lines = k.terminal_lines; line_count = k.terminal_line_count }) in
    record k { terminal_lines = t.lines; terminal_line_count = t.line_count; force_redraw = true }
