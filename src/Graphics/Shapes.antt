-- ===== src/Graphics/Shapes.antt =====
-- Texts, rectangles and the pointer of src/graphics.c stay inside the buffers.
use my_kernel.Base.{
  ℕ, zero, suc, ◌+◌, ◌-◌, ◌/◌, ◌%◌, ◌^◌, ◌<◌, sym, subst, ◌==◌, ltb, if◌then◌else◌, Bool, true,
  false, not, bit_and, List, [], ◌∷◌, get_or, arith,
}
use my_kernel.Base.Signed.{slt}
use my_kernel.Graphics.{
  Screen, put_pixel, draw_dot, draw_line, draw_glyph, draw_char, draw_string, draw_string_wrapped,
  cursor_pixel, cursor_row, cursor_rows, draw_cursor,
}
use my_kernel.Graphics.Tables.{font8x8, arrow_cursor}
use my_kernel.Graphics.Inside.{IsClipped, Inside, Inside-refl, Inside-trans, put_pixel-Inside}

-- A routine that draws inside the buffers on every clipped screen.
abbrev pub Draws : (Screen → Screen) → Type 0
Draws f = (s : Screen) → IsClipped s.settings → Inside s (f s)

Draws-then : (f g : Screen → Screen) → Draws f → Draws g → Draws (λ s. g (f s))
Draws-then f g df dg s c = Inside-trans (df s c) (dg (f s) (subst IsClipped (sym (df s c).same) c))

Draws-if :
    (b : Bool) (f g : Screen → Screen) → Draws f → Draws g → Draws (λ s. if b then f s else g s)
Draws-if true f g df dg = df
Draws-if false f g df dg = dg

Draws-nothing : Draws (λ s. s)
Draws-nothing s c = Inside-refl s

Draws-pixel : (x y color : ℕ) → x < 2 ^ 32 → y < 2 ^ 32 → Draws (put_pixel x y color)
Draws-pixel x y color fx fy s c = put_pixel-Inside x y color s c fx fy

Draws-dot : (x y dot fg bg : ℕ) → x < 2 ^ 32 → y < 2 ^ 32 → Draws (draw_dot x y dot fg bg)
unfolding draw_dot
Draws-dot x y dot fg bg fx fy =
    Draws-if (not (dot == 0)) (put_pixel x y fg)
      (λ s. if bg == 0xFFFFFFFF then s else put_pixel x y bg s) (Draws-pixel x y fg fx fy)
      (Draws-if (bg == 0xFFFFFFFF) (λ s. s) (put_pixel x y bg) Draws-nothing
        (Draws-pixel x y bg fx fy))

Draws-line : (n col line x y fg bg : ℕ) → y < 2 ^ 32 → Draws (draw_line n col line x y fg bg)
unfolding draw_line
Draws-line zero col line x y fg bg fy = Draws-nothing
Draws-line (suc n) col line x y fg bg fy =
    Draws-then (draw_dot ((x + col) % 2 ^ 32) y (bit_and (line / 2 ^ (7 - col)) 1) fg bg)
      (draw_line n (col + 1) line x y fg bg)
      (Draws-dot ((x + col) % 2 ^ 32) y (bit_and (line / 2 ^ (7 - col)) 1) fg bg (omega arith) fy)
      (Draws-line n (col + 1) line x y fg bg fy)

Draws-glyph : (lines : List ℕ) (row x y fg bg : ℕ) → Draws (draw_glyph lines row x y fg bg)
unfolding draw_glyph
Draws-glyph [] row x y fg bg = Draws-nothing
Draws-glyph (line ∷ lines) row x y fg bg =
    Draws-then (draw_line 8 0 line x ((y + row) % 2 ^ 32) fg bg)
      (draw_glyph lines (row + 1) x y fg bg)
      (Draws-line 8 0 line x ((y + row) % 2 ^ 32) fg bg (omega arith))
      (Draws-glyph lines (row + 1) x y fg bg)

pub Draws-char : (x y c fg bg : ℕ) → Draws (draw_char x y c fg bg)
unfolding draw_char
Draws-char x y c fg bg = Draws-glyph (get_or font8x8 (if ltb 127 c then 32 else c) []) 0 x y fg bg

-- A text that is drawn stays inside the buffers, wherever it starts, and leaves the settings alone.
pub Draws-draw_string :
    (start_x x y : ℕ) (str : List ℕ) (fg bg : ℕ) → Draws (draw_string start_x x y str fg bg)
unfolding draw_string
Draws-draw_string start_x x y [] fg bg = Draws-nothing
Draws-draw_string start_x x y (c ∷ str) fg bg =
    Draws-if (c == 10) (draw_string start_x start_x ((y + 12) % 2 ^ 32) str fg bg)
      (λ s. draw_string start_x ((x + 8) % 2 ^ 32) y str fg bg (draw_char x y c fg bg s))
      (Draws-draw_string start_x start_x ((y + 12) % 2 ^ 32) str fg bg)
      (Draws-then (draw_char x y c fg bg) (draw_string start_x ((x + 8) % 2 ^ 32) y str fg bg)
        (Draws-char x y c fg bg) (Draws-draw_string start_x ((x + 8) % 2 ^ 32) y str fg bg))

pub Draws-draw_string_wrapped :
    (start_x max_w x y : ℕ) (str : List ℕ) (fg bg : ℕ)
    → Draws (draw_string_wrapped start_x max_w x y str fg bg)
unfolding draw_string_wrapped
Draws-draw_string_wrapped start_x max_w x y [] fg bg = Draws-nothing
Draws-draw_string_wrapped start_x max_w x y (c ∷ str) fg bg =
    let down = (y + 12) % 2 ^ 32 in
    Draws-if (c == 10) (draw_string_wrapped start_x max_w start_x down str fg bg)
      (λ s.
        if slt max_w ((x + 2 ^ 32 - start_x + 8) % 2 ^ 32)
        then draw_string_wrapped start_x max_w ((start_x + 8) % 2 ^ 32) down str fg bg
            (draw_char start_x down c fg bg s)
        else draw_string_wrapped start_x max_w ((x + 8) % 2 ^ 32) y str fg bg
            (draw_char x y c fg bg s))
      (Draws-draw_string_wrapped start_x max_w start_x down str fg bg)
      (Draws-if (slt max_w ((x + 2 ^ 32 - start_x + 8) % 2 ^ 32))
        (λ s.
          draw_string_wrapped start_x max_w ((start_x + 8) % 2 ^ 32) down str fg bg
            (draw_char start_x down c fg bg s))
        (λ s.
          draw_string_wrapped start_x max_w ((x + 8) % 2 ^ 32) y str fg bg
            (draw_char x y c fg bg s))
        (Draws-then (draw_char start_x down c fg bg)
          (draw_string_wrapped start_x max_w ((start_x + 8) % 2 ^ 32) down str fg bg)
          (Draws-char start_x down c fg bg)
          (Draws-draw_string_wrapped start_x max_w ((start_x + 8) % 2 ^ 32) down str fg bg))
        (Draws-then (draw_char x y c fg bg)
          (draw_string_wrapped start_x max_w ((x + 8) % 2 ^ 32) y str fg bg)
          (Draws-char x y c fg bg)
          (Draws-draw_string_wrapped start_x max_w ((x + 8) % 2 ^ 32) y str fg bg)))

Draws-cursor_pixel : (x y p : ℕ) → x < 2 ^ 32 → y < 2 ^ 32 → Draws (cursor_pixel x y p)
unfolding cursor_pixel
Draws-cursor_pixel x y p fx fy =
    Draws-if (p == 1) (put_pixel x y 0) (λ s. if p == 2 then put_pixel x y 0x00FFFFFF s else s)
      (Draws-pixel x y 0 fx fy)
      (Draws-if (p == 2) (put_pixel x y 0x00FFFFFF) (λ s. s) (Draws-pixel x y 0x00FFFFFF fx fy)
        Draws-nothing)

Draws-cursor_row : (ps : List ℕ) (col x y : ℕ) → y < 2 ^ 32 → Draws (cursor_row ps col x y)
unfolding cursor_row
Draws-cursor_row [] col x y fy = Draws-nothing
Draws-cursor_row (p ∷ ps) col x y fy =
    Draws-then (cursor_pixel ((x + col) % 2 ^ 32) y p) (cursor_row ps (col + 1) x y)
      (Draws-cursor_pixel ((x + col) % 2 ^ 32) y p (omega arith) fy)
      (Draws-cursor_row ps (col + 1) x y fy)

Draws-cursor_rows : (rs : List (List ℕ)) (row x y : ℕ) → Draws (cursor_rows rs row x y)
unfolding cursor_rows
Draws-cursor_rows [] row x y = Draws-nothing
Draws-cursor_rows (r ∷ rs) row x y =
    Draws-then (cursor_row r 0 x ((y + row) % 2 ^ 32)) (cursor_rows rs (row + 1) x y)
      (Draws-cursor_row r 0 x ((y + row) % 2 ^ 32) (omega arith))
      (Draws-cursor_rows rs (row + 1) x y)

pub Draws-draw_cursor : (x y : ℕ) → Draws (draw_cursor x y)
unfolding draw_cursor
Draws-draw_cursor x y = Draws-cursor_rows arrow_cursor 0 x y
