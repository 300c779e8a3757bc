-- ===== src/Graphics.antt =====
-- The frame buffer of src/graphics.c: clipping, dirty regions, and drawing by pixels. Coordinates
-- are words of 32 bits that the code reads as signed numbers.
pub mod Tables
pub mod Inside
pub mod Shapes
pub mod Rect
pub mod Clip
pub mod Commands
use my_kernel.Base.{
  ℕ, zero, suc, ◌+◌, ◌-◌, ◌*◌, ◌/◌, ◌%◌, ◌^◌, ◌==◌, ltb, leb, if◌then◌else◌, Bool, true, false, not,
  ◌&&◌, ◌||◌, bit_and, List, [], ◌∷◌, get_or,
}
use my_kernel.Base.Signed.{slt, last_of}
use my_kernel.Graphics.Tables.{font8x8, arrow_cursor}

-- The variables that drawing does not change; the two buffers by whether they are there.
pub record Settings : Type 0 where
  pub framebuffer : Bool
  pub back_buffer : Bool
  pub screen_width : ℕ
  pub screen_height : ℕ
  pub clip_min_x : ℕ
  pub clip_min_y : ℕ
  pub clip_max_x : ℕ
  pub clip_max_y : ℕ
  pub dirty_min_x : ℕ
  pub dirty_min_y : ℕ
  pub dirty_max_x : ℕ
  pub dirty_max_y : ℕ

-- The settings, and the colours in the frame buffer and in the back buffer.
pub record Screen : Type 0 where
  pub settings : Settings
  pub front : ℕ → ℕ
  pub back : ℕ → ℕ

unfoldable pub set_clipping_rect : ℕ → ℕ → ℕ → ℕ → Settings → Settings
set_clipping_rect x y w h g = record g {
  clip_min_x = if slt x 0 then 0 else x;
  clip_min_y = if slt y 0 then 0 else y;
  clip_max_x = if slt (last_of x w) g.screen_width then last_of x w else last_of g.screen_width 0;
  clip_max_y = if slt (last_of y h) g.screen_height then last_of y h else last_of g.screen_height 0;
}

unfoldable pub reset_clipping_rect : Settings → Settings
reset_clipping_rect g = record g {
  clip_min_x = 0;
  clip_min_y = 0;
  clip_max_x = last_of g.screen_width 0;
  clip_max_y = last_of g.screen_height 0;
}

unfoldable pub add_dirty_rect : ℕ → ℕ → ℕ → ℕ → Settings → Settings
add_dirty_rect x y w h g = record g {
  dirty_min_x = if slt x g.dirty_min_x then (if slt x 0 then 0 else x) else g.dirty_min_x;
  dirty_min_y = if slt y g.dirty_min_y then (if slt y 0 then 0 else y) else g.dirty_min_y;
  dirty_max_x =
      if slt g.dirty_max_x (last_of x w)
      then (if slt (last_of x w) g.screen_width then last_of x w else last_of g.screen_width 0)
      else g.dirty_max_x;
  dirty_max_y =
      if slt g.dirty_max_y (last_of y h)
      then (if slt (last_of y h) g.screen_height then last_of y h else last_of g.screen_height 0)
      else g.dirty_max_y;
}

unfoldable pub mark_screen_dirty : Settings → Settings
mark_screen_dirty g = record g {
  dirty_min_x = 0;
  dirty_min_y = 0;
  dirty_max_x = last_of g.screen_width 0;
  dirty_max_y = last_of g.screen_height 0;
}

-- `framebuffer = fb; ...; back_buffer = 0; reset_clipping_rect(); mark_screen_dirty();`
unfoldable pub init_graphics : Bool → ℕ → ℕ → Settings → Settings
init_graphics fb width height g = mark_screen_dirty (
    reset_clipping_rect (record g {
      framebuffer = fb;
      screen_width = width;
      screen_height = height;
      back_buffer = false;
    }))

-- `if (back_buffer) back_buffer[i] = color; else if (framebuffer) framebuffer[i] = color;`
unfoldable pub paint : ℕ → ℕ → Screen → Screen
paint i color s =
    if s.settings.back_buffer
    then record s { back = λ k. if k == i then color else s.back k }
    else (if s.settings.framebuffer
        then record s { front = λ k. if k == i then color else s.front k }
        else s)

abbrev pub outside_clip : Settings → ℕ → ℕ → Bool
outside_clip g x y =
    slt x g.clip_min_x || slt g.clip_max_x x || slt y g.clip_min_y || slt g.clip_max_y y

abbrev pub outside_dirty : Settings → ℕ → ℕ → Bool
outside_dirty g x y =
    slt x g.dirty_min_x || slt g.dirty_max_x x || slt y g.dirty_min_y || slt g.dirty_max_y y

unfoldable pub put_pixel : ℕ → ℕ → ℕ → Screen → Screen
put_pixel x y color s =
    if outside_clip s.settings x y
    then s
    else (if outside_dirty s.settings x y
        then s
        else paint ((y * s.settings.screen_width + x) % 2 ^ 32) color s)

-- `for (j = start_x; j <= end_x; j++)` of draw_rect, with `n` rounds left.
unfoldable pub fill_row : ℕ → ℕ → ℕ → ℕ → Screen → Screen
fill_row zero j i color s = s
fill_row (suc n) j i color s =
    fill_row n (j + 1) i color (paint ((i * s.settings.screen_width + j) % 2 ^ 32) color s)

-- `for (i = start_y; i <= end_y; i++)`, with `n` rounds left; a row has `m` pixels.
unfoldable pub fill_rows : ℕ → ℕ → ℕ → ℕ → ℕ → Screen → Screen
fill_rows zero i j m color s = s
fill_rows (suc n) i j m color s = fill_rows n (i + 1) j m color (fill_row m j i color s)

-- `framebuffer[y * screen_width + x] = back_buffer[y * screen_width + x];`
abbrev pub copy_pixel : ℕ → ℕ → Screen → Screen
copy_pixel x y s =
    let i = (y * s.settings.screen_width + x) % 2 ^ 32 in
    record s { front = λ k. if k == i then s.back i else s.front k }

-- The loops of swap_buffers, with `n` rounds left.
unfoldable pub copy_row : ℕ → ℕ → ℕ → Screen → Screen
copy_row zero x y s = s
copy_row (suc n) x y s = copy_row n (x + 1) y (copy_pixel x y s)

unfoldable pub copy_rows : ℕ → ℕ → ℕ → ℕ → Screen → Screen
copy_rows zero y x m s = s
copy_rows (suc n) y x m s = copy_rows n (y + 1) x m (copy_row m x y s)

unfoldable pub swap_buffers : Screen → Screen
swap_buffers s =
    let g = s.settings in
    let s_min_x = if slt g.dirty_min_x 0 then 0 else g.dirty_min_x in
    let s_min_y = if slt g.dirty_min_y 0 then 0 else g.dirty_min_y in
    let s_max_x =
      if slt g.dirty_max_x g.screen_width then g.dirty_max_x else last_of g.screen_width 0 in
    let s_max_y =
      if slt g.dirty_max_y g.screen_height then g.dirty_max_y else last_of g.screen_height 0 in
    let copied = copy_rows (s_max_y + 1 - s_min_y) s_min_y s_min_x (s_max_x + 1 - s_min_x) s in
    if not g.back_buffer || not g.framebuffer
    then s
    else (if slt s_max_x s_min_x || slt s_max_y s_min_y then s else record copied {
      settings = record copied.settings {
        dirty_min_x = copied.settings.screen_width;
        dirty_min_y = copied.settings.screen_height;
        dirty_max_x = 0;
        dirty_max_y = 0;
      };
    })

abbrev pub smax : ℕ → ℕ → ℕ
smax a b = if slt b a then a else b

abbrev pub smin : ℕ → ℕ → ℕ
smin a b = if slt a b then a else b

unfoldable pub draw_rect : ℕ → ℕ → ℕ → ℕ → ℕ → Screen → Screen
draw_rect x y width height color s =
    let g = s.settings in
    let start_x = smax (smax x g.clip_min_x) g.dirty_min_x in
    let start_y = smax (smax y g.clip_min_y) g.dirty_min_y in
    let end_x = smin (smin (last_of x width) g.clip_max_x) g.dirty_max_x in
    let end_y = smin (smin (last_of y height) g.clip_max_y) g.dirty_max_y in
    if slt end_x start_x || slt end_y start_y
    then s
    else fill_rows (end_y + 1 - start_y) start_y start_x (end_x + 1 - start_x) color s

-- One dot of a glyph; the colour 0xFFFFFFFF leaves the background as it is.
unfoldable pub draw_dot : ℕ → ℕ → ℕ → ℕ → ℕ → Screen → Screen
draw_dot x y dot fg_color bg_color s =
    if not (dot == 0)
    then put_pixel x y fg_color s
    else (if bg_color == 0xFFFFFFFF then s else put_pixel x y bg_color s)

-- `for (col = 0; col < 8; col++)` of draw_char, with `n` rounds left.
unfoldable pub draw_line : ℕ → ℕ → ℕ → ℕ → ℕ → ℕ → ℕ → Screen → Screen
draw_line zero col line x y fg bg s = s
draw_line (suc n) col line x y fg bg s =
    draw_line n (col + 1) line x y fg bg
      (draw_dot ((x + col) % 2 ^ 32) y (bit_and (line / 2 ^ (7 - col)) 1) fg bg s)

-- `for (row = 0; row < 8; row++)` over the rows of a glyph.
unfoldable pub draw_glyph : List ℕ → ℕ → ℕ → ℕ → ℕ → ℕ → Screen → Screen
draw_glyph [] row x y fg bg s = s
draw_glyph (line ∷ lines) row x y fg bg s =
    draw_glyph lines (row + 1) x y fg bg (draw_line 8 0 line x ((y + row) % 2 ^ 32) fg bg s)

unfoldable pub draw_char : ℕ → ℕ → ℕ → ℕ → ℕ → Screen → Screen
draw_char x y c fg bg s = draw_glyph (get_or font8x8 (if ltb 127 c then 32 else c) []) 0 x y fg bg s

-- The text is the list of the bytes up to its terminator.
unfoldable pub draw_string : ℕ → ℕ → ℕ → List ℕ → ℕ → ℕ → Screen → Screen
draw_string start_x x y [] fg bg s = s
draw_string start_x x y (c ∷ str) fg bg s =
    if c == 10
    then draw_string start_x start_x ((y + 12) % 2 ^ 32) str fg bg s
    else draw_string start_x ((x + 8) % 2 ^ 32) y str fg bg (draw_char x y c fg bg s)

unfoldable pub draw_string_wrapped : ℕ → ℕ → ℕ → ℕ → List ℕ → ℕ → ℕ → Screen → Screen
draw_string_wrapped start_x max_w x y [] fg bg s = s
draw_string_wrapped start_x max_w x y (c ∷ str) fg bg s =
    if c == 10
    then draw_string_wrapped start_x max_w start_x ((y + 12) % 2 ^ 32) str fg bg s
    else (if slt max_w ((x + 2 ^ 32 - start_x + 8) % 2 ^ 32)
        then draw_string_wrapped start_x max_w ((start_x + 8) % 2 ^ 32) ((y + 12) % 2 ^ 32) str fg
            bg (draw_char start_x ((y + 12) % 2 ^ 32) c fg bg s)
        else draw_string_wrapped start_x max_w ((x + 8) % 2 ^ 32) y str fg bg
            (draw_char x y c fg bg s))

-- One pixel of the pointer: black, white, or none.
unfoldable pub cursor_pixel : ℕ → ℕ → ℕ → Screen → Screen
cursor_pixel x y pixel_type s =
    if pixel_type == 1
    then put_pixel x y 0 s
    else (if pixel_type == 2 then put_pixel x y 0x00FFFFFF s else s)

unfoldable pub cursor_row : List ℕ → ℕ → ℕ → ℕ → Screen → Screen
cursor_row [] col x y s = s
cursor_row (p ∷ ps) col x y s =
    cursor_row ps (col + 1) x y (cursor_pixel ((x + col) % 2 ^ 32) y p s)

unfoldable pub cursor_rows : List (List ℕ) → ℕ → ℕ → ℕ → Screen → Screen
cursor_rows [] row x y s = s
cursor_rows (r ∷ rs) row x y s =
    cursor_rows rs (row + 1) x y (cursor_row r 0 x ((y + row) % 2 ^ 32) s)

unfoldable pub draw_cursor : ℕ → ℕ → Screen → Screen
draw_cursor x y s = cursor_rows arrow_cursor 0 x y s
