-- ===== src/Graphics/Commands.antt =====
-- Any sequence of calls into src/graphics.c, after init_graphics.
use my_kernel.Base.{
  ℕ, ◌+◌, ◌-◌, ◌*◌, ◌%◌, ◌^◌, ◌<◌, ◌≤◌, ◌≡◌, refl, ap, ap₂, sym, ◌∙◌, subst, if◌then◌else◌, Bool,
  true, false, not, ◌||◌, List, [], ◌∷◌, arith, ltb→lt, lt→ltb, not_ltb→le,
}
use my_kernel.Base.Signed.{slt, last_of}
use my_kernel.Graphics.{
  Settings, Screen, put_pixel, set_clipping_rect, reset_clipping_rect, add_dirty_rect,
  mark_screen_dirty, init_graphics, draw_rect, draw_char, draw_string, draw_string_wrapped,
  draw_cursor, copy_rows, swap_buffers,
}
use my_kernel.Graphics.Inside.{IsClipped, Inside, Inside-refl, put_pixel-Inside}
use my_kernel.Graphics.Clip.{
  cut_end, cut_start, set_clipping_rect-IsClipped, reset_clipping_rect-IsClipped, with_dirty,
  add_dirty_rect-IsClipped,
}
use my_kernel.Graphics.Shapes.{
  Draws-char, Draws-draw_string, Draws-draw_string_wrapped, Draws-draw_cursor,
}
use my_kernel.Graphics.Rect.{Draws-draw_rect, copy_rows-Inside}

-- A call, with its arguments as words.
pub data Command : Type 0 where
  pixel : ℕ → ℕ → ℕ → Command
  rect : ℕ → ℕ → ℕ → ℕ → ℕ → Command
  char : ℕ → ℕ → ℕ → ℕ → ℕ → Command
  text : ℕ → ℕ → List ℕ → ℕ → ℕ → Command
  wrapped : ℕ → ℕ → ℕ → List ℕ → ℕ → ℕ → Command
  pointer : ℕ → ℕ → Command
  clip : ℕ → ℕ → ℕ → ℕ → Command
  unclip : Command
  dirty : ℕ → ℕ → ℕ → ℕ → Command
  all_dirty : Command
  swap : Command

abbrev word : ℕ → ℕ
word a = a % 2 ^ 32

-- What one call does; the arguments go through 32-bit registers.
unfoldable pub call : Command → Screen → Screen
call (pixel x y color) s = put_pixel (word x) (word y) color s
call (rect x y w h color) s = draw_rect (word x) (word y) (word w) (word h) color s
call (char x y c fg bg) s = draw_char x y c fg bg s
call (text x y str fg bg) s = draw_string x x y str fg bg s
call (wrapped x y max_w str fg bg) s = draw_string_wrapped x max_w x y str fg bg s
call (pointer x y) s = draw_cursor x y s
call (clip x y w h) s = record s {
  settings = set_clipping_rect (word x) (word y) (word w) (word h) s.settings;
}
call unclip s = record s { settings = reset_clipping_rect s.settings }
call (dirty x y w h) s = record s {
  settings = add_dirty_rect (word x) (word y) (word w) (word h) s.settings;
}
call all_dirty s = record s { settings = mark_screen_dirty s.settings }
call swap s = swap_buffers s

unfoldable pub run : List Command → Screen → Screen
run [] s = s
run (c ∷ cs) s = run cs (call c s)

-- The screen has its size, its clipping rectangle lies in it, and what is behind the last pixel of
-- the two buffers is as before.
pub record Contained (s after : Screen) : Type 0 where
  pub clipped : IsClipped after.settings
  pub width : after.settings.screen_width ≡ s.settings.screen_width
  pub height : after.settings.screen_height ≡ s.settings.screen_height
  pub front_kept :
      (i : ℕ) → s.settings.screen_width * s.settings.screen_height ≤ i → after.front i ≡ s.front i
  pub back_kept :
      (i : ℕ) → s.settings.screen_width * s.settings.screen_height ≤ i → after.back i ≡ s.back i

Contained-trans : (s t u : Screen) → Contained s t → Contained t u → Contained s u
Contained-trans s t u a b =
    let size : s.settings.screen_width * s.settings.screen_height
        ≡ t.settings.screen_width * t.settings.screen_height =
      ap₂ (λ (w h : ℕ). w * h) (sym a.width) (sym a.height) in
    record {
      clipped = b.clipped;
      width = b.width ∙ a.width;
      height = b.height ∙ a.height;
      front_kept = λ i le. b.front_kept i (subst (λ (n : ℕ). n ≤ i) size le) ∙ a.front_kept i le;
      back_kept = λ i le. b.back_kept i (subst (λ (n : ℕ). n ≤ i) size le) ∙ a.back_kept i le;
    }

drawn : (s after : Screen) → IsClipped s.settings → Inside s after → Contained s after
drawn s after c i = record {
  clipped = subst IsClipped (sym i.same) c;
  width = ap (λ (g : Settings). g.screen_width) i.same;
  height = ap (λ (g : Settings). g.screen_height) i.same;
  front_kept = i.front_kept;
  back_kept = i.back_kept;
}

some_axis :
    (start end n : ℕ)
    → start < 2 ^ 31
    → end < 2 ^ 32
    → n < 2 ^ 31
    → slt end n ≡ true
    → slt end start ≡ false
    → (start ≤ end) × (end < n)
some_axis start end n fs fe fn a b =
    let p = ltb→lt _ _ a in let q = not_ltb→le _ _ b in (omega arith, omega arith)

copied-Contained :
    (s t : Screen)
    → IsClipped s.settings
    → Inside s t
    → Contained s (record t {
      settings = record t.settings {
        dirty_min_x = t.settings.screen_width;
        dirty_min_y = t.settings.screen_height;
        dirty_max_x = 0;
        dirty_max_y = 0;
      };
    })
copied-Contained s t c i =
    let d : IsClipped t.settings = subst IsClipped (sym i.same) c in
    record {
      clipped =
          with_dirty t.settings t.settings.screen_width t.settings.screen_height 0 0 d
            (omega (arith, d.wide)) (omega (arith, d.high)) (omega arith) (omega arith);
      width = ap (λ (g : Settings). g.screen_width) i.same;
      height = ap (λ (g : Settings). g.screen_height) i.same;
      front_kept = i.front_kept;
      back_kept = i.back_kept;
    }

swap_buffers-Contained : (s : Screen) → IsClipped s.settings → Contained s (swap_buffers s)
unfolding swap_buffers
swap_buffers-Contained s c =
    let g = s.settings in
    let s_min_x = if slt g.dirty_min_x 0 then 0 else g.dirty_min_x in
    let s_min_y = if slt g.dirty_min_y 0 then 0 else g.dirty_min_y in
    let s_max_x =
      if slt g.dirty_max_x g.screen_width then g.dirty_max_x else last_of g.screen_width 0 in
    let s_max_y =
      if slt g.dirty_max_y g.screen_height then g.dirty_max_y else last_of g.screen_height 0 in
    let (right, right_word) =
      cut_end g.dirty_max_x g.screen_width c.some_column c.wide c.dirty_right in
    let (bottom, bottom_word) =
      cut_end g.dirty_max_y g.screen_height c.some_row c.high c.dirty_bottom in
    let left = cut_start g.dirty_min_x c.dirty_left in
    let top = cut_start g.dirty_min_y c.dirty_top in
    copied (not g.back_buffer || not g.framebuffer) (slt s_max_x s_min_x) (slt s_max_y s_min_y)
      (λ a b.
        let (le_x, lt_x) =
          some_axis s_min_x s_max_x g.screen_width left right_word c.wide right a in
        let (le_y, lt_y) =
          some_axis s_min_y s_max_y g.screen_height top bottom_word c.high bottom b in
        copied-Contained s
          (copy_rows (s_max_y + 1 - s_min_y) s_min_y s_min_x (s_max_x + 1 - s_min_x) s) c
          (copy_rows-Inside (s_max_y + 1 - s_min_y) s_min_y s_min_x (s_max_x + 1 - s_min_x) s c
            (omega arith) (omega arith)))
  where
    copied :
        (none a b : Bool) {t : Screen}
        → (a ≡ false → b ≡ false → Contained s t)
        → Contained s (if none then s else (if a || b then s else t))
    copied true a b h = drawn s s c (Inside-refl s)
    copied false true b h = drawn s s c (Inside-refl s)
    copied false false true h = drawn s s c (Inside-refl s)
    copied false false false h = h refl refl

set :
    (s : Screen) (g : Settings)
    → IsClipped g
    → g.screen_width ≡ s.settings.screen_width
    → g.screen_height ≡ s.settings.screen_height
    → Contained s (record s { settings = g })
set s g c w h = record {
  clipped = c;
  width = w;
  height = h;
  front_kept = λ i le. refl;
  back_kept = λ i le. refl;
}

clip-Contained :
    (x y w h : ℕ) (s : Screen)
    → x < 2 ^ 32
    → y < 2 ^ 32
    → IsClipped s.settings
    → Contained s (record s { settings = set_clipping_rect x y w h s.settings })
unfolding set_clipping_rect
clip-Contained x y w h s fx fy c =
    set s (set_clipping_rect x y w h s.settings)
      (set_clipping_rect-IsClipped x y w h s.settings fx fy c) refl refl

unclip-Contained :
    (s : Screen)
    → IsClipped s.settings
    → Contained s (record s { settings = reset_clipping_rect s.settings })
unfolding reset_clipping_rect
unclip-Contained s c =
    set s (reset_clipping_rect s.settings) (reset_clipping_rect-IsClipped s.settings c) refl refl

dirty-Contained :
    (x y w h : ℕ) (s : Screen)
    → x < 2 ^ 32
    → y < 2 ^ 32
    → IsClipped s.settings
    → Contained s (record s { settings = add_dirty_rect x y w h s.settings })
unfolding add_dirty_rect
dirty-Contained x y w h s fx fy c =
    set s (add_dirty_rect x y w h s.settings) (add_dirty_rect-IsClipped x y w h s.settings fx fy c)
      refl refl

all_dirty-Contained :
    (s : Screen)
    → IsClipped s.settings
    → Contained s (record s { settings = mark_screen_dirty s.settings })
unfolding mark_screen_dirty
all_dirty-Contained s c =
    let g = s.settings in
    set s (mark_screen_dirty g)
      (with_dirty g 0 0 (last_of g.screen_width 0) (last_of g.screen_height 0) c (omega arith)
        (omega arith) (omega arith) (omega arith))
      refl refl

call-Contained : (c : Command) (s : Screen) → IsClipped s.settings → Contained s (call c s)
unfolding call
call-Contained (pixel x y color) s c =
    drawn s _ c (put_pixel-Inside (word x) (word y) color s c (omega arith) (omega arith))
call-Contained (rect x y w h color) s c =
    drawn s _ c
      (Draws-draw_rect (word x) (word y) (word w) (word h) color (omega arith) (omega arith) s c)
call-Contained (char x y k fg bg) s c = drawn s _ c (Draws-char x y k fg bg s c)
call-Contained (text x y str fg bg) s c = drawn s _ c (Draws-draw_string x x y str fg bg s c)
call-Contained (wrapped x y max_w str fg bg) s c =
    drawn s _ c (Draws-draw_string_wrapped x max_w x y str fg bg s c)
call-Contained (pointer x y) s c = drawn s _ c (Draws-draw_cursor x y s c)
call-Contained (clip x y w h) s c =
    clip-Contained (word x) (word y) (word w) (word h) s (omega arith) (omega arith) c
call-Contained unclip s c = unclip-Contained s c
call-Contained (dirty x y w h) s c =
    dirty-Contained (word x) (word y) (word w) (word h) s (omega arith) (omega arith) c
call-Contained all_dirty s c = all_dirty-Contained s c
call-Contained swap s c = swap_buffers-Contained s c

-- Whatever sequence of drawing calls, of changes to the clipping rectangle and the dirty region, and
-- of copies of the back buffer runs on a screen that is clipped: nothing is written behind the last
-- pixel of either buffer, and the clipping rectangle lies in the screen at the end.
pub run-Contained : (cs : List Command) (s : Screen) → IsClipped s.settings → Contained s (run cs s)
unfolding run
run-Contained [] s c = drawn s s c (Inside-refl s)
run-Contained (k ∷ cs) s c =
    let first = call-Contained k s c in
    Contained-trans s (call k s) (run cs (call k s)) first
      (run-Contained cs (call k s) first.clipped)

-- After init_graphics with a screen of some size and fewer than 2^31 pixels the screen is clipped.
pub init_graphics-IsClipped :
    (fb : Bool) (width height : ℕ) (g : Settings)
    → 0 < width
    → 0 < height
    → width < 2 ^ 31
    → height < 2 ^ 31
    → width * height < 2 ^ 31
    → IsClipped (init_graphics fb width height g)
unfolding init_graphics mark_screen_dirty reset_clipping_rect
init_graphics-IsClipped fb width height g some_column some_row wide high whole = record {
  wide = wide;
  high = high;
  whole = whole;
  left = omega arith;
  top = omega arith;
  right = lt→ltb _ _ (omega arith);
  bottom = lt→ltb _ _ (omega arith);
  right_word = omega arith;
  bottom_word = omega arith;
  dirty_left = omega arith;
  dirty_top = omega arith;
  dirty_right = omega arith;
  dirty_bottom = omega arith;
  some_column = some_column;
  some_row = some_row;
}
