-- ===== src/Graphics/Clip.antt =====
-- The clipping and the changed region of src/graphics.c stay within the screen.
use my_kernel.Base.{
  ℕ, ◌^◌, ◌<◌, ◌≡◌, if◌then◌else◌, Bool, true, false, Bool-cases, inl, inr, arith, lt→ltb,
  not_ltb→le,
}
use my_kernel.Base.Signed.{slt, last_of}
use my_kernel.Graphics.{Settings, set_clipping_rect, reset_clipping_rect, add_dirty_rect}
use my_kernel.Graphics.Inside.{IsClipped}

-- A region's far end, cut at the screen.
pub cut_end :
    (a n : ℕ)
    → 0 < n
    → n < 2 ^ 31
    → a < 2 ^ 32
    → (slt (if slt a n then a else last_of n 0) n ≡ true)
      × ((if slt a n then a else last_of n 0) < 2 ^ 32)
cut_end a n some fits fa = elim (Bool-cases (slt a n)) [
  | inl e ↦ rw e (e, fa)
  | inr e ↦ rw e (lt→ltb _ _ (omega arith), omega arith)
]

pub cut_start : (a : ℕ) → a < 2 ^ 32 → (if slt a 0 then 0 else a) < 2 ^ 31
cut_start a fa = elim (Bool-cases (slt a 0)) [
  | inl e ↦ rw e (omega arith)
  | inr e ↦ let le = not_ltb→le _ _ e in rw e (omega arith)
]

pub pick_word : (b : Bool) (x y : ℕ) → x < 2 ^ 32 → y < 2 ^ 32 → (if b then x else y) < 2 ^ 32
pick_word true x y fx fy = fx
pick_word false x y fx fy = fy

pub set_clipping_rect-IsClipped :
    (x y w h : ℕ) (g : Settings)
    → x < 2 ^ 32
    → y < 2 ^ 32
    → IsClipped g
    → IsClipped (set_clipping_rect x y w h g)
unfolding set_clipping_rect
set_clipping_rect-IsClipped x y w h g fx fy c =
    let (right, right_word) =
      cut_end (last_of x w) g.screen_width c.some_column c.wide (omega arith) in
    let (bottom, bottom_word) =
      cut_end (last_of y h) g.screen_height c.some_row c.high (omega arith) in
    record {
      wide = c.wide;
      high = c.high;
      whole = c.whole;
      left = cut_start x fx;
      top = cut_start y fy;
      right = right;
      bottom = bottom;
      right_word = right_word;
      bottom_word = bottom_word;
      dirty_left = c.dirty_left;
      dirty_top = c.dirty_top;
      dirty_right = c.dirty_right;
      dirty_bottom = c.dirty_bottom;
      some_column = c.some_column;
      some_row = c.some_row;
    }

pub reset_clipping_rect-IsClipped : (g : Settings) → IsClipped g → IsClipped (reset_clipping_rect g)
unfolding reset_clipping_rect
reset_clipping_rect-IsClipped g c = record {
  wide = c.wide;
  high = c.high;
  whole = c.whole;
  left = omega arith;
  top = omega arith;
  right = lt→ltb _ _ (omega (arith, c.wide, c.some_column));
  bottom = lt→ltb _ _ (omega (arith, c.high, c.some_row));
  right_word = omega arith;
  bottom_word = omega arith;
  dirty_left = c.dirty_left;
  dirty_top = c.dirty_top;
  dirty_right = c.dirty_right;
  dirty_bottom = c.dirty_bottom;
  some_column = c.some_column;
  some_row = c.some_row;
}

pub with_dirty :
    (g : Settings) (a b d e : ℕ)
    → IsClipped g
    → a < 2 ^ 32
    → b < 2 ^ 32
    → d < 2 ^ 32
    → e < 2 ^ 32
    → IsClipped (record g { dirty_min_x = a; dirty_min_y = b; dirty_max_x = d; dirty_max_y = e })
with_dirty g a b d e c fa fb fd fe = record {
  wide = c.wide;
  high = c.high;
  whole = c.whole;
  left = c.left;
  top = c.top;
  right = c.right;
  bottom = c.bottom;
  right_word = c.right_word;
  bottom_word = c.bottom_word;
  dirty_left = fa;
  dirty_top = fb;
  dirty_right = fd;
  dirty_bottom = fe;
  some_column = c.some_column;
  some_row = c.some_row;
}

pub add_dirty_rect-IsClipped :
    (x y w h : ℕ) (g : Settings)
    → x < 2 ^ 32
    → y < 2 ^ 32
    → IsClipped g
    → IsClipped (add_dirty_rect x y w h g)
unfolding add_dirty_rect
add_dirty_rect-IsClipped x y w h g fx fy c =
    with_dirty g (if slt x g.dirty_min_x then (if slt x 0 then 0 else x) else g.dirty_min_x)
      (if slt y g.dirty_min_y then (if slt y 0 then 0 else y) else g.dirty_min_y)
      (if slt g.dirty_max_x (last_of x w)
        then (if slt (last_of x w) g.screen_width then last_of x w else last_of g.screen_width 0)
        else g.dirty_max_x)
      (if slt g.dirty_max_y (last_of y h)
        then (if slt (last_of y h) g.screen_height then last_of y h else last_of g.screen_height 0)
        else g.dirty_max_y)
      c
      (pick_word (slt x g.dirty_min_x) (if slt x 0 then 0 else x) g.dirty_min_x
        (pick_word (slt x 0) 0 x (omega arith) fx) c.dirty_left)
      (pick_word (slt y g.dirty_min_y) (if slt y 0 then 0 else y) g.dirty_min_y
        (pick_word (slt y 0) 0 y (omega arith) fy) c.dirty_top)
      (pick_word (slt g.dirty_max_x (last_of x w))
        (if slt (last_of x w) g.screen_width then last_of x w else last_of g.screen_width 0)
        g.dirty_max_x (cut_end (last_of x w) g.screen_width c.some_column c.wide (omega arith)).1
        c.dirty_right)
      (pick_word (slt g.dirty_max_y (last_of y h))
        (if slt (last_of y h) g.screen_height then last_of y h else last_of g.screen_height 0)
        g.dirty_max_y (cut_end (last_of y h) g.screen_height c.some_row c.high (omega arith)).1
        c.dirty_bottom)
