-- ===== src/Graphics/Rect.antt =====
-- Rectangles of src/graphics.c, and the copy of the back buffer, stay inside the buffers.
use my_kernel.Base.{
  ℕ, zero, suc, ◌+◌, ◌-◌, ◌*◌, ◌%◌, ◌^◌, ◌<◌, ◌≤◌, ◌≡◌, refl, sym, subst, if◌then◌else◌, Bool, true,
  false, ◌||◌, Bool-cases, inl, inr, arith, ltb→lt, not_ltb→le, ne→not_==,
}
use my_kernel.Base.Signed.{slt, last_of}
use my_kernel.Graphics.{
  Settings, Screen, paint, fill_row, fill_rows, smax, smin, draw_rect, copy_pixel, copy_row,
  copy_rows,
}
use my_kernel.Graphics.Inside.{
  IsClipped, Inside, Inside-refl, Inside-trans, index_inside, paint-Inside,
}
use my_kernel.Graphics.Shapes.{Draws}

-- The order of signed words is that of the words moved up by 2^31.
abbrev biased : ℕ → ℕ
biased a = (a + 2 ^ 31) % 2 ^ 32

smax_lem :
    (a b : ℕ) → a < 2 ^ 32 → b < 2 ^ 32 → (biased b ≤ biased (smax a b)) × (smax a b < 2 ^ 32)
smax_lem a b fa fb = elim (Bool-cases (slt b a)) [
  | inl e ↦ let lt = ltb→lt _ _ e in rw e (omega arith, fa)
  | inr e ↦ rw e (omega arith, fb)
]

smax_left : (a b : ℕ) → biased a ≤ biased (smax a b)
smax_left a b = elim (Bool-cases (slt b a)) [
  | inl e ↦ rw e (omega arith)
  | inr e ↦ let le = not_ltb→le _ _ e in rw e (omega arith)
]

smin_lem :
    (a b : ℕ) → a < 2 ^ 32 → b < 2 ^ 32 → (biased (smin a b) ≤ biased b) × (smin a b < 2 ^ 32)
smin_lem a b fa fb = elim (Bool-cases (slt a b)) [
  | inl e ↦ let lt = ltb→lt _ _ e in rw e (omega arith, fa)
  | inr e ↦ rw e (omega arith, fb)
]

smin_left : (a b : ℕ) → biased (smin a b) ≤ biased a
smin_left a b = elim (Bool-cases (slt a b)) [
  | inl e ↦ rw e (omega arith)
  | inr e ↦ let le = not_ltb→le _ _ e in rw e (omega arith)
]

-- One axis of a rectangle: what is left of it lies between the ends of the clipping region.
axis :
    (x last lo hi dirty_lo dirty_hi n : ℕ)
    → x < 2 ^ 32
    → last < 2 ^ 32
    → lo < 2 ^ 31
    → hi < 2 ^ 32
    → dirty_lo < 2 ^ 32
    → dirty_hi < 2 ^ 32
    → n < 2 ^ 31
    → slt hi n ≡ true
    → slt (smin (smin last hi) dirty_hi) (smax (smax x lo) dirty_lo) ≡ false
    → (smax (smax x lo) dirty_lo ≤ smin (smin last hi) dirty_hi)
      × (smin (smin last hi) dirty_hi < n)
axis x last lo hi dirty_lo dirty_hi n fx fl flo fhi fdl fdh fn inside some =
    let (a, wa) = smax_lem x lo fx (omega arith) in
    let b = smax_left (smax x lo) dirty_lo in
    let (c, wc) = smax_lem (smax x lo) dirty_lo wa fdl in
    let (d, wd) = smin_lem last hi fl fhi in
    let e = smin_left (smin last hi) dirty_hi in
    let (f, wf) = smin_lem (smin last hi) dirty_hi wd fdh in
    let g = ltb→lt _ _ inside in
    let h = not_ltb→le _ _ some in
    bounds lo hi n (smax (smax x lo) dirty_lo) (smin (smin last hi) dirty_hi) wc wf flo fhi fn
      (omega arith) (omega arith) g h
  where
    bounds :
        (lo hi n start end : ℕ)
        → start < 2 ^ 32
        → end < 2 ^ 32
        → lo < 2 ^ 31
        → hi < 2 ^ 32
        → n < 2 ^ 31
        → biased lo ≤ biased start
        → biased end ≤ biased hi
        → biased hi < biased n
        → biased start ≤ biased end
        → (start ≤ end) × (end < n)
    bounds lo hi n start end ws we fl fh fn a b c d = (omega arith, omega arith)

fill_row-Inside :
    (n j i color : ℕ) (s : Screen)
    → IsClipped s.settings
    → j + n ≤ s.settings.screen_width
    → i < s.settings.screen_height
    → Inside s (fill_row n j i color s)
unfolding fill_row
fill_row-Inside zero j i color s c row column = Inside-refl s
fill_row-Inside (suc n) j i color s c row column =
    let at = (i * s.settings.screen_width + j) % 2 ^ 32 in
    let first = paint-Inside at color s (
      index_inside s.settings.screen_width s.settings.screen_height j i (omega arith) column
        c.whole) in
    Inside-trans first (
      fill_row-Inside n (j + 1) i color (paint at color s) (subst IsClipped (sym first.same) c)
        (subst (λ (g : Settings). j + 1 + n ≤ g.screen_width) (sym first.same) (omega arith))
        (subst (λ (g : Settings). i < g.screen_height) (sym first.same) column))

fill_rows-Inside :
    (n i j m color : ℕ) (s : Screen)
    → IsClipped s.settings
    → j + m ≤ s.settings.screen_width
    → i + n ≤ s.settings.screen_height
    → Inside s (fill_rows n i j m color s)
unfolding fill_rows
fill_rows-Inside zero i j m color s c row column = Inside-refl s
fill_rows-Inside (suc n) i j m color s c row column =
    let first = fill_row-Inside m j i color s c row (omega arith) in
    Inside-trans first (
      fill_rows-Inside n (i + 1) j m color (fill_row m j i color s)
        (subst IsClipped (sym first.same) c)
        (subst (λ (g : Settings). j + m ≤ g.screen_width) (sym first.same) row)
        (subst (λ (g : Settings). i + 1 + n ≤ g.screen_height) (sym first.same) (omega arith)))

pub Draws-draw_rect :
    (x y width height color : ℕ)
    → x < 2 ^ 32
    → y < 2 ^ 32
    → Draws (draw_rect x y width height color)
unfolding draw_rect
Draws-draw_rect x y width height color fx fy s c =
    let g = s.settings in
    let start_x = smax (smax x g.clip_min_x) g.dirty_min_x in
    let start_y = smax (smax y g.clip_min_y) g.dirty_min_y in
    let end_x = smin (smin (last_of x width) g.clip_max_x) g.dirty_max_x in
    let end_y = smin (smin (last_of y height) g.clip_max_y) g.dirty_max_y in
    shown (slt end_x start_x) (slt end_y start_y) (λ a b.
      let (le_x, lt_x) =
        axis x (last_of x width) g.clip_min_x g.clip_max_x g.dirty_min_x g.dirty_max_x
          g.screen_width fx (omega arith) c.left c.right_word c.dirty_left c.dirty_right c.wide
          c.right a in
      let (le_y, lt_y) =
        axis y (last_of y height) g.clip_min_y g.clip_max_y g.dirty_min_y g.dirty_max_y
          g.screen_height fy (omega arith) c.top c.bottom_word c.dirty_top c.dirty_bottom c.high
          c.bottom b in
      fill_rows-Inside (end_y + 1 - start_y) start_y start_x (end_x + 1 - start_x) color s c
        (omega arith) (omega arith))
  where
    shown :
        (a b : Bool) {t : Screen}
        → (a ≡ false → b ≡ false → Inside s t)
        → Inside s (if a || b then s else t)
    shown true b h = Inside-refl s
    shown false true h = Inside-refl s
    shown false false h = h refl refl

copy_pixel-Inside :
    (x y : ℕ) (s : Screen)
    → IsClipped s.settings
    → x < s.settings.screen_width
    → y < s.settings.screen_height
    → Inside s (copy_pixel x y s)
copy_pixel-Inside x y s c row column =
    let at = index_inside s.settings.screen_width s.settings.screen_height x y row column c.whole in
    record {
      same = refl;
      front_kept =
          λ k le. rw (ne→not_== k ((y * s.settings.screen_width + x) % 2 ^ 32) (omega arith)) refl;
      back_kept = λ k le. refl;
    }

copy_row-Inside :
    (n x y : ℕ) (s : Screen)
    → IsClipped s.settings
    → x + n ≤ s.settings.screen_width
    → y < s.settings.screen_height
    → Inside s (copy_row n x y s)
unfolding copy_row
copy_row-Inside zero x y s c row column = Inside-refl s
copy_row-Inside (suc n) x y s c row column =
    Inside-trans (copy_pixel-Inside x y s c (omega arith) column)
      (copy_row-Inside n (x + 1) y (copy_pixel x y s) c (omega arith) column)

pub copy_rows-Inside :
    (n y x m : ℕ) (s : Screen)
    → IsClipped s.settings
    → x + m ≤ s.settings.screen_width
    → y + n ≤ s.settings.screen_height
    → Inside s (copy_rows n y x m s)
unfolding copy_rows
copy_rows-Inside zero y x m s c row column = Inside-refl s
copy_rows-Inside (suc n) y x m s c row column =
    let first = copy_row-Inside m x y s c row (omega arith) in
    Inside-trans first (
      copy_rows-Inside n (y + 1) x m (copy_row m x y s) (subst IsClipped (sym first.same) c)
        (subst (λ (g : Settings). x + m ≤ g.screen_width) (sym first.same) row)
        (subst (λ (g : Settings). y + 1 + n ≤ g.screen_height) (sym first.same) (omega arith)))
