-- ===== src/Graphics/Inside.antt =====
-- Drawing of src/graphics.c stays inside the buffers.
use my_kernel.Base.{
  ℕ, suc, ◌+◌, ◌*◌, ◌%◌, ◌^◌, ◌<◌, ◌≤◌, ◌≡◌, refl, ap, sym, ◌∙◌, subst, ◌==◌, if◌then◌else◌, Bool,
  true, false, ◌||◌, Bool-cases, inl, inr, arith, ne→not_==,
}
use my_kernel.Base.Signed.{slt, slt-between}
use my_kernel.Graphics.{Settings, Screen, paint, put_pixel, outside_clip, outside_dirty}
use native.Mathlib.Nat.{mul-le-mul_right}

-- The screen has fewer than 2^31 pixels, and the clipping rectangle lies in it, where it has a pixel;
-- the dirty region is any words.
pub record IsClipped (g : Settings) : Type 0 where
  pub wide : g.screen_width < 2 ^ 31
  pub high : g.screen_height < 2 ^ 31
  pub whole : g.screen_width * g.screen_height < 2 ^ 31
  pub left : g.clip_min_x < 2 ^ 31
  pub top : g.clip_min_y < 2 ^ 31
  pub right : slt g.clip_max_x g.screen_width ≡ true
  pub bottom : slt g.clip_max_y g.screen_height ≡ true
  pub right_word : g.clip_max_x < 2 ^ 32
  pub bottom_word : g.clip_max_y < 2 ^ 32
  pub dirty_left : g.dirty_min_x < 2 ^ 32
  pub dirty_top : g.dirty_min_y < 2 ^ 32
  pub dirty_right : g.dirty_max_x < 2 ^ 32
  pub dirty_bottom : g.dirty_max_y < 2 ^ 32
  pub some_column : 0 < g.screen_width
  pub some_row : 0 < g.screen_height

-- The settings are as before, and so is everything behind the last pixel of the two buffers.
pub record Inside (s after : Screen) : Type 0 where
  pub same : after.settings ≡ s.settings
  pub front_kept :
      (i : ℕ) → s.settings.screen_width * s.settings.screen_height ≤ i → after.front i ≡ s.front i
  pub back_kept :
      (i : ℕ) → s.settings.screen_width * s.settings.screen_height ≤ i → after.back i ≡ s.back i

pub Inside-refl : (s : Screen) → Inside s s
Inside-refl s = record { same = refl; front_kept = λ i le. refl; back_kept = λ i le. refl }

pub Inside-trans : {s t u : Screen} → Inside s t → Inside t u → Inside s u
Inside-trans {s} {t} {u} a b =
    let size : s.settings.screen_width * s.settings.screen_height
        ≡ t.settings.screen_width * t.settings.screen_height =
      ap (λ (g : Settings). g.screen_width * g.screen_height) (sym a.same) in
    record {
      same = b.same ∙ a.same;
      front_kept = λ i le. b.front_kept i (subst (λ (n : ℕ). n ≤ i) size le) ∙ a.front_kept i le;
      back_kept = λ i le. b.back_kept i (subst (λ (n : ℕ). n ≤ i) size le) ∙ a.back_kept i le;
    }

pub index_inside : (w h x y : ℕ) → x < w → y < h → w * h < 2 ^ 31 → (y * w + x) % 2 ^ 32 < w * h
index_inside w h x y in_row in_column fits =
    let rows : suc y * w ≤ h * w = mul-le-mul_right w (omega arith) in
    let apart : suc y * w ≡ w + y * w = grind arith in
    let turn : h * w ≡ w * h = grind arith in
    let small : y * w + x < w * h = omega arith in omega arith

pub paint-Inside :
    (i color : ℕ) (s : Screen)
    → i < s.settings.screen_width * s.settings.screen_height
    → Inside s (paint i color s)
unfolding paint
paint-Inside i color s lt = go s.settings.back_buffer s.settings.framebuffer
  where
    go :
        (b f : Bool)
        → Inside s (
            if b
            then record s { back = λ k. if k == i then color else s.back k }
            else (if f then record s { front = λ k. if k == i then color else s.front k } else s))
    go true f = record {
      same = refl;
      front_kept = λ k le. refl;
      back_kept = λ k le. rw (ne→not_== k i (omega arith)) refl;
    }
    go false true = record {
      same = refl;
      front_kept = λ k le. rw (ne→not_== k i (omega arith)) refl;
      back_kept = λ k le. refl;
    }
    go false false = Inside-refl s

none_of :
    (a b c d : Bool)
    → (a || b || c || d) ≡ false
    → (a ≡ false) × (b ≡ false) × (c ≡ false) × (d ≡ false)
none_of false false false false e = (refl, refl, refl, refl)
none_of true b c d e = cc
none_of false true c d e = cc
none_of false false true d e = cc
none_of false false false true e = cc

-- A pixel goes inside the buffers, or nowhere.
pub put_pixel-Inside :
    (x y color : ℕ) (s : Screen)
    → IsClipped s.settings
    → x < 2 ^ 32
    → y < 2 ^ 32
    → Inside s (put_pixel x y color s)
unfolding put_pixel
put_pixel-Inside x y color s c fx fy = elim (Bool-cases (outside_clip s.settings x y)) [
  | inl out ↦
      subst (λ (b : Bool). Inside s (choose b (outside_dirty s.settings x y))) (sym out)
        (Inside-refl s)
  | inr within ↦
      let g = s.settings in
      let (a, b, top, bottom) =
        none_of (slt x g.clip_min_x) (slt g.clip_max_x x) (slt y g.clip_min_y) (slt g.clip_max_y y)
          within in
      let (lo_x, hi_x, le_x) =
        slt-between g.clip_min_x x g.clip_max_x g.screen_width fx c.right_word c.left c.wide c.right
          a b in
      let (lo_y, hi_y, le_y) =
        slt-between g.clip_min_y y g.clip_max_y g.screen_height fy c.bottom_word c.top c.high
          c.bottom top bottom in
      subst (λ (o : Bool). Inside s (choose o (outside_dirty s.settings x y))) (sym within)
        (dirty (outside_dirty s.settings x y) (
          paint-Inside ((y * g.screen_width + x) % 2 ^ 32) color s
            (index_inside g.screen_width g.screen_height x y hi_x hi_y c.whole)))
]
  where
    choose : Bool → Bool → Screen
    choose o d =
        if o
        then s
        else (if d then s else paint ((y * s.settings.screen_width + x) % 2 ^ 32) color s)

    dirty :
        (d : Bool)
        → Inside s (paint ((y * s.settings.screen_width + x) % 2 ^ 32) color s)
        → Inside s (if d then s else paint ((y * s.settings.screen_width + x) % 2 ^ 32) color s)
    dirty true i = Inside-refl s
    dirty false i = i
