-- ===== src/Gui/Bounds.antt =====
-- The bounds of the windows that the kernel and the window manager share: no call of a program
-- makes a counter leave its arrays.
use my_kernel.Base.{
  ℕ, zero, suc, ◌+◌, ◌-◌, ◌<◌, ◌≤◌, ◌≡◌, refl, ap, sym, ◌∙◌, ltb, Bool, true, false, ◌&&◌, inl, inr,
  some, List, [], ◌∷◌, length, get_or, set, drop, arith, All, length-set, ltb→lt, Bool-cases,
}
use my_kernel.Gui.{Window, no_window, Kernel, overwrite, find_window, window_at}
use my_kernel.Gui.Windows.{opened, add_to}
use my_kernel.Gui.Buttons.{with_button, shift, without_first, push_event}

-- The counters are within the arrays, and each array has the length of its declaration.
abbrev pub ShapesFit : Window → Type 0
ShapesFit win =
    (win.shape_count ≤ 100)
    × (length win.shape_x ≡ 100)
    × (length win.shape_y ≡ 100)
    × (length win.shape_w ≡ 100)
    × (length win.shape_h ≡ 100)
    × (length win.shape_color ≡ 100)

abbrev pub ButtonsFit : Window → Type 0
ButtonsFit win =
    (win.button_count ≤ 20)
    × (length win.button_x ≡ 20)
    × (length win.button_y ≡ 20)
    × (length win.button_w ≡ 20)
    × (length win.button_h ≡ 20)
    × (length win.button_text ≡ 20)
    × (length win.button_state ≡ 20)

abbrev pub EventsFit : Window → Type 0
EventsFit win = (win.event_count ≤ 20) × (length win.event_type ≡ 20) × (length win.event_id ≡ 20)

abbrev pub TextsFit : Window → Type 0
TextsFit win = (length win.title ≡ 32) × (length win.text_content ≡ 1024)

abbrev pub IsWindow : Window → Type 0
IsWindow win = ShapesFit win × ButtonsFit win × EventsFit win × TextsFit win

-- All windows of the pool are within their bounds.
abbrev pub IsGui : Kernel → Type 0
IsGui k = All IsWindow k.windows

pub length-overwrite {ℓ} : {A : Type ℓ} (new old : List A) → length (overwrite new old) ≡ length old
unfolding overwrite
length-overwrite new [] = refl
length-overwrite [] (y ∷ ys) = refl
length-overwrite (x ∷ xs) (y ∷ ys) = ap suc (length-overwrite xs ys)

length-shift : (n : ℕ) (xs : List ℕ) → length (shift n xs) ≡ length xs
unfolding shift
length-shift zero xs = refl
length-shift (suc n) [] = refl
length-shift (suc n) (x ∷ []) = refl
length-shift (suc n) (x ∷ y ∷ ys) = ap suc (length-shift n (y ∷ ys))

-- A write keeps an array's length.
pub kept {ℓ} :
    {A : Type ℓ} {n : ℕ} (xs : List A) (i : ℕ) (v : A) → length xs ≡ n → length (set xs i v) ≡ n
kept xs i v e = length-set xs i v ∙ e

pub no_window-IsWindow : IsWindow no_window
no_window-IsWindow = ground arith

get_or-drop {ℓ} :
    {A : Type ℓ} (n : ℕ) (xs : List A) (i : ℕ) (d : A)
    → get_or (drop n xs) i d ≡ get_or xs (n + i) d
get_or-drop zero xs i d = let e : i ≡ 0 + i = omega arith in ap (λ j. get_or xs j d) e
get_or-drop (suc n) [] i d = refl
get_or-drop (suc n) (x ∷ xs) i d =
    let e : suc (n + i) ≡ suc n + i = omega arith in
    get_or-drop n xs i d ∙ ap (λ j. get_or (x ∷ xs) j d) e

-- What is found has the property.
pub find_window-test :
    (test : Window → Bool) (n : ℕ) (wins : List Window) (i : ℕ)
    → find_window test n wins ≡ some i
    → (n ≤ i) × (test (get_or wins (i - n) no_window) ≡ true)
unfolding find_window
find_window-test test n [] i e = absurd (cc)
find_window-test test n (win ∷ wins) i e = elim (Bool-cases (test win)) [
  | inl holds ↦
      let here : some n ≡ some i = (rw holds refl) ∙ e in
      let same : n ≡ i = cc in
      let z : i - n ≡ 0 = omega (arith, same) in
      (omega (arith, same), ap (λ j. test (get_or (win ∷ wins) j no_window)) z ∙ holds)
  | inr fails ↦
      let later : find_window test (n + 1) wins ≡ some i = (rw fails refl) ∙ e in
      let rest = find_window-test test (n + 1) wins i later in
      let z : i - n ≡ suc (i - (n + 1)) = omega (arith, rest.0) in
      (omega (arith, rest.0), ap (λ j. test (get_or (win ∷ wins) j no_window)) z ∙ rest.1)
]

-- The same, from window 2 on.
pub find_window-window_at :
    (test : Window → Bool) (k : Kernel) (i : ℕ)
    → find_window test 2 (drop 2 k.windows) ≡ some i
    → test (window_at k i) ≡ true
find_window-window_at test k i e =
    let found = find_window-test test 2 (drop 2 k.windows) i e in
    let z : 2 + (i - 2) ≡ i = omega (arith, found.0) in
    ap test
      (sym (get_or-drop 2 k.windows (i - 2) no_window ∙ ap (λ j. get_or k.windows j no_window) z))
    ∙ found.1

pub both-right : (b c : Bool) → (b && c) ≡ true → c ≡ true
both-right true c e = e
both-right false c e = absurd (cc)

pub opened-IsWindow :
    (i w h : ℕ) (name : List ℕ) (owner : ℕ) (win : Window)
    → IsWindow win
    → IsWindow (opened i w h name owner win)
opened-IsWindow i w h name owner win (shapes, buttons, events, (title, content)) = (
  (omega arith, shapes.1, shapes.2, shapes.3, shapes.4, shapes.5),
  (omega arith, buttons.1, buttons.2, buttons.3, buttons.4, buttons.5, buttons.6),
  (omega arith, events.1, events.2),
  (length-overwrite _ win.title ∙ title, kept win.text_content 0 0 content),
)

pub add_to-IsWindow :
    (x y w h color : ℕ) (win : Window)
    → IsWindow win
    → win.shape_count < 100
    → IsWindow (add_to x y w h color win)
add_to-IsWindow x y w h color win ((le, sx, sy, sw, sh, sc), buttons, events, texts) room = (
  (
    omega arith,
    kept win.shape_x _ x sx,
    kept win.shape_y _ y sy,
    kept win.shape_w _ w sw,
    kept win.shape_h _ h sh,
    kept win.shape_color _ color sc,
  ),
  buttons,
  events,
  texts,
)

pub with_button-IsWindow :
    (x y w h : ℕ) (text : List ℕ) (win : Window)
    → IsWindow win
    → win.button_count < 20
    → IsWindow (with_button x y w h text win)
with_button-IsWindow x y w h text win (shapes, (le, bx, by, bw, bh, bt, bs), events, texts) room = (
  shapes,
  (
    omega arith,
    kept win.button_x _ x bx,
    kept win.button_y _ y by,
    kept win.button_w _ w bw,
    kept win.button_h _ h bh,
    kept win.button_text _ _ bt,
    kept win.button_state _ 0 bs,
  ),
  events,
  texts,
)

pub without_first-IsWindow : (win : Window) → IsWindow win → IsWindow (without_first win)
without_first-IsWindow win (shapes, buttons, (le, types, ids), texts) = (
  shapes,
  buttons,
  (omega arith, length-shift _ win.event_type ∙ types, length-shift _ win.event_id ∙ ids),
  texts,
)

pub push_event-IsWindow : (b : ℕ) (win : Window) → IsWindow win → IsWindow (push_event b win)
unfolding push_event
push_event-IsWindow b win (shapes, buttons, (le, types, ids), texts) =
    elim (Bool-cases (ltb win.event_count 20)) [
      | inl room ↦
          rw (push_event, room)
            (
              shapes,
              buttons,
              (
                omega (arith, ltb→lt _ _ room),
                kept win.event_type _ 1 types,
                kept win.event_id _ b ids,
              ),
              texts,
            )
      | inr full ↦ rw (push_event, full) (shapes, buttons, (le, types, ids), texts)
    ]
