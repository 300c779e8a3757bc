-- ===== src/Gui/Windows.antt =====
-- The services of src/kernel.c on the windows of a program.
use my_kernel.Base.{
  ℕ, ◌+◌, ◌*◌, ◌==◌, ltb, leb, if◌then◌else◌, Bool, true, false, not, ◌&&◌, none, some, List, [],
  ◌∷◌, ◌++◌, set,
}
use my_kernel.Gui.{
  Window, Kernel, minus_one, real, text_at, overwrite, find_window, window_at, put_window, is_own,
  own_window,
}

-- The window of a program that opens, as number `i`.
abbrev pub opened : ℕ → ℕ → ℕ → List ℕ → ℕ → Window → Window
opened i w h name owner win = record win {
  number = i;
  owner_task_id = owner;
  shape_count = 0;
  x = 200 + i * 20;
  y = 120 + i * 20;
  w = w;
  h = h;
  is_open = true;
  is_dragging = false;
  is_minimized = false;
  button_count = 0;
  event_count = 0;
  text_content = set win.text_content 0 0;
  title = overwrite (name ++ 0 ∷ []) win.title;
}

unfoldable pub api_create_window : ℕ → ℕ → ℕ → Kernel → ℕ × Kernel
api_create_window title w h k = elim (find_window (λ win. not win.is_open) 0 k.windows) [
  | none ↦ (minus_one, k)
  | some i ↦ (
    i,
    record (put_window i
        (opened i w h (text_at 31 k.memory (real title k)) k.task_id (window_at k i)) k) {
          focused_window = i;
          force_redraw = true;
        },
  )
]

abbrev pub add_to : ℕ → ℕ → ℕ → ℕ → ℕ → Window → Window
add_to x y w h color win = record win {
  shape_x = set win.shape_x win.shape_count x;
  shape_y = set win.shape_y win.shape_count y;
  shape_w = set win.shape_w win.shape_count w;
  shape_h = set win.shape_h win.shape_count h;
  shape_color = set win.shape_color win.shape_count color;
  shape_count = win.shape_count + 1;
}

unfoldable pub api_add_shape : ℕ → ℕ → ℕ → ℕ → ℕ → Kernel → Kernel
api_add_shape x y w h color k = elim (own_window k) [
  | none ↦ k
  | some i ↦
      if ltb (window_at k i).shape_count 100
      then record (put_window i (add_to x y w h color (window_at k i)) k) { force_redraw = true }
      else k
]

unfoldable pub api_clear_shapes : Kernel → Kernel
api_clear_shapes k = elim (own_window k) [
  | none ↦ k
  | some i ↦ record (put_window i (record (window_at k i) { shape_count = 0 }) k) {
    force_redraw = true;
  }
]

-- Whether the focused window is an open window of the task; `focused_window` is from 0 to 5.
abbrev pub has_focus : Kernel → Bool
has_focus k = leb 2 k.focused_window && is_own k (window_at k k.focused_window)

unfoldable pub api_get_key : Kernel → ℕ × Kernel
api_get_key k =
    if has_focus k
    then (if k.last_game_key == 0
        then (0, record k { last_game_key = 0; task_state = 1 })
        else (k.last_game_key, record k { last_game_key = 0 }))
    else (0, k)

unfoldable pub api_poll_key : Kernel → ℕ × Kernel
api_poll_key k = if has_focus k then (k.last_game_key, record k { last_game_key = 0 }) else (0, k)

-- The byte that is put into the buffer, with the result.
unfoldable pub kernel_read_keyboard : ℕ → Kernel → ℕ × Kernel
kernel_read_keyboard buffer k =
    if has_focus k
    then (if k.last_game_key == 0 then (0, record k { last_game_key = 0; task_state = 1 }) else (
      1,
      record k {
        last_game_key = 0;
        memory = λ p. if p == buffer then k.last_game_key else k.memory p;
        stores = (buffer, 1) ∷ k.stores;
      },
    ))
    else (minus_one, k)

unfoldable pub api_set_window_text : ℕ → Kernel → Kernel
api_set_window_text text k = elim (own_window k) [
  | none ↦ k
  | some i ↦
      let win = window_at k i in
      let t = overwrite (text_at 1023 k.memory text ++ 0 ∷ []) win.text_content in
      record (put_window i (record win { text_content = t }) k) { force_redraw = true }
]
