-- ===== src/Gui/Buttons.antt =====
-- The buttons and the queue of events of a window: src/idt.c, and the side of sdk/wm.c.
use my_kernel.Base.{
  ℕ, zero, suc, ◌+◌, ◌-◌, ◌==◌, ltb, if◌then◌else◌, Bool, true, false, ◌&&◌, none, some, List, [],
  ◌∷◌, ◌++◌, get_or, set, drop,
}
use my_kernel.Gui.{
  Window, Kernel, minus_one, real, text_at, overwrite, find_window, window_at, put_window, is_own,
  own_window, store_word,
}

-- The service 38 of src/idt.c: a button in the first window of the task that has room for one.
abbrev pub with_button : ℕ → ℕ → ℕ → ℕ → List ℕ → Window → Window
with_button x y w h text win =
    let b = win.button_count in
    record win {
      button_x = set win.button_x b x;
      button_y = set win.button_y b y;
      button_w = set win.button_w b w;
      button_h = set win.button_h b h;
      button_text =
          set win.button_text b (overwrite (text ++ 0 ∷ []) (get_or win.button_text b []));
      button_state = set win.button_state b 0;
      button_count = b + 1;
    }

unfoldable pub create_button : ℕ → ℕ → ℕ → ℕ → ℕ → Kernel → ℕ × Kernel
create_button x y w h text k =
    elim (find_window (λ win. is_own k win && ltb win.button_count 20) 2 (drop 2 k.windows)) [
      | none ↦ (minus_one, k)
      | some i ↦ (
        (window_at k i).button_count,
        record (put_window i
            (with_button x y w h (text_at 15 k.memory (real text k)) (window_at k i)) k) {
              force_redraw = true;
            },
      )
    ]

-- `for (j = 1; j < event_count; j++) a[j - 1] = a[j];`, where the number is event_count - 1.
unfoldable pub shift : ℕ → List ℕ → List ℕ
shift zero xs = xs
shift (suc n) [] = []
shift (suc n) (x ∷ []) = x ∷ []
shift (suc n) (x ∷ y ∷ ys) = y ∷ shift n (y ∷ ys)

abbrev pub without_first : Window → Window
without_first win = record win {
  event_type = shift (win.event_count - 1) win.event_type;
  event_id = shift (win.event_count - 1) win.event_id;
  event_count = win.event_count - 1;
}

-- The service 39: the oldest event of the first window of the task that has one.
unfoldable pub poll_event : ℕ → Kernel → ℕ × Kernel
poll_event out_id k =
    elim (find_window (λ win. is_own k win && ltb 0 win.event_count) 2 (drop 2 k.windows)) [
      | none ↦ (0, k)
      | some i ↦
          let win = window_at k i in
          (
            get_or win.event_type 0 0,
            record (put_window i (without_first win) k) {
              memory = store_word (real out_id k) (get_or win.event_id 0 0) k.memory;
              stores = (real out_id k, 4) ∷ k.stores;
            },
          )
    ]

-- The service 41.
unfoldable pub clear_gui : Kernel → ℕ × Kernel
clear_gui k = elim (own_window k) [
  | none ↦ (minus_one, k)
  | some i ↦ (
    0,
    record (put_window i
        (record (window_at k i) { button_count = 0; event_count = 0; sel_start = minus_one }) k) {
          force_redraw = true;
        },
  )
]

-- A button that the mouse releases puts an event into the queue, where there is room (sdk/wm.c).
unfoldable pub push_event : ℕ → Window → Window
push_event b win =
    if ltb win.event_count 20
    then record win {
      event_type = set win.event_type win.event_count 1;
      event_id = set win.event_id win.event_count b;
      event_count = win.event_count + 1;
    }
    else win

-- `for (b = 0; b < button_count; b++)`, with the number of rounds left; the flag is `force_redraw`.
unfoldable pub release_loop : ℕ → ℕ → Bool → Window → Bool × Window
release_loop zero b redraw win = (redraw, win)
release_loop (suc n) b redraw win =
    if get_or win.button_state b 0 == 1
    then release_loop n (b + 1) true
        (push_event b (record win { button_state = set win.button_state b 0 }))
    else release_loop n (b + 1) redraw win

unfoldable pub release_windows : Bool → List Window → Bool × List Window
release_windows redraw [] = (redraw, [])
release_windows redraw (win ∷ wins) =
    let still = record win { is_dragging = false } in
    let r = if win.is_open then release_loop win.button_count 0 redraw still else (redraw, still) in
    let rest = release_windows r.0 wins in (rest.0, r.1 ∷ rest.1)

-- `for (i = 0; i < MAX_WINDOWS; i++)`, when the left button of the mouse goes up.
unfoldable pub mouse_up : Kernel → Kernel
mouse_up k =
    let r = release_windows k.force_redraw k.windows in
    record k { windows = r.1; force_redraw = r.0 }
