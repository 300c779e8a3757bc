-- ===== src/Gui/Keeps.antt =====
-- Each service on the windows, in src/kernel.c, src/idt.c and sdk/wm.c, keeps them within their bounds.
use my_kernel.Base.{
  All-set, All-get_or, ℕ, zero, suc, ◌+◌, ◌∙◌, ltb, ◌==◌, if◌then◌else◌, Bool, true, false, not,
  ◌&&◌, inl, inr, List, [], ◌∷◌, get_or, set, drop, arith, All, ltb→lt, Bool-cases, Option-cases,
}
use my_kernel.Gui.{
  Window, no_window, Kernel, find_window, window_at, put_window, is_own, own_window, real, text_at,
}
use my_kernel.Gui.Windows.{
  has_focus, api_create_window, api_add_shape, api_clear_shapes, api_get_key, api_poll_key,
  api_set_window_text,
}
use my_kernel.Gui.Buttons.{
  create_button, poll_event, clear_gui, push_event, release_loop, release_windows, mouse_up,
}
use my_kernel.Gui.Bounds.{
  IsWindow, IsGui, length-overwrite, kept, no_window-IsWindow, find_window-window_at, both-right,
  opened-IsWindow, add_to-IsWindow, with_button-IsWindow, without_first-IsWindow,
  push_event-IsWindow,
}

module _ (k : Kernel) (fits : IsGui k) where
  pub window_at-IsWindow : (i : ℕ) → IsWindow (window_at k i)
  window_at-IsWindow i = All-get_or IsWindow k.windows i no_window fits no_window-IsWindow

  put_window-IsGui : (i : ℕ) (win : Window) → IsWindow win → IsGui (put_window i win k)
  put_window-IsGui i win p = All-set IsWindow k.windows i win fits p

release_loop-IsWindow :
    (n b : ℕ) (redraw : Bool) (win : Window)
    → IsWindow win
    → IsWindow (release_loop n b redraw win).1
unfolding release_loop
release_loop-IsWindow zero b redraw win fits = fits
release_loop-IsWindow (suc n) b redraw win fits =
    let (shapes, (le, bx, by, bw, bh, bt, bs), events, texts) = fits in
    elim (Bool-cases (get_or win.button_state b 0 == 1)) [
      | inl e ↦
          let up = record win { button_state = set win.button_state b 0 } in
          let up_fits : IsWindow up =
            (shapes, (le, bx, by, bw, bh, bt, kept win.button_state b 0 bs), events, texts) in
          rw e (
            release_loop-IsWindow n (b + 1) true (push_event b up)
              (push_event-IsWindow b up up_fits))
      | inr e ↦ rw e (release_loop-IsWindow n (b + 1) redraw win fits)
    ]

release_windows-IsWindow :
    (wins : List Window) (redraw : Bool)
    → All IsWindow wins
    → All IsWindow (release_windows redraw wins).1
unfolding release_windows
release_windows-IsWindow [] redraw all = tt
release_windows-IsWindow (win ∷ wins) redraw (fits, all) =
    (go win.is_open, release_windows-IsWindow wins _ all)
  where
    still : Window
    still = record win { is_dragging = false }

    go :
        (b : Bool)
        → IsWindow (if b then release_loop win.button_count 0 redraw still else (redraw, still)).1
    go true = release_loop-IsWindow win.button_count 0 redraw still fits
    go false = fits

-- A release of the mouse keeps every window within its bounds.
pub mouse_up-IsGui : (k : Kernel) → IsGui k → IsGui (mouse_up k)
unfolding mouse_up
mouse_up-IsGui k fits = release_windows-IsWindow k.windows k.force_redraw fits

module _ (k : Kernel) (fits : IsGui k) where
  pub api_create_window-IsGui : (title w h : ℕ) → IsGui (api_create_window title w h k).1
  unfolding api_create_window
  api_create_window-IsGui title w h =
      elim (Option-cases (find_window (λ win. not win.is_open) 0 k.windows)) [
        | inl e ↦ rw (api_create_window, e) fits
        | inr (i, e) ↦
            let name = text_at 31 k.memory (real title k) in
            rw (api_create_window, e)
              (put_window-IsGui k fits i _ (
                opened-IsWindow i w h name k.task_id (window_at k i) (window_at-IsWindow k fits i)))
      ]

  pub api_add_shape-IsGui : (x y w h color : ℕ) → IsGui (api_add_shape x y w h color k)
  unfolding api_add_shape
  api_add_shape-IsGui x y w h color = elim (Option-cases (own_window k)) [
    | inl e ↦ rw (api_add_shape, e) fits
    | inr (i, e) ↦ elim (Bool-cases (ltb (window_at k i).shape_count 100)) [
      | inl room ↦
          rw (api_add_shape, e, room)
            (put_window-IsGui k fits i _ (
              add_to-IsWindow x y w h color (window_at k i) (window_at-IsWindow k fits i)
                (ltb→lt _ _ room)))
      | inr full ↦ rw (api_add_shape, e, full) fits
    ]
  ]

  pub api_clear_shapes-IsGui : IsGui (api_clear_shapes k)
  unfolding api_clear_shapes
  api_clear_shapes-IsGui = elim (Option-cases (own_window k)) [
    | inl e ↦ rw (api_clear_shapes, e) fits
    | inr (i, e) ↦
        let ((n, sx, sy, sw, sh, sc), buttons, events, texts) = window_at-IsWindow k fits i in
        rw (api_clear_shapes, e)
          (put_window-IsGui k fits i _ ((omega arith, sx, sy, sw, sh, sc), buttons, events, texts))
  ]

  pub api_set_window_text-IsGui : (text : ℕ) → IsGui (api_set_window_text text k)
  unfolding api_set_window_text
  api_set_window_text-IsGui text = elim (Option-cases (own_window k)) [
    | inl e ↦ rw (api_set_window_text, e) fits
    | inr (i, e) ↦
        let (shapes, buttons, events, (title, content)) = window_at-IsWindow k fits i in
        rw (api_set_window_text, e)
          (put_window-IsGui k fits i _
            (shapes, buttons, events, (title, length-overwrite _ _ ∙ content)))
  ]

  pub clear_gui-IsGui : IsGui (clear_gui k).1
  unfolding clear_gui
  clear_gui-IsGui = elim (Option-cases (own_window k)) [
    | inl e ↦ rw (clear_gui, e) fits
    | inr (i, e) ↦
        let (shapes, (b, bx, by, bw, bh, bt, bs), (v, types, ids), texts) =
          window_at-IsWindow k fits i in
        rw (clear_gui, e)
          (put_window-IsGui k fits i _
            (shapes, (omega arith, bx, by, bw, bh, bt, bs), (omega arith, types, ids), texts))
  ]

  pub poll_event-IsGui : (out_id : ℕ) → IsGui (poll_event out_id k).1
  unfolding poll_event
  poll_event-IsGui out_id =
      elim (Option-cases
        (find_window (λ win. is_own k win && ltb 0 win.event_count) 2 (drop 2 k.windows))) [
          | inl e ↦ rw (poll_event, e) fits
          | inr (i, e) ↦
              rw (poll_event, e)
                (put_window-IsGui k fits i _
                  (without_first-IsWindow (window_at k i) (window_at-IsWindow k fits i)))
        ]

  pub create_button-IsGui : (x y w h text : ℕ) → IsGui (create_button x y w h text k).1
  unfolding create_button
  create_button-IsGui x y w h text =
      elim (Option-cases
        (find_window (λ win. is_own k win && ltb win.button_count 20) 2 (drop 2 k.windows))) [
          | inl e ↦ rw (create_button, e) fits
          | inr (i, e) ↦
              let t = text_at 15 k.memory (real text k) in
              let found =
                find_window-window_at (λ win. is_own k win && ltb win.button_count 20) k i e in
              let room = ltb→lt _ 20 (both-right (is_own k (window_at k i)) _ found) in
              rw (create_button, e)
                (put_window-IsGui k fits i _ (
                  with_button-IsWindow x y w h t (window_at k i) (window_at-IsWindow k fits i)
                    room))
        ]

  pub api_get_key-IsGui : IsGui (api_get_key k).1
  unfolding api_get_key
  api_get_key-IsGui = elim (Bool-cases (has_focus k)) [
    | inl e ↦ elim (Bool-cases (k.last_game_key == 0)) [
      | inl z ↦ rw (api_get_key, e, z) fits
      | inr z ↦ rw (api_get_key, e, z) fits
    ]
    | inr e ↦ rw (api_get_key, e) fits
  ]

  pub api_poll_key-IsGui : IsGui (api_poll_key k).1
  unfolding api_poll_key
  api_poll_key-IsGui = elim (Bool-cases (has_focus k)) [
    | inl e ↦ rw (api_poll_key, e) fits
    | inr e ↦ rw (api_poll_key, e) fits
  ]
