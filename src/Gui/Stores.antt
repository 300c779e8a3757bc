-- ===== src/Gui/Stores.antt =====
-- The services of src/kernel.c for the windows store nothing through a pointer of a program, but for
-- the one of an event.
use my_kernel.Base.{
  ℕ, ◌==◌, ◌≡◌, refl, ltb, not, ◌&&◌, drop, Option-cases, Bool-cases, inl, inr, All, ◌⊎◌, ◌≤◌, ◌+◌,
}
use my_kernel.Gui.{Kernel, real, find_window, window_at, is_own, own_window}
use my_kernel.Gui.Windows.{
  api_create_window, api_add_shape, api_clear_shapes, api_get_key, api_poll_key, has_focus,
  api_set_window_text,
}
use my_kernel.Gui.Buttons.{create_button, poll_event, clear_gui}

-- `gui`, and `sizeof(gui_state_t)`: 6 windows of 4008 bytes, and 2964 more.
abbrev pub page_start : ℕ
page_start = 0xE00000

abbrev pub page_size : ℕ
page_size = 27012

-- A store that does not touch the shared page.
abbrev pub IsBeside : ℕ × ℕ → Type 0
IsBeside s = (s.0 + s.1 ≤ page_start) ⊎ (page_start + page_size ≤ s.0)

-- No store has touched the shared page.
abbrev pub IsClear : Kernel → Type 0
IsClear k = All IsBeside k.stores

module _ (k : Kernel) where
  pub stores-api_create_window :
      (title w h : ℕ) → (api_create_window title w h k).1.stores ≡ k.stores
  unfolding api_create_window
  stores-api_create_window title w h =
      elim (Option-cases (find_window (λ win. not win.is_open) 0 k.windows)) [
        | inl e ↦ rw (api_create_window, e) refl
        | inr (i, e) ↦ rw (api_create_window, e) refl
      ]

  pub stores-api_add_shape : (x y w h color : ℕ) → (api_add_shape x y w h color k).stores ≡ k.stores
  unfolding api_add_shape
  stores-api_add_shape x y w h color = elim (Option-cases (own_window k)) [
    | inl e ↦ rw (api_add_shape, e) refl
    | inr (i, e) ↦ elim (Bool-cases (ltb (window_at k i).shape_count 100)) [
      | inl room ↦ rw (api_add_shape, e, room) refl
      | inr full ↦ rw (api_add_shape, e, full) refl
    ]
  ]

  pub stores-api_clear_shapes : (api_clear_shapes k).stores ≡ k.stores
  unfolding api_clear_shapes
  stores-api_clear_shapes = elim (Option-cases (own_window k)) [
    | inl e ↦ rw (api_clear_shapes, e) refl
    | inr (i, e) ↦ rw (api_clear_shapes, e) refl
  ]

  pub stores-api_set_window_text : (text : ℕ) → (api_set_window_text text k).stores ≡ k.stores
  unfolding api_set_window_text
  stores-api_set_window_text text = elim (Option-cases (own_window k)) [
    | inl e ↦ rw (api_set_window_text, e) refl
    | inr (i, e) ↦ rw (api_set_window_text, e) refl
  ]

  pub stores-clear_gui : (clear_gui k).1.stores ≡ k.stores
  unfolding clear_gui
  stores-clear_gui = elim (Option-cases (own_window k)) [
    | inl e ↦ rw (clear_gui, e) refl
    | inr (i, e) ↦ rw (clear_gui, e) refl
  ]

  pub poll_event-IsClear :
      (out_id : ℕ) → IsBeside (real out_id k, 4) → IsClear k → IsClear (poll_event out_id k).1
  unfolding poll_event
  poll_event-IsClear out_id beside clear =
      elim (Option-cases
        (find_window (λ win. is_own k win && ltb 0 win.event_count) 2 (drop 2 k.windows))) [
          | inl e ↦ rw (poll_event, e) clear
          | inr (i, e) ↦ rw (poll_event, e) ((beside, clear))
        ]

  pub stores-create_button : (x y w h text : ℕ) → (create_button x y w h text k).1.stores ≡ k.stores
  unfolding create_button
  stores-create_button x y w h text =
      elim (Option-cases
        (find_window (λ win. is_own k win && ltb win.button_count 20) 2 (drop 2 k.windows))) [
          | inl e ↦ rw (create_button, e) refl
          | inr (i, e) ↦ rw (create_button, e) refl
        ]

  pub stores-api_get_key : (api_get_key k).1.stores ≡ k.stores
  unfolding api_get_key
  stores-api_get_key = elim (Bool-cases (has_focus k)) [
    | inl e ↦ elim (Bool-cases (k.last_game_key == 0)) [
      | inl z ↦ rw (api_get_key, e, z) refl
      | inr z ↦ rw (api_get_key, e, z) refl
    ]
    | inr e ↦ rw (api_get_key, e) refl
  ]

  pub stores-api_poll_key : (api_poll_key k).1.stores ≡ k.stores
  unfolding api_poll_key
  stores-api_poll_key = elim (Bool-cases (has_focus k)) [
    | inl e ↦ rw (api_poll_key, e) refl
    | inr e ↦ rw (api_poll_key, e) refl
  ]
