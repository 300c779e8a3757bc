-- ===== src/Abi/Router.antt =====
-- syscall_handler_main of src/idt.c: its branches by the number of the call.
use my_kernel.Base.{ℕ, List, [], ◌∷◌, ◌++◌}
use my_kernel.Gui.{minus_one, real}
use my_kernel.Gui.Windows.{
  api_create_window, api_add_shape, api_clear_shapes, api_get_key, api_poll_key,
  api_set_window_text,
}
use my_kernel.Gui.Buttons.{create_button, poll_event, clear_gui}
use my_kernel.Abi.{
  Call, Service, Handler, Parts, done, effect, dispatch, put_pixel, draw_rect, draw_string, yield,
  vfs_open, get_shared_memory, vfs_read, vfs_close, vfs_write, malloc, free, exec_app,
  get_process_list, ardaos_delete_file, ardaos_create_dir, ardaos_list_files, sbrk, vfs_list_dir,
  sleep_task,
}
use my_kernel.Abi.Services.{
  api_write_file, api_print, api_clear_terminal, api_exit_app, get_cmd, get_screen, get_mouse,
  get_time, get_window_pos, set_clipboard, get_clipboard,
}
use my_kernel.Abi.Actions.{system_action}

-- The length up to which the terminal looks for the end of a text.
abbrev pub text_limit : ℕ
text_limit = 65536

module _ (parts : Parts) (c : Call) where
  -- `service(...); return 1;`
  abbrev served : Service → Handler
  served s = done (effect parts s)

  abbrev pub branches_to_13 : List (ℕ × Handler)
  branches_to_13 =
      (1, served (put_pixel c.arg1 c.arg2 c.arg3))
      ∷ (2, served (draw_rect c.arg1 c.arg2 c.arg3 c.arg4 c.arg5))
      ∷ (3, served (draw_string c.arg1 c.arg2 c.arg3 c.arg4 c.arg5))
      ∷ (4, served yield)
      ∷ (5, done (api_add_shape c.arg1 c.arg2 c.arg3 c.arg4 c.arg5))
      ∷ (6, api_get_key)
      ∷ (7, done api_clear_shapes)
      ∷ (8, api_create_window c.arg1 c.arg2 c.arg3)
      ∷ (9, done (api_exit_app parts))
      ∷ (10, api_write_file parts c.arg1 c.arg2 c.arg3)
      ∷ (11, λ k. parts (vfs_open (real c.arg1 k) (real c.arg2 k)) k)
      ∷ (12, done (api_print text_limit c.arg1))
      ∷ (13, api_poll_key)
      ∷ []

  abbrev pub branches_to_28 : List (ℕ × Handler)
  branches_to_28 =
      (14, parts get_shared_memory)
      ∷ (15, λ k. parts (vfs_read c.arg1 (real c.arg2 k) c.arg3) k)
      ∷ (16, served (vfs_close c.arg1))
      ∷ (17, λ k. parts (vfs_write c.arg1 (real c.arg2 k) c.arg3) k)
      ∷ (18, λ k. (k.app_base, k))
      ∷ (19, parts (malloc c.arg1))
      ∷ (20, λ k. (0, effect parts (free c.arg1) k))
      ∷ (21, λ k. parts (exec_app (real c.arg1 k) (real c.arg2 k)) k)
      ∷ (22, get_cmd c.arg1)
      ∷ (23, done (λ k. effect parts (get_process_list (real c.arg1 k)) k))
      ∷ (24, done api_clear_terminal)
      ∷ (25, done (λ k. record k { task_to_kill = c.arg1 }))
      ∷ (26, λ k. parts (ardaos_delete_file (real c.arg1 k) (real c.arg2 k)) k)
      ∷ (27, λ k. parts (ardaos_create_dir (real c.arg1 k)) k)
      ∷ (28, done (λ k. effect parts (ardaos_list_files (real c.arg1 k)) k))
      ∷ []

  abbrev pub branches_to_37 : List (ℕ × Handler)
  branches_to_37 =
      (29, done (system_action parts c.arg1 c.arg2))
      ∷ (30, done (λ k. api_set_window_text (real c.arg1 k) k))
      ∷ (31, done (get_screen c.arg1 c.arg2 c.arg3))
      ∷ (32, done (get_mouse c.arg1 c.arg2 c.arg3))
      ∷ (33, done (get_time c.arg1 c.arg2))
      ∷ (34, parts (sbrk c.arg1))
      ∷ (35, get_window_pos c.arg1 c.arg2 c.arg3 c.arg4 c.arg5)
      ∷ (36, done (set_clipboard c.arg1))
      ∷ (37, done (get_clipboard c.arg1))
      ∷ []

  abbrev pub branches_to_43 : List (ℕ × Handler)
  branches_to_43 =
      (38, create_button c.arg1 c.arg2 c.arg3 c.arg4 c.arg5)
      ∷ (39, poll_event c.arg1)
      ∷ (40, λ k. parts (vfs_list_dir (real c.arg1 k) (real c.arg2 k)) k)
      ∷ (41, clear_gui)
      ∷ (43, served (sleep_task c.arg1))
      ∷ []

  unfoldable pub syscall_handler_main : Handler
  syscall_handler_main =
      dispatch c.sys_num (branches_to_13 ++ branches_to_28 ++ branches_to_37 ++ branches_to_43)
        (λ k. (minus_one, k))
