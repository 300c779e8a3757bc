-- ===== src/Abi/Requests.antt =====
-- The calls of the programs: the wrappers of sdk/ardaos.h, and the services that they reach.
use my_kernel.Base.{ℕ, ◌≡◌, refl}
use my_kernel.Gui.{Kernel, real}
use my_kernel.Gui.Windows.{
  api_create_window, api_add_shape, api_clear_shapes, api_get_key, api_poll_key,
  api_set_window_text,
}
use my_kernel.Gui.Buttons.{create_button, poll_event, clear_gui}
use my_kernel.Abi.{
  Call, Handler, Parts, effect, dispatch, vfs_open, get_shared_memory, vfs_read, vfs_close,
  vfs_write, malloc, free, exec_app, get_process_list, ardaos_delete_file, ardaos_create_dir,
  ardaos_list_files, vfs_list_dir, sleep_task,
}
use my_kernel.Abi.Services.{
  api_write_file, api_print, api_clear_terminal, api_exit_app, get_cmd, get_screen, get_mouse,
  get_time, get_window_pos, set_clipboard, get_clipboard,
}
use my_kernel.Abi.Actions.{system_action}
use my_kernel.Abi.Router.{text_limit, syscall_handler_main}

-- The wrappers, with their arguments. A register that a wrapper does not set keeps what it has.
pub data Request : Type 0 where
  add_shape : ℕ → ℕ → ℕ → ℕ → ℕ → Request
  sys_get_key : Request
  sys_clear_shapes : Request
  sys_create_window : ℕ → ℕ → ℕ → Request
  sys_exit : Request
  sys_write_file : ℕ → ℕ → ℕ → Request
  sys_read_file : ℕ → ℕ → ℕ → Request
  sys_poll_key : Request
  sys_print : ℕ → Request
  sys_shm_get : Request
  sys_open : ℕ → ℕ → Request
  sys_read : ℕ → ℕ → ℕ → Request
  sys_close : ℕ → Request
  sys_write : ℕ → ℕ → ℕ → Request
  sys_malloc : ℕ → Request
  sys_free : ℕ → Request
  sys_exec : ℕ → ℕ → Request
  sys_get_cmd : ℕ → Request
  sys_get_process_list : ℕ → Request
  sys_clear_terminal : Request
  sys_kill : ℕ → Request
  sys_delete_file : ℕ → ℕ → Request
  sys_create_dir : ℕ → Request
  sys_list_files : ℕ → Request
  sys_system_action : ℕ → ℕ → Request
  sys_set_window_text : ℕ → Request
  sys_get_screen : ℕ → ℕ → ℕ → Request
  sys_get_mouse : ℕ → ℕ → ℕ → Request
  sys_get_time : ℕ → ℕ → Request
  sys_get_window_pos : ℕ → ℕ → ℕ → ℕ → ℕ → Request
  sys_set_clipboard : ℕ → Request
  sys_get_clipboard : ℕ → Request
  sys_create_button : ℕ → ℕ → ℕ → ℕ → ℕ → Request
  sys_poll_event : ℕ → Request
  sys_list_dir : ℕ → ℕ → Request
  sys_clear_gui : Request
  sys_sleep : ℕ → Request

-- The registers of a wrapper, over the registers that the program has.
abbrev with0 : ℕ → Call → Call
with0 n c = record c { sys_num = n }

abbrev with1 : ℕ → ℕ → Call → Call
with1 n a c = record c { sys_num = n; arg1 = a }

abbrev with2 : ℕ → ℕ → ℕ → Call → Call
with2 n a b c = record c { sys_num = n; arg1 = a; arg2 = b }

abbrev with3 : ℕ → ℕ → ℕ → ℕ → Call → Call
with3 n a b d c = record c { sys_num = n; arg1 = a; arg2 = b; arg3 = d }

abbrev with5 : ℕ → ℕ → ℕ → ℕ → ℕ → ℕ → Call
with5 n a b d e f = record { sys_num = n; arg1 = a; arg2 = b; arg3 = d; arg4 = e; arg5 = f }

unfoldable pub encode : Request → Call → Call
encode (add_shape x y w h color) c = with5 5 x y w h color
encode sys_get_key c = with0 6 c
encode sys_clear_shapes c = with0 7 c
encode (sys_create_window title w h) c = with3 8 title w h c
encode sys_exit c = with0 9 c
encode (sys_write_file name ext buffer) c = with3 10 name ext buffer c
encode (sys_read_file name ext buffer) c = with3 11 name ext buffer c
encode sys_poll_key c = with0 13 c
encode (sys_print text) c = with1 12 text c
encode sys_shm_get c = with0 14 c
encode (sys_open name ext) c = with2 11 name ext c
encode (sys_read fd buffer count) c = with3 15 fd buffer count c
encode (sys_close fd) c = with1 16 fd c
encode (sys_write fd buffer count) c = with3 17 fd buffer count c
encode (sys_malloc size) c = with1 19 size c
encode (sys_free ptr) c = with1 20 ptr c
encode (sys_exec name args) c = with2 21 name args c
encode (sys_get_cmd buffer) c = with1 22 buffer c
encode (sys_get_process_list buffer) c = with1 23 buffer c
encode sys_clear_terminal c = with0 24 c
encode (sys_kill pid) c = with1 25 pid c
encode (sys_delete_file name ext) c = with2 26 name ext c
encode (sys_create_dir name) c = with1 27 name c
encode (sys_list_files buffer) c = with1 28 buffer c
encode (sys_system_action action buffer) c = with2 29 action buffer c
encode (sys_set_window_text text) c = with1 30 text c
encode (sys_get_screen fb w h) c = with3 31 fb w h c
encode (sys_get_mouse x y btn) c = with3 32 x y btn c
encode (sys_get_time h m) c = with2 33 h m c
encode (sys_get_window_pos win_id x y w h) c = with5 35 win_id x y w h
encode (sys_set_clipboard text) c = with1 36 text c
encode (sys_get_clipboard buffer) c = with1 37 buffer c
encode (sys_create_button x y w h text) c = with5 38 x y w h text
encode (sys_poll_event out_id) c = with1 39 out_id c
encode (sys_list_dir path buffer) c = with2 40 path buffer c
encode sys_clear_gui c = with0 41 c
encode (sys_sleep ms) c = with1 43 ms c

-- What each wrapper is for: the service that it names, on its own arguments. A read of a file by its
-- name opens it.
abbrev pub meant : Parts → Request → Handler
meant parts (add_shape x y w h color) k = (1, api_add_shape x y w h color k)
meant parts sys_get_key k = api_get_key k
meant parts sys_clear_shapes k = (1, api_clear_shapes k)
meant parts (sys_create_window title w h) k = api_create_window title w h k
meant parts sys_exit k = (1, api_exit_app parts k)
meant parts (sys_write_file name ext buffer) k = api_write_file parts name ext buffer k
meant parts (sys_read_file name ext buffer) k = parts (vfs_open (real name k) (real ext k)) k
meant parts sys_poll_key k = api_poll_key k
meant parts (sys_print text) k = (1, api_print text_limit text k)
meant parts sys_shm_get k = parts get_shared_memory k
meant parts (sys_open name ext) k = parts (vfs_open (real name k) (real ext k)) k
meant parts (sys_read fd buffer count) k = parts (vfs_read fd (real buffer k) count) k
meant parts (sys_close fd) k = (1, effect parts (vfs_close fd) k)
meant parts (sys_write fd buffer count) k = parts (vfs_write fd (real buffer k) count) k
meant parts (sys_malloc size) k = parts (malloc size) k
meant parts (sys_free ptr) k = (0, effect parts (free ptr) k)
meant parts (sys_exec name args) k = parts (exec_app (real name k) (real args k)) k
meant parts (sys_get_cmd buffer) k = get_cmd buffer k
meant parts (sys_get_process_list buffer) k = (1, effect parts (get_process_list (real buffer k)) k)
meant parts sys_clear_terminal k = (1, api_clear_terminal k)
meant parts (sys_kill pid) k = (1, record k { task_to_kill = pid })
meant parts (sys_delete_file name ext) k = parts (ardaos_delete_file (real name k) (real ext k)) k
meant parts (sys_create_dir name) k = parts (ardaos_create_dir (real name k)) k
meant parts (sys_list_files buffer) k = (1, effect parts (ardaos_list_files (real buffer k)) k)
meant parts (sys_system_action action buffer) k = (1, system_action parts action buffer k)
meant parts (sys_set_window_text text) k = (1, api_set_window_text (real text k) k)
meant parts (sys_get_screen fb w h) k = (1, get_screen fb w h k)
meant parts (sys_get_mouse x y btn) k = (1, get_mouse x y btn k)
meant parts (sys_get_time h m) k = (1, get_time h m k)
meant parts (sys_get_window_pos win_id x y w h) k = get_window_pos win_id x y w h k
meant parts (sys_set_clipboard text) k = (1, set_clipboard text k)
meant parts (sys_get_clipboard buffer) k = (1, get_clipboard buffer k)
meant parts (sys_create_button x y w h text) k = create_button x y w h text k
meant parts (sys_poll_event out_id) k = poll_event out_id k
meant parts (sys_list_dir path buffer) k = parts (vfs_list_dir (real path k) (real buffer k)) k
meant parts sys_clear_gui k = clear_gui k
meant parts (sys_sleep ms) k = (1, effect parts (sleep_task ms) k)

-- Every wrapper of the programs reaches the service that it names, with its own arguments in their
-- order, whatever the other registers hold; only a read by the file's name arrives as an open.
pub syscall_handler_main-encode :
    (parts : Parts) (r : Request) (c : Call) (k : Kernel)
    → syscall_handler_main parts (encode r c) k ≡ meant parts r k
unfolding syscall_handler_main dispatch encode
syscall_handler_main-encode parts (add_shape x y w h color) c k = refl
syscall_handler_main-encode parts sys_get_key c k = refl
syscall_handler_main-encode parts sys_clear_shapes c k = refl
syscall_handler_main-encode parts (sys_create_window title w h) c k = refl
syscall_handler_main-encode parts sys_exit c k = refl
syscall_handler_main-encode parts (sys_write_file name ext buffer) c k = refl
syscall_handler_main-encode parts (sys_read_file name ext buffer) c k = refl
syscall_handler_main-encode parts sys_poll_key c k = refl
syscall_handler_main-encode parts (sys_print text) c k = refl
syscall_handler_main-encode parts sys_shm_get c k = refl
syscall_handler_main-encode parts (sys_open name ext) c k = refl
syscall_handler_main-encode parts (sys_read fd buffer count) c k = refl
syscall_handler_main-encode parts (sys_close fd) c k = refl
syscall_handler_main-encode parts (sys_write fd buffer count) c k = refl
syscall_handler_main-encode parts (sys_malloc size) c k = refl
syscall_handler_main-encode parts (sys_free ptr) c k = refl
syscall_handler_main-encode parts (sys_exec name args) c k = refl
syscall_handler_main-encode parts (sys_get_cmd buffer) c k = refl
syscall_handler_main-encode parts (sys_get_process_list buffer) c k = refl
syscall_handler_main-encode parts sys_clear_terminal c k = refl
syscall_handler_main-encode parts (sys_kill pid) c k = refl
syscall_handler_main-encode parts (sys_delete_file name ext) c k = refl
syscall_handler_main-encode parts (sys_create_dir name) c k = refl
syscall_handler_main-encode parts (sys_list_files buffer) c k = refl
syscall_handler_main-encode parts (sys_system_action action buffer) c k = refl
syscall_handler_main-encode parts (sys_set_window_text text) c k = refl
syscall_handler_main-encode parts (sys_get_screen fb w h) c k = refl
syscall_handler_main-encode parts (sys_get_mouse x y btn) c k = refl
syscall_handler_main-encode parts (sys_get_time h m) c k = refl
syscall_handler_main-encode parts (sys_get_window_pos win_id x y w h) c k = refl
syscall_handler_main-encode parts (sys_set_clipboard text) c k = refl
syscall_handler_main-encode parts (sys_get_clipboard buffer) c k = refl
syscall_handler_main-encode parts (sys_create_button x y w h text) c k = refl
syscall_handler_main-encode parts (sys_poll_event out_id) c k = refl
syscall_handler_main-encode parts (sys_list_dir path buffer) c k = refl
syscall_handler_main-encode parts sys_clear_gui c k = refl
syscall_handler_main-encode parts (sys_sleep ms) c k = refl
