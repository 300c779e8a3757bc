-- ===== src/Abi/Services.antt =====
-- The services that the router of src/idt.c, and src/kernel.c for it, have themselves.
use my_kernel.Base.{
  ℕ, ◌+◌, ◌*◌, ◌/◌, ◌%◌, ◌^◌, ltb, if◌then◌else◌, true, false, not, ◌&&◌, bit_and, List, [], ◌∷◌,
  ◌++◌, length, get_or,
}
use my_kernel.Gui.{Kernel, real, text_at, overwrite, window_at, store_word, store_bytes}
use my_kernel.Gui.Terminal.{terminal_print}
use my_kernel.Abi.{Handler, Parts, effect, ardaos_write_file, yield}

-- `while (real_buffer[actual_size] != 0 && actual_size < 10240) actual_size++; actual_size++;`
unfoldable pub api_write_file : Parts → ℕ → ℕ → ℕ → Handler
api_write_file parts name ext buffer k =
    parts
      (ardaos_write_file (real name k) (real ext k)
        (length (text_at 10240 k.memory (real buffer k)) + 1) (real buffer k))
      k

-- The terminal stops at the first 0; `limit` bounds the text that is read.
unfoldable pub api_print : ℕ → ℕ → Kernel → Kernel
api_print limit text k = terminal_print (text_at limit k.memory (real text k)) k

unfoldable pub api_clear_terminal : Kernel → Kernel
api_clear_terminal k = record k { terminal_line_count = 0; force_redraw = true }

unfoldable pub api_exit_app : Parts → Kernel → Kernel
api_exit_app parts k = effect parts yield (record k { task_to_kill = k.task_id })

-- API 22; `pending_command` is the command and its terminator.
unfoldable pub get_cmd : ℕ → Handler
get_cmd buf k = if not k.command_ready then (0, k) else (
  1,
  record k {
    memory = store_bytes (real buf k) k.pending_command k.memory;
    command_ready = false;
    stores = (real buf k, length k.pending_command) ∷ k.stores;
  },
)

-- API 31, 32 and 33: words for the program, at addresses that are not translated.
unfoldable pub get_screen : ℕ → ℕ → ℕ → Kernel → Kernel
get_screen fb w h k = record k {
  memory = store_word h 768 (store_word w 1024 (store_word fb k.vesa_framebuffer k.memory));
  stores = (h, 4) ∷ (w, 4) ∷ (fb, 4) ∷ k.stores;
}

unfoldable pub get_mouse : ℕ → ℕ → ℕ → Kernel → Kernel
get_mouse x y btn k = record k {
  memory =
      store_word btn k.mouse_left_button (store_word y k.mouse_y (store_word x k.mouse_x k.memory));
  stores = (btn, 4) ∷ (y, 4) ∷ (x, 4) ∷ k.stores;
}

unfoldable pub bcd_to_bin : ℕ → ℕ
bcd_to_bin bcd = (bit_and bcd 0x0F + bcd / 2 ^ 4 * 10) % 2 ^ 8

-- `h = (h + 3) % 24;`
abbrev pub hour : (ℕ → ℕ) → ℕ
hour rtc = (bcd_to_bin (rtc 0x04) + 3) % 24

unfoldable pub get_time : ℕ → ℕ → Kernel → Kernel
get_time h m k = record k {
  memory = store_word m (bcd_to_bin (k.rtc 0x02)) (store_word h (hour k.rtc) k.memory);
  stores = (m, 4) ∷ (h, 4) ∷ k.stores;
}

-- API 35, for a window of the pool that is open.
unfoldable pub get_window_pos : ℕ → ℕ → ℕ → ℕ → ℕ → Handler
get_window_pos win_id x y w h k =
    let win = window_at k win_id in
    if ltb win_id 6 && win.is_open
    then (
      1,
      record k {
        memory = store_word (real h k) win.h (
            store_word (real w k) win.w
              (store_word (real y k) win.y (store_word (real x k) win.x k.memory)));
        stores = (real h k, 4) ∷ (real w k, 4) ∷ (real y k, 4) ∷ (real x k, 4) ∷ k.stores;
      },
    )
    else (0, k)

-- API 36 and 37. The clipboard has 4096 bytes.
unfoldable pub set_clipboard : ℕ → Kernel → Kernel
set_clipboard text k = record k {
  system_clipboard = overwrite (text_at 4095 k.memory (real text k) ++ 0 ∷ []) k.system_clipboard;
}

abbrev pub clipboard_text : Kernel → List ℕ
clipboard_text k = text_at 4095 (λ i. get_or k.system_clipboard i 0) 0 ++ 0 ∷ []

unfoldable pub get_clipboard : ℕ → Kernel → Kernel
get_clipboard buffer k = record k {
  memory = store_bytes (real buffer k) (clipboard_text k) k.memory;
  stores = (real buffer k, length (clipboard_text k)) ∷ k.stores;
}
