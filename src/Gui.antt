-- ===== src/Gui.antt =====
-- The windows that the kernel and the window manager share (sdk/ardaos.h), the state that
-- the services of src/kernel.c and src/idt.c work on, and what these services share.
pub mod Windows
pub mod Buttons
pub mod Bounds
pub mod Keeps
pub mod Stores
pub mod Events
pub mod Terminal
use my_kernel.Base.{
  ℕ, zero, suc, ◌+◌, ◌-◌, ◌*◌, ◌/◌, ◌%◌, ◌^◌, ◌==◌, ltb, leb, if◌then◌else◌, Bool, true, false, not,
  ◌&&◌, Option, none, some, List, [], ◌∷◌, ◌++◌, length, get_or, set, drop, replicate,
}

-- `window_t`. The counters are never negative; -1 in `sel_start` is 2^32 - 1.
pub record Window : Type 0 where
  pub number : ℕ
  pub x : ℕ
  pub y : ℕ
  pub w : ℕ
  pub h : ℕ
  pub is_open : Bool
  pub is_dragging : Bool
  pub title : List ℕ
  pub owner_task_id : ℕ
  pub shape_count : ℕ
  pub shape_x : List ℕ
  pub shape_y : List ℕ
  pub shape_w : List ℕ
  pub shape_h : List ℕ
  pub shape_color : List ℕ
  pub is_minimized : Bool
  pub text_content : List ℕ
  pub sel_start : ℕ
  pub button_count : ℕ
  pub button_x : List ℕ
  pub button_y : List ℕ
  pub button_w : List ℕ
  pub button_h : List ℕ
  pub button_text : List (List ℕ)
  pub button_state : List ℕ
  pub event_count : ℕ
  pub event_type : List ℕ
  pub event_id : List ℕ

-- A window of memory that is 0.
abbrev pub no_window : Window
no_window = record {
  number = 0;
  x = 0;
  y = 0;
  w = 0;
  h = 0;
  is_open = false;
  is_dragging = false;
  title = replicate 32 0;
  owner_task_id = 0;
  shape_count = 0;
  shape_x = replicate 100 0;
  shape_y = replicate 100 0;
  shape_w = replicate 100 0;
  shape_h = replicate 100 0;
  shape_color = replicate 100 0;
  is_minimized = false;
  text_content = replicate 1024 0;
  sel_start = 0;
  button_count = 0;
  button_x = replicate 20 0;
  button_y = replicate 20 0;
  button_w = replicate 20 0;
  button_h = replicate 20 0;
  button_text = replicate 20 (replicate 16 0);
  button_state = replicate 20 0;
  event_count = 0;
  event_type = replicate 20 0;
  event_id = replicate 20 0;
}

abbrev pub Memory : Type 0
Memory = ℕ → ℕ

-- What the services read and write: the shared page, the fields of `current_task`, the variables of
-- src/kernel.c and of the drivers, the clock's registers, and the memory of the programs.
-- The services store through pointers of the programs without a test, and a pointer may lead anywhere.
-- `stores` is the log of these stores, the address and the number of bytes of each: the windows and the
-- other fields, which the kernel has in the same memory, are what the memory holds as long as no store
-- of the log touches the shared page or the kernel's variables.
pub record Kernel : Type 0 where
  pub windows : List Window
  pub focused_window : ℕ
  pub force_redraw : Bool
  pub terminal_lines : List (List ℕ)
  pub terminal_line_count : ℕ
  pub current_bg_color : ℕ
  pub task_id : ℕ
  pub task_state : ℕ
  pub app_base : ℕ
  pub last_game_key : ℕ
  pub task_to_kill : ℕ
  pub pending_command : List ℕ
  pub command_ready : Bool
  pub system_clipboard : List ℕ
  pub arp_resolved : Bool
  pub timer_ticks : ℕ
  pub total_used_memory : ℕ
  pub vesa_framebuffer : ℕ
  pub mouse_x : ℕ
  pub mouse_y : ℕ
  pub mouse_left_button : ℕ
  pub rtc : ℕ → ℕ
  pub memory : Memory
  pub stores : List (ℕ × ℕ)

-- -1 as a word.
abbrev pub minus_one : ℕ
minus_one = 2 ^ 32 - 1

-- `(unsigned int)p < 0x100000 ? base + p : p`
abbrev pub real : ℕ → Kernel → ℕ
real p k = if ltb p 0x100000 then (k.app_base + p) % 2 ^ 32 else p

-- `while (text[k] != 0 && k < limit)`: the characters that the loop copies.
unfoldable pub text_at : ℕ → Memory → ℕ → List ℕ
text_at zero memory p = []
text_at (suc limit) memory p = elim (memory p == 0) [
  | true ↦ []
  | false ↦ memory p ∷ text_at limit memory (p + 1)
]

-- Bytes written over the front of an array.
unfoldable pub overwrite {ℓ} : {A : Type ℓ} → List A → List A → List A
overwrite new [] = []
overwrite [] (y ∷ ys) = y ∷ ys
overwrite (x ∷ xs) (y ∷ ys) = x ∷ overwrite xs ys

-- The first window with a property; the first argument is the number of the list's first window.
unfoldable pub find_window : (Window → Bool) → ℕ → List Window → Option ℕ
find_window test i [] = none
find_window test i (win ∷ wins) =
    let rest = find_window test (i + 1) wins in if test win then some i else rest

abbrev pub window_at : Kernel → ℕ → Window
window_at k i = get_or k.windows i no_window

abbrev pub put_window : ℕ → Window → Kernel → Kernel
put_window i win k = record k { windows = set k.windows i win }

-- `is_open && owner_task_id == current_task->id`
abbrev pub is_own : Kernel → Window → Bool
is_own k win = win.is_open && (win.owner_task_id == k.task_id)

-- `for (i = 2; i < MAX_WINDOWS; i++)`
abbrev pub own_window : Kernel → Option ℕ
own_window k = find_window (is_own k) 2 (drop 2 k.windows)

-- The four bytes of a word, the low one first, at an address of the programs' memory. A service that
-- stores one also enters it in the log of the stores.
abbrev pub store_word : ℕ → ℕ → Memory → Memory
store_word p v memory a =
    if leb p a && ltb a (p + 4) then v / 2 ^ (8 * (a - p)) % 2 ^ 8 else memory a

-- Bytes at an address, in the same way.
unfoldable pub store_bytes : ℕ → List ℕ → Memory → Memory
store_bytes p [] memory = memory
store_bytes p (b ∷ bs) memory = store_bytes (p + 1) bs (λ a. if a == p then b else memory a)
